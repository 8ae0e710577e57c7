-- ===== src/Node/Convert.antt =====
-- detail::convertScalar of include/configmanager/config_node.hpp, for the targets bool, std::string
-- and the integer types. A double is its IEEE 754 bit pattern.
use config_manager.Common.{
  ℕ, zero, suc, ◌+◌, ◌-◌, ◌*◌, ◌/◌, ◌%◌, ◌^◌, ◌==◌, ltb, leb, Bytes, Bool, true, false, ◌&&◌,
  if◌then◌else◌, Option, none, some, Result, ok, err, invalid_type,
}
use config_manager.Common.Int.{ℤ, pos, negsuc}
use config_manager.Value.{Scalar, bool, int64, double, string}

-- An integer type of `width` bits.
pub record IntegerType : Type 0 where
  pub signed : Bool
  pub width : ℕ

abbrev pub fits_signed : ℕ → ℤ → Bool
fits_signed w (pos n) = ltb n (2 ^ (w - 1))
fits_signed w (negsuc n) = ltb n (2 ^ (w - 1))

abbrev pub fits_unsigned : ℕ → ℤ → Bool
fits_unsigned w (pos n) = ltb n (2 ^ w)
fits_unsigned w (negsuc n) = false

-- fitsInt<T>
unfoldable pub fits_int : IntegerType → ℤ → Bool
fits_int t z = if t.signed then fits_signed t.width z else fits_unsigned t.width z

abbrev negate : ℕ → ℤ
negate zero = pos 0
negate (suc n) = negsuc n

abbrev with_sign : Bool → ℕ → ℤ
with_sign false n = pos n
with_sign true n = negate n

abbrev pub exponent : ℕ → ℕ
exponent d = d / 2 ^ 52 % 2 ^ 11

abbrev pub fraction : ℕ → ℕ
fraction d = d % 2 ^ 52

-- The magnitude of a double that is an integer: none for a fraction, an infinity and a NaN.
unfoldable pub integral_magnitude : ℕ → ℕ → Option ℕ
integral_magnitude e m =
    if e == 2047
    then none
    else if e == 0
    then (if m == 0 then some 0 else none)
    else if leb 1075 e
    then some ((2 ^ 52 + m) * 2 ^ (e - 1075))
    else if (2 ^ 52 + m) % 2 ^ (1075 - e) == 0
    then some ((2 ^ 52 + m) / 2 ^ (1075 - e))
    else none

abbrev signed_value : Bool → Option ℕ → Option ℤ
signed_value s none = none
signed_value s (some n) = some (with_sign s n)

unfoldable pub integral_value : ℕ → Option ℤ
unfolding integral_magnitude
integral_value d = signed_value (d / 2 ^ 63 == 1) (integral_magnitude (exponent d) (fraction d))

-- The source's range tests before the cast: [-2^63, 2^63) or [0, 2^64).
abbrev cast_range : IntegerType → ℤ → Bool
cast_range t z = if t.signed then fits_signed 64 z else fits_unsigned 64 z

abbrev convert_integral : IntegerType → Option ℤ → Result ℤ
convert_integral t none = err invalid_type
convert_integral t (some z) = if cast_range t z && fits_int t z then ok z else err invalid_type

unfoldable pub as_bool : Scalar → Result Bool
as_bool (bool b) = ok b
as_bool _ = err invalid_type

unfoldable pub as_string : Scalar → Result Bytes
as_string (string s) = ok s
as_string _ = err invalid_type

unfoldable pub as_integer : IntegerType → Scalar → Result ℤ
unfolding fits_int integral_value
as_integer t (int64 z) = if fits_int t z then ok z else err invalid_type
as_integer t (double d) = convert_integral t (integral_value d)
as_integer t _ = err invalid_type
