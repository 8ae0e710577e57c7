-- ===== src/Path.antt =====
-- src/config_path.cpp and include/configmanager/config_path.hpp: the path grammar's parser. The
-- offset `pos` into the text is modelled by the bytes from `pos` on. Each loop runs on fuel and is
-- given one round more than there are bytes left; a round consumes at least one byte.
pub mod Span
pub mod Grammar
pub mod Sound
pub mod Complete
pub mod Total
pub mod Laws
use Span.{span}
use config_manager.Common.{
  ℕ, zero, suc, ◌+◌, ◌-◌, ◌*◌, ◌^◌, Bytes, Bool, true, false, ◌&&◌, ◌||◌, not, List, [], ◌∷◌, ◌++◌,
  ltb, leb, ◌==◌, if◌then◌else◌, length, Result, ok, err, out_of_fuel, invalid_path, ◌>>=◌,
}

pub data PathSegment : Type 0 where
  key : Bytes → PathSegment
  index : ℕ → PathSegment

abbrev pub is_digit : ℕ → Bool
is_digit c = leb b'0' c && leb c b'9'

abbrev pub is_reserved : ℕ → Bool
is_reserved c = (c == b'.') || (c == b'[') || (c == b']')

abbrev pub is_key_byte : ℕ → Bool
is_key_byte c = not (is_reserved c)

abbrev pub is_empty {ℓ} : {A : Type ℓ} → List A → Bool
is_empty [] = true
is_empty (_ ∷ _) = false

-- std::from_chars on decimal digits, before its range test.
abbrev pub decimal : ℕ → Bytes → ℕ
decimal acc [] = acc
decimal acc (c ∷ ds) = decimal (acc * 10 + (c - b'0')) ds

-- The number of values of a 64-bit std::size_t.
abbrev pub size_mod : ℕ
size_mod = 2 ^ 64

unfoldable pub from_chars : Bytes → Result ℕ
from_chars ds = if ltb (decimal 0 ds) size_mod then ok (decimal 0 ds) else err invalid_path

unfoldable pub close_index : Bytes → Bytes → Result (ℕ × Bytes)
close_index ds [] = err invalid_path
close_index ds (c ∷ r) = if c == b']' then (do n ← from_chars ds; ok (n, r)) else err invalid_path

-- One index, after its "[".
unfoldable pub parse_index : Bytes → Result (ℕ × Bytes)
parse_index t =
    if is_empty (span is_digit t).0
    then err invalid_path
    else close_index (span is_digit t).0 (span is_digit t).1

unfoldable pub parse_indices : ℕ → Bytes → Result (List PathSegment × Bytes)
parse_indices zero t = out_of_fuel
parse_indices (suc fuel) [] = ok ([], [])
parse_indices (suc fuel) (c ∷ t) =
    let more : Result (List PathSegment × Bytes) = (do
      (n, r) ← parse_index t
      (is, r') ← parse_indices fuel r
      ok (index n ∷ is, r')) in
    if c == b'[' then more else ok ([], c ∷ t)

-- What follows a segment's indices: the end, or "." and a further segment.
unfoldable pub after_segment :
    (Bytes → Result (List PathSegment)) → List PathSegment → Bytes → Result (List PathSegment)
after_segment continue segments [] = ok segments
after_segment continue segments (c ∷ r) =
    if c == b'.' then (do more ← continue r; ok (segments ++ more)) else err invalid_path

unfoldable pub parse_segments : ℕ → Bytes → Result (List PathSegment)
parse_segments zero t = out_of_fuel
parse_segments (suc fuel) t = if is_empty (span is_key_byte t).0 then err invalid_path else do
  (is, r) ← parse_indices (suc (length t)) (span is_key_byte t).1
  after_segment (λ u. parse_segments fuel u) (key (span is_key_byte t).0 ∷ is) r

unfoldable pub parse : Bytes → Result (List PathSegment)
parse text = if is_empty text then err invalid_path else parse_segments (suc (length text)) text
