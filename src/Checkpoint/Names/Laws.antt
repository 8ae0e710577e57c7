-- ===== src/Checkpoint/Names/Laws.antt =====
-- The name of a checkpoint: ten digits, which are the version.
use config_manager.Common.{
  ℕ, zero, suc, ◌+◌, ◌-◌, ◌*◌, ◌/◌, ◌%◌, ◌^◌, ◌≤◌, ◌<◌, ◌≡◌, refl, ap, ◌∙◌, ltb, ltb-false, lt→ltb,
  Bytes, true, all, Bool-cases, inl, inr, [], ◌∷◌, ◌++◌, length, length-append, arith,
}
use config_manager.Path.{is_digit, decimal}
use config_manager.Checkpoint.Host.{Paths}
use config_manager.Checkpoint.Names.{
  digits_within, to_string, zeros, padded, checkpoint_filename, is_checkpoint_filename,
}

all_digits-append :
    (xs ys : Bytes)
    → all is_digit xs ≡ true
    → all is_digit ys ≡ true
    → all is_digit (xs ++ ys) ≡ true
all_digits-append [] ys h g = g
all_digits-append (x ∷ xs) ys h g = ground (arith, all_digits-append xs ys)

decimal-append :
    (acc : ℕ) (xs : Bytes) (d : ℕ) → decimal acc (xs ++ d ∷ []) ≡ decimal acc xs * 10 + (d - b'0')
decimal-append acc [] d = refl
decimal-append acc (x ∷ xs) d = decimal-append (acc * 10 + (x - b'0')) xs d

digits_within-all : (fuel n : ℕ) → all is_digit (digits_within fuel n) ≡ true
unfolding digits_within
digits_within-all zero n = ground arith
digits_within-all (suc fuel) n = elim (Bool-cases (ltb n 10)) [
  | inl small ↦ rw small (ground arith)
  | inr large ↦ rw large (
      all_digits-append (digits_within fuel (n / 10)) ((b'0' + n % 10) ∷ [])
        (digits_within-all fuel (n / 10)) (ground arith))
]

decimal-digits_within : (fuel n : ℕ) → n ≤ fuel → decimal 0 (digits_within fuel n) ≡ n
unfolding digits_within
decimal-digits_within zero n h = omega arith
decimal-digits_within (suc fuel) n h = elim (Bool-cases (ltb n 10)) [
  | inl small ↦ rw small (omega arith)
  | inr large ↦
      rw (large, decimal-append 0 (digits_within fuel (n / 10)) (b'0' + n % 10))
        (omega (
          arith,
          ltb-false n 10 large,
          decimal-digits_within fuel (n / 10) (omega (arith, ltb-false n 10 large)),
        ))
]

power : ℕ → ℕ
power zero = 1
power (suc k) = 10 * power k

length-digits_within : (k fuel n : ℕ) → n < power (suc k) → length (digits_within fuel n) ≤ suc k
unfolding digits_within power
length-digits_within k zero n h = omega arith
length-digits_within zero (suc fuel) n h = rw (lt→ltb n 10 (omega arith)) (omega arith)
length-digits_within (suc k) (suc fuel) n h = elim (Bool-cases (ltb n 10)) [
  | inl small ↦ rw small (omega arith)
  | inr large ↦
      rw (large, length-append) (omega (arith, length-digits_within k fuel (n / 10) (omega arith)))
]

zeros-digits : (k : ℕ) (xs : Bytes) → all is_digit xs ≡ true → all is_digit (zeros k ++ xs) ≡ true
zeros-digits zero xs h = h
zeros-digits (suc k) xs h = zeros-digits k xs h

decimal-zeros : (k : ℕ) (xs : Bytes) → decimal 0 (zeros k ++ xs) ≡ decimal 0 xs
decimal-zeros zero xs = refl
decimal-zeros (suc k) xs = decimal-zeros k xs

length-zeros : (k : ℕ) → length (zeros k) ≡ k
length-zeros zero = refl
length-zeros (suc k) = ap suc (length-zeros k)

length-padded : (text : Bytes) → length text ≤ 10 → length (padded 10 text) ≡ 10
length-padded text h =
    omega (arith, length-append (zeros (10 - length text)) text, length-zeros (10 - length text))

-- Where `std::filesystem` takes a name of ten digits apart at its extension, and for a 32-bit
-- version: the name of the version's checkpoint passes the test for such names, and the number that
-- its stem reads as is the version.
pub checkpoint_filename-decimal :
    (paths : Paths) (extension : Bytes) (version : ℕ)
    → ((s : Bytes)
        → all is_digit s ≡ true
        → length s ≡ 10
        → (paths.equal (paths.extension (s ++ extension)) extension ≡ true)
          × (paths.stem (s ++ extension) ≡ s))
    → version < 2 ^ 32
    → (is_checkpoint_filename paths (checkpoint_filename version extension) extension ≡ true)
      × (decimal 0 (paths.stem (checkpoint_filename version extension)) ≡ version)
unfolding checkpoint_filename is_checkpoint_filename to_string power
checkpoint_filename-decimal paths extension version apart small =
    let ds = digits_within version version in
    let plain = zeros-digits (10 - length ds) ds (digits_within-all version version) in
    let full = length-padded ds (length-digits_within 9 version version (omega arith)) in
    let (ext, stem) = apart (padded 10 ds) plain full in
    (
      rw (ext, stem, full, plain) refl,
      rw stem
          (decimal-zeros (10 - length ds) ds ∙ decimal-digits_within version version (omega arith)),
    )
