-- ===== src/Checkpoint/Atomic/Suffix.antt =====
-- The end of a temporary file's name has no separator in it.
use config_manager.Common.{
  ℕ, zero, suc, ◌+◌, ◌/◌, ◌%◌, ◌≡◌, ltb, refl, Bytes, true, Bool-cases, inl, inr, [], ◌∷◌, ◌++◌,
  arith,
}
use config_manager.Checkpoint.Names.{digits_within, to_string}
use config_manager.Checkpoint.Files.{temporary_mark, temporary_suffix}
use config_manager.Checkpoint.Storage.{no_slash}

pub no_slash-append :
    (xs ys : Bytes) → no_slash xs ≡ true → no_slash ys ≡ true → no_slash (xs ++ ys) ≡ true
no_slash-append [] ys h g = g
no_slash-append (x ∷ xs) ys h g = ground (arith, no_slash-append xs ys)

no_slash-digits : (fuel n : ℕ) → no_slash (digits_within fuel n) ≡ true
unfolding digits_within
no_slash-digits zero n = ground arith
no_slash-digits (suc fuel) n = elim (Bool-cases (ltb n 10)) [
  | inl small ↦ rw small (ground arith)
  | inr large ↦ rw large (
      no_slash-append (digits_within fuel (n / 10)) ((b'0' + n % 10) ∷ [])
        (no_slash-digits fuel (n / 10)) (ground arith))
]

pub suffix_no_slash : (ticks sequence : ℕ) → no_slash (temporary_suffix ticks sequence) ≡ true
unfolding to_string
suffix_no_slash ticks sequence =
    no_slash-append (temporary_mark ++ digits_within ticks ticks)
      (b'.' ∷ digits_within sequence sequence)
      (no_slash-append temporary_mark (digits_within ticks ticks) refl
        (no_slash-digits ticks ticks))
      (ground (arith, no_slash-digits sequence sequence))
