-- ===== src/Checkpoint/Sort.antt =====
-- std::sort with a comparison of the source's, as an insertion sort, and the order of file times.
pub mod Laws
pub mod Split
use config_manager.Common.{
  ℕ, zero, suc, ltb, ◌==◌, Bytes, Bool, true, false, if◌then◌else◌, List, [], ◌∷◌,
}

module _ {A : Type 0} where
  unfoldable pub insert : (A → A → Bool) → A → List A → List A
  insert before x [] = x ∷ []
  insert before x (y ∷ ys) =
      let rest = insert before x ys in if before y x then y ∷ rest else x ∷ y ∷ ys

  unfoldable pub sort : (A → A → Bool) → List A → List A
  unfolding insert
  sort before [] = []
  sort before (x ∷ xs) = insert before x (sort before xs)

-- operator< on the bytes of two strings
unfoldable pub bytes_less : Bytes → Bytes → Bool
bytes_less [] [] = false
bytes_less [] (y ∷ ys) = true
bytes_less (x ∷ xs) [] = false
bytes_less (x ∷ xs) (y ∷ ys) = let rest = bytes_less xs ys in if x == y then rest else ltb x y

-- The newer file comes first, then the smaller path.
unfoldable pub newer : ℕ → Bytes → ℕ → Bytes → Bool
unfolding bytes_less
newer time path other_time other_path =
    if time == other_time then bytes_less path other_path else ltb other_time time

abbrev pub skip {ℓ} : {A : Type ℓ} → ℕ → List A → List A
skip zero xs = xs
skip (suc n) [] = []
skip (suc n) (x ∷ xs) = skip n xs
