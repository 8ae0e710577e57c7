-- ===== src/Checkpoint/Sort/Split.antt =====
-- A sorted list under a map, and cut in two.
use config_manager.Common.{
  ℕ, zero, suc, ◌≤◌, ◌≡◌, ◌⊎◌, inl, inr, refl, ap, Bool, false, Bool-cases, List, [], ◌∷◌, ◌++◌,
  map, length, arith,
}
use config_manager.Checkpoint.Sort.{insert, sort, skip}
use config_manager.Checkpoint.Sort.Laws.{Every, IsSorted, AllPairs, Every-all, Every-zip}

abbrev pub take {ℓ} : {A : Type ℓ} → ℕ → List A → List A
take zero xs = []
take (suc n) [] = []
take (suc n) (x ∷ xs) = x ∷ take n xs

-- Some element has it.
abbrev pub Some : {A : Type 0} → (A → Type 0) → List A → Type 0
Some P [] = ⊥
Some P (x ∷ xs) = P x ⊎ Some P xs

pub map-skip :
    {A B : Type 0} (f : A → B) (n : ℕ) (xs : List A) → map f (skip n xs) ≡ skip n (map f xs)
map-skip f zero xs = refl
map-skip f (suc n) [] = refl
map-skip f (suc n) (x ∷ xs) = map-skip f n xs

module _ {A : Type 0} where
  pub take-skip : (n : ℕ) (xs : List A) → (take n xs ++ skip n xs) ≡ xs
  take-skip zero xs = refl
  take-skip (suc n) [] = refl
  take-skip (suc n) (x ∷ xs) = ap (◌∷◌ x) (take-skip n xs)

  pub length-take_le : (n : ℕ) (xs : List A) → length (take n xs) ≤ n
  length-take_le zero xs = omega arith
  length-take_le (suc n) [] = omega arith
  length-take_le (suc n) (x ∷ xs) = omega (arith, length-take_le n xs)

  pub Every-take : (P : A → Type 0) (n : ℕ) (xs : List A) → Every P xs → Every P (take n xs)
  Every-take P zero xs h = tt
  Every-take P (suc n) [] h = tt
  Every-take P (suc n) (x ∷ xs) (p, h) = (p, Every-take P n xs h)

  pub Every-skip : (P : A → Type 0) (n : ℕ) (xs : List A) → Every P xs → Every P (skip n xs)
  Every-skip P zero xs h = h
  Every-skip P (suc n) [] h = tt
  Every-skip P (suc n) (x ∷ xs) (p, h) = Every-skip P n xs h

  pub AllPairs-take :
      (R : A → A → Type 0) (n : ℕ) (xs : List A) → AllPairs R xs → AllPairs R (take n xs)
  AllPairs-take R zero xs h = tt
  AllPairs-take R (suc n) [] h = tt
  AllPairs-take R (suc n) (x ∷ xs) (p, h) = (Every-take (R x) n xs p, AllPairs-take R n xs h)

  pub Some-append : (P : A → Type 0) (xs ys : List A) → Some P (xs ++ ys) → Some P xs ⊎ Some P ys
  Some-append P [] ys h = inr h
  Some-append P (x ∷ xs) ys (inl p) = inl (inl p)
  Some-append P (x ∷ xs) ys (inr h) = elim (Some-append P xs ys h) [
    | inl left ↦ inl (inr left)
    | inr right ↦ inr right
  ]

  pub Some-Every :
      (P Q : A → Type 0) (R : Type 0) (xs : List A)
      → Some P xs
      → Every Q xs
      → ((x : A) → P x → Q x → R)
      → R
  Some-Every P Q R [] h g k = absurd h
  Some-Every P Q R (x ∷ xs) (inl p) (q, g) k = k x p q
  Some-Every P Q R (x ∷ xs) (inr h) (q, g) k = Some-Every P Q R xs h g k

-- What is behind the cut is full measure, and none of it comes before what is kept.
pub skip-IsSorted :
    {A : Type 0} (before : A → A → Bool) (n : ℕ) (xs : List A)
    → IsSorted before xs
    → Every
        (λ d. (length (take n xs) ≡ n) × Every (λ k. before d k ≡ false) (take n xs))
        (skip n xs)
skip-IsSorted before zero xs s = Every-all _ xs (λ d. (refl, tt))
skip-IsSorted before (suc n) [] s = tt
skip-IsSorted before (suc n) (x ∷ xs) (h, s) =
    Every-zip (λ d. before d x ≡ false)
      (λ d. (length (take n xs) ≡ n) × Every (λ k. before d k ≡ false) (take n xs)) _ (skip n xs)
      (λ d b (l, e). (ap suc l, (b, e))) (Every-skip _ n xs h) (skip-IsSorted before n xs s)

module _ {A : Type 0} (before : A → A → Bool) where
  Some-insert :
      (P : A → Type 0) (x : A) (xs : List A) → Some P (x ∷ xs) → Some P (insert before x xs)
  unfolding insert
  Some-insert P x [] h = h
  Some-insert P x (y ∷ ys) (inl p) = elim (Bool-cases (before y x)) [
    | inl after ↦ rw after (inr (Some-insert P x ys (inl p)))
    | inr here ↦ rw here (inl p)
  ]
  Some-insert P x (y ∷ ys) (inr (inl q)) = elim (Bool-cases (before y x)) [
    | inl after ↦ rw after (inl q)
    | inr here ↦ rw here (inr (inl q))
  ]
  Some-insert P x (y ∷ ys) (inr (inr h)) = elim (Bool-cases (before y x)) [
    | inl after ↦ rw after (inr (Some-insert P x ys (inr h)))
    | inr here ↦ rw here (inr (inr h))
  ]

  pub Some-sort : (P : A → Type 0) (xs : List A) → Some P xs → Some P (sort before xs)
  unfolding sort
  Some-sort P (x ∷ xs) (inl p) = Some-insert P x (sort before xs) (inl p)
  Some-sort P (x ∷ xs) (inr h) = Some-insert P x (sort before xs) (inr (Some-sort P xs h))
  Some-sort P [] h = h
