-- ===== src/Checkpoint/Sort/Laws.antt =====
-- The sort returns the elements it is given, in the order of the comparison.
use config_manager.Common.{
  ℕ, ◌≡◌, refl, Bytes, Bool, true, false, Bool-cases, inl, inr, List, [], ◌∷◌, map, ap, ◌∙◌, ◌++◌,
  arith,
}
use mathlib.Core.List.{Perm}
use mathlib.Core.List.Perm
use config_manager.Checkpoint.Sort.{insert, sort, bytes_less, newer}

abbrev pub Every : {A : Type 0} → (A → Type 0) → List A → Type 0
Every P [] = Unit {0}
Every P (x ∷ xs) = P x × Every P xs

abbrev pub AllPairs : {A : Type 0} → (A → A → Type 0) → List A → Type 0
AllPairs R [] = Unit {0}
AllPairs R (x ∷ xs) = Every (R x) xs × AllPairs R xs

-- No element stands behind one that it comes before.
abbrev pub IsSorted : {A : Type 0} → (A → A → Bool) → List A → Type 0
IsSorted before [] = Unit {0}
IsSorted before (x ∷ xs) = Every (λ y. before y x ≡ false) xs × IsSorted before xs

pub record IsStrictOrder {A : Type 0} (before : A → A → Bool) : Type 0 where
  pub asymmetric : (x y : A) → before x y ≡ true → before y x ≡ false
  pub cotransitive : (x y z : A) → before x y ≡ false → before y z ≡ false → before x z ≡ false

pub Every-map :
    {A : Type 0} {P Q : A → Type 0} (xs : List A) → ((x : A) → P x → Q x) → Every P xs → Every Q xs
Every-map [] f h = tt
Every-map (x ∷ xs) f (p, h) = (f x p, Every-map xs f h)

pub Every-all : {A : Type 0} (P : A → Type 0) (xs : List A) → ((x : A) → P x) → Every P xs
Every-all P [] f = tt
Every-all P (x ∷ xs) f = (f x, Every-all P xs f)

pub Every-zip :
    {A : Type 0} (P Q R : A → Type 0) (xs : List A)
    → ((x : A) → P x → Q x → R x)
    → Every P xs
    → Every Q xs
    → Every R xs
Every-zip P Q R [] f h g = tt
Every-zip P Q R (x ∷ xs) f (p, h) (q, g) = (f x p q, Every-zip P Q R xs f h g)

pub Every-append :
    {A : Type 0} (P : A → Type 0) (xs ys : List A) → Every P xs → Every P ys → Every P (xs ++ ys)
Every-append P [] ys h g = g
Every-append P (x ∷ xs) ys (p, h) g = (p, Every-append P xs ys h g)

module _ {A : Type 0} (before : A → A → Bool) where
  Every-insert :
      (P : A → Type 0) (x : A) (xs : List A) → P x → Every P xs → Every P (insert before x xs)
  unfolding insert
  Every-insert P x [] p h = (p, tt)
  Every-insert P x (y ∷ ys) p (q, h) = elim (Bool-cases (before y x)) [
    | inl after ↦ rw after (q, Every-insert P x ys p h)
    | inr here ↦ rw here (p, (q, h))
  ]

  pub Every-sort : (P : A → Type 0) (xs : List A) → Every P xs → Every P (sort before xs)
  unfolding sort
  Every-sort P [] h = tt
  Every-sort P (x ∷ xs) (p, h) = Every-insert P x (sort before xs) p (Every-sort P xs h)

  insert-Perm : (x : A) (xs : List A) → Perm (insert before x xs) (x ∷ xs)
  unfolding insert
  insert-Perm x [] = Perm.rfl
  insert-Perm x (y ∷ ys) = elim (Bool-cases (before y x)) [
    | inl after ↦ rw after (Perm.trans (Perm.cons y (insert-Perm x ys)) (Perm.swap x y ys))
    | inr here ↦ rw here Perm.rfl
  ]

  pub sort-Perm : (xs : List A) → Perm (sort before xs) xs
  unfolding sort
  sort-Perm [] = Perm.rfl
  sort-Perm (x ∷ xs) = Perm.trans (insert-Perm x (sort before xs)) (Perm.cons x (sort-Perm xs))

  AllPairs-insert :
      (R : A → A → Type 0)
      → ((x y : A) → R x y → R y x)
      → (x : A) (xs : List A) → Every (R x) xs
      → AllPairs R xs
      → AllPairs R (insert before x xs)
  unfolding insert
  AllPairs-insert R flip x [] h s = (tt, tt)
  AllPairs-insert R flip x (y ∷ ys) (r, h) (g, s) = elim (Bool-cases (before y x)) [
    | inl after ↦ rw after (Every-insert (R y) x ys (flip x y r) g, AllPairs-insert R flip x ys h s)
    | inr here ↦ rw here ((r, h), (g, s))
  ]

  pub AllPairs-sort :
      (R : A → A → Type 0)
      → ((x y : A) → R x y → R y x)
      → (xs : List A) → AllPairs R xs
      → AllPairs R (sort before xs)
  unfolding sort
  AllPairs-sort R flip [] h = tt
  AllPairs-sort R flip (x ∷ xs) (h, s) =
      AllPairs-insert R flip x (sort before xs) (Every-sort (R x) xs h) (AllPairs-sort R flip xs s)

  insert-IsSorted :
      IsStrictOrder before
      → (x : A) (xs : List A) → IsSorted before xs
      → IsSorted before (insert before x xs)
  unfolding insert
  insert-IsSorted o x [] s = (tt, tt)
  insert-IsSorted o x (y ∷ ys) (h, s) = elim (Bool-cases (before y x)) [
    | inl after ↦
        rw after (Every-insert _ x ys (o.asymmetric y x after) h, insert-IsSorted o x ys s)
    | inr here ↦
        rw here ((here, Every-map ys (λ z below. o.cotransitive z y x below here) h), (h, s))
  ]

  pub sort-IsSorted : IsStrictOrder before → (xs : List A) → IsSorted before (sort before xs)
  unfolding sort
  sort-IsSorted o [] = tt
  sort-IsSorted o (x ∷ xs) = insert-IsSorted o x (sort before xs) (sort-IsSorted o xs)

bytes_less_asymmetric : (xs ys : Bytes) → bytes_less xs ys ≡ true → bytes_less ys xs ≡ false
unfolding bytes_less
bytes_less_asymmetric [] [] h = refl
bytes_less_asymmetric [] (y ∷ ys) h = refl
bytes_less_asymmetric (x ∷ xs) [] h = cc
bytes_less_asymmetric (x ∷ xs) (y ∷ ys) h = ground (arith, bytes_less_asymmetric xs ys)

bytes_less_cotransitive :
    (xs ys zs : Bytes)
    → bytes_less xs ys ≡ false
    → bytes_less ys zs ≡ false
    → bytes_less xs zs ≡ false
unfolding bytes_less
bytes_less_cotransitive [] [] zs h g = g
bytes_less_cotransitive [] (y ∷ ys) zs h g = cc
bytes_less_cotransitive (x ∷ xs) ys [] h g = refl
bytes_less_cotransitive (x ∷ xs) [] (z ∷ zs) h g = cc
bytes_less_cotransitive (x ∷ xs) (y ∷ ys) (z ∷ zs) h g =
    ground (arith, bytes_less_cotransitive xs ys zs)

pub newer_asymmetric :
    (s : ℕ) (p : Bytes) (t : ℕ) (q : Bytes) → newer s p t q ≡ true → newer t q s p ≡ false
unfolding newer
newer_asymmetric s p t q h = ground (arith, bytes_less_asymmetric p q)

pub newer_cotransitive :
    (s : ℕ) (p : Bytes) (t : ℕ) (q : Bytes) (u : ℕ) (r : Bytes)
    → newer s p t q ≡ false
    → newer t q u r ≡ false
    → newer s p u r ≡ false
unfolding newer
newer_cotransitive s p t q u r h g = ground (arith, bytes_less_cotransitive p q r)

module _ {A B : Type 0} (f : A → B) (before : B → B → Bool) where
  map-insert :
      (x : A) (xs : List A)
      → map f (insert (λ a b. before (f a) (f b)) x xs) ≡ insert before (f x) (map f xs)
  unfolding insert
  map-insert x [] = refl
  map-insert x (y ∷ ys) = elim (Bool-cases (before (f y) (f x))) [
    | inl after ↦ rw after (ap (◌∷◌ (f y)) (map-insert x ys))
    | inr here ↦ rw here refl
  ]

  pub map-sort :
      (xs : List A) → map f (sort (λ a b. before (f a) (f b)) xs) ≡ sort before (map f xs)
  unfolding sort
  map-sort [] = refl
  map-sort (x ∷ xs) =
      map-insert x (sort (λ a b. before (f a) (f b)) xs) ∙ ap (insert before (f x)) (map-sort xs)
