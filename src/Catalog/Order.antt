-- ===== src/Catalog/Order.antt =====
-- The order of the catalog's entries, and what std::lower_bound finds in it.
use config_manager.Common.{
  ℕ, zero, suc, ◌<◌, ◌≤◌, ◌≡◌, ◌⊎◌, inl, inr, refl, Bool, true, false, ◌||◌, ltb, ◌==◌, Bool-cases,
  List, [], ◌∷◌, get_elem?, any, arith, Result, ok, err, invalid_version, ltb→lt,
}
use config_manager.Catalog.{VersionArtifact, find_entry, insert_at, has_version, version_at}

module _ {W : Type 0} where
  abbrev pub Above : ℕ → List (VersionArtifact W) → Type 0
  Above v [] = Unit {0}
  Above v (e ∷ es) = (v < e.version) × Above v es

  -- Strictly ascending versions.
  abbrev pub Ascending : List (VersionArtifact W) → Type 0
  Ascending [] = Unit {0}
  Ascending (e ∷ es) = Above e.version es × Ascending es

  -- Some entry is of version `v`, by a walk through all of them.
  abbrev pub listed : ℕ → List (VersionArtifact W) → Bool
  listed v es = any (λ e. e.version == v) es

  pub Above-trans : (u v : ℕ) (es : List (VersionArtifact W)) → u < v → Above v es → Above u es
  Above-trans u v [] h a = tt
  Above-trans u v (e ∷ es) h a = (omega arith, Above-trans u v es h a.1)

  pub Above-listed :
      (v u : ℕ) (es : List (VersionArtifact W)) → Above v es → listed u es ≡ true → v < u
  Above-listed v u [] a h = cc
  Above-listed v u (e ∷ es) a h = ground (arith, Above-listed v u es)

  -- The test that registerVersion, contains and nextVersion make on the entry found.
  pub found_iff :
      (v : ℕ) (es : List (VersionArtifact W))
      → Ascending es
      → has_version v (get_elem? es (find_entry es v)) ≡ listed v es
  unfolding find_entry
  found_iff v [] s = refl
  found_iff v (e ∷ es) s = elim (Bool-cases (ltb e.version v)) [
    | inl below ↦ rw below (ground (arith, found_iff v es s.1))
    | inr here ↦ rw here (ground (arith, Above-listed e.version v es))
  ]

  pub Above-insert :
      (u : ℕ) (x : VersionArtifact W) (es : List (VersionArtifact W)) (i : ℕ)
      → u < x.version
      → Above u es
      → Above u (insert_at i x es)
  unfolding insert_at
  Above-insert u x es zero h a = (h, a)
  Above-insert u x [] (suc i) h a = (h, a)
  Above-insert u x (e ∷ es) (suc i) h a = (a.0, Above-insert u x es i h a.1)

  pub Ascending-insert :
      (x : VersionArtifact W) (es : List (VersionArtifact W))
      → Ascending es
      → listed x.version es ≡ false
      → Ascending (insert_at (find_entry es x.version) x es)
  unfolding find_entry insert_at
  Ascending-insert x [] s fresh = (tt, tt)
  Ascending-insert x (e ∷ es) s fresh = elim (Bool-cases (ltb e.version x.version)) [
    | inl below ↦ rw below (
      Above-insert e.version x es (find_entry es x.version) (ltb→lt _ _ below) s.0,
      Ascending-insert x es s.1 (ground arith),
    )
    | inr here ↦
        let lt : x.version < e.version = ground arith in
        rw here ((lt, Above-trans x.version e.version es lt s.0), s)
  ]

  pub listed-insert :
      (v : ℕ) (x : VersionArtifact W) (es : List (VersionArtifact W)) (i : ℕ)
      → listed v (insert_at i x es) ≡ ((x.version == v) || listed v es)
  unfolding insert_at
  listed-insert v x es zero = refl
  listed-insert v x [] (suc i) = refl
  listed-insert v x (e ∷ es) (suc i) = ground (arith, listed-insert v x es i)

  -- The next version in the order: nothing registered lies between.
  abbrev pub NextIn : List (VersionArtifact W) → ℕ → ℕ → Type 0
  NextIn es v w =
      (listed w es ≡ true) × (v < w) × ((u : ℕ) → listed u es ≡ true → (u ≤ v) ⊎ (w ≤ u))

  abbrev pub IsLast : List (VersionArtifact W) → ℕ → Type 0
  IsLast es v = (u : ℕ) → listed u es ≡ true → u ≤ v

  abbrev after : List (VersionArtifact W) → ℕ → Result ℕ
  after es v = version_at (get_elem? es (suc (find_entry es v)))

  -- After an entry of version `v` stands the next version, or nothing and `v` is the last.
  pub data After (es : List (VersionArtifact W)) (v : ℕ) : Type 0 where
    next : (w : ℕ) → after es v ≡ ok w → NextIn es v w → After es v
    last : after es v ≡ err invalid_version → IsLast es v → After es v

  After-skip :
      (e : VersionArtifact W) (es : List (VersionArtifact W)) (v : ℕ)
      → e.version < v
      → After es v
      → After (e ∷ es) v
  unfolding find_entry
  After-skip e es v h (next w eq (lw, vw, none_between)) =
      next w (ground arith) (ground arith, vw, λ u lu. ground (arith, none_between u))
  After-skip e es v h (last eq top) = last (ground arith) (λ u lu. ground (arith, top u))

  After-here :
      (e : VersionArtifact W) (es : List (VersionArtifact W)) (v : ℕ)
      → e.version ≡ v
      → Ascending (e ∷ es)
      → After (e ∷ es) v
  unfolding find_entry
  After-here e [] v h s = last (ground arith) (λ u lu. ground arith)
  After-here e (f ∷ es) v h s =
      next f.version (ground arith)
        (ground arith, ground arith, λ u lu. ground (arith, Above-listed f.version u es))

  pub After-listed :
      (v : ℕ) (es : List (VersionArtifact W)) → Ascending es → listed v es ≡ true → After es v
  After-listed v [] s h = cc
  After-listed v (e ∷ es) s h = elim (Bool-cases (e.version == v)) [
    | inl same ↦ After-here e es v (ground arith) s
    | inr other ↦
        let rest : listed v es ≡ true = ground arith in
        After-skip e es v (Above-listed e.version v es s.0 rest) (After-listed v es s.1 rest)
  ]
