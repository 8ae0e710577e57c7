-- ===== src/Catalog/Laws.antt =====
-- What the catalog promises: registration keeps the order, and the binary searches answer what a
-- walk through the registered versions would.
use config_manager.Common.{
  ℕ, ◌≤◌, ◌≡◌, ◌↔◌, inl, inr, refl, ap, true, ◌||◌, ◌&&◌, ◌==◌, Bool-cases, List, [], ◌∷◌, any, map,
  arith, ok, is_ok,
}
use mathlib.Core.Path.{subst}
use config_manager.Catalog.{
  VersionArtifact, VersionCatalog, contains, register, next_version, latest_version, latest_of,
  last_version, versions, find_entry,
}
use config_manager.Catalog.Order
use config_manager.Catalog.Order.{
  Ascending, Above, listed, found_iff, NextIn, IsLast, After, next, last, After-listed,
  Above-listed,
}

ok-injective : {v w : ℕ} → ok v ≡ ok w → v ≡ w
ok-injective h = cc

module _ {W : Type 0} where
  any-versions :
      (v : ℕ) (es : List (VersionArtifact W))
      → any (λ u. u == v) (map (λ e. e.version) es) ≡ listed v es
  any-versions v [] = refl
  any-versions v (e ∷ es) = rw (any-versions v es)

  pub contains-listed :
      (c : VersionCatalog W) (v : ℕ) → Ascending c.entries → contains c v ≡ listed v c.entries
  unfolding contains
  contains-listed c v s = found_iff v c.entries s

  -- In a catalog whose entries ascend, the binary search of `contains` answers whether the version
  -- is one of those that `versions` returns.
  pub contains-versions :
      (c : VersionCatalog W) (v : ℕ)
      → Ascending c.entries
      → contains c v ≡ any (λ u. u == v) (versions c)
  unfolding contains versions
  contains-versions c v s = rw (any-versions v c.entries) (found_iff v c.entries s)

  -- Registration, whether it succeeds or fails, keeps the entries in strictly ascending order.
  pub register-Ascending :
      (x : VersionArtifact W) (c : VersionCatalog W)
      → Ascending c.entries
      → Ascending (register x c).1.entries
  unfolding register
  register-Ascending x c s = elim (Bool-cases (listed x.version c.entries)) [
    | inl old ↦ ground (arith, found_iff x.version c.entries s)
    | inr new ↦
        ground (arith, found_iff x.version c.entries s, Order.Ascending-insert x c.entries s new)
  ]

  listed-register :
      (x : VersionArtifact W) (c : VersionCatalog W) (v : ℕ)
      → listed v (register x c).1.entries
        ≡ (listed v c.entries || (is_ok (register x c).0 && (x.version == v)))
  unfolding register
  listed-register x c v =
      ground (arith, Order.listed-insert v x c.entries (find_entry c.entries x.version))

  -- In a catalog whose entries ascend, a registration that succeeds adds exactly its own version to
  -- those contained, and one that fails adds none.
  pub contains-register :
      (x : VersionArtifact W) (c : VersionCatalog W) (v : ℕ)
      → Ascending c.entries
      → contains (register x c).1 v ≡ (contains c v || (is_ok (register x c).0 && (x.version == v)))
  contains-register x c v s =
      rw (contains-listed (register x c).1 v (register-Ascending x c s), contains-listed c v s)
        (listed-register x c v)

  NextIn-unique :
      (es : List (VersionArtifact W)) (v w u : ℕ) → NextIn es v w → NextIn es v u → w ≡ u
  NextIn-unique es v w u (lw, vw, nw) (lu, vu, nu) = ground (arith, nw u lu, nu w lw)

  next_version-step :
      (c : VersionCatalog W) (v w : ℕ)
      → contains c v ≡ true
      → After c.entries v
      → (next_version c v ≡ ok w) ↔ NextIn c.entries v w
  unfolding next_version
  next_version-step c v w here (next u e n) = (
    λ h. let same : u ≡ w = ground arith in rw (← same) n,
    λ n'. rw (here, e, NextIn-unique c.entries v w u n' n),
  )
  next_version-step c v w here (last e top) =
      (λ h. absurd (ground arith), λ (lw, vw, _). absurd (omega (arith, top w lw)))

  -- In a catalog whose entries ascend, `next_version v` returns `w` exactly when both are registered,
  -- `v` is below `w`, and no registered version lies between them.
  pub next_version_iff :
      (c : VersionCatalog W) (v w : ℕ)
      → Ascending c.entries
      → (next_version c v ≡ ok w) ↔ ((contains c v ≡ true) × NextIn c.entries v w)
  unfolding next_version
  next_version_iff c v w s = elim (Bool-cases (contains c v)) [
    | inl here ↦
        let step =
          next_version-step c v w here
            (After-listed v c.entries s (rw (contains-listed c v s) at here)) in
        (λ h. (here, step.0 h), λ (_, n). step.1 n)
    | inr away ↦ (λ h. absurd (ground arith), λ (here, _). absurd (cc))
  ]

  le-last_version :
      (v : ℕ) (es : List (VersionArtifact W)) → Above v es → Ascending es → v ≤ last_version v es
  le-last_version v [] a s = omega arith
  le-last_version v (e ∷ es) a s = omega (arith, le-last_version e.version es s.0 s.1)

  last_version-IsLast :
      (v : ℕ) (es : List (VersionArtifact W)) → Ascending es → IsLast es (last_version v es)
  last_version-IsLast v [] s u h = cc
  last_version-IsLast v (e ∷ es) s u h =
      ground (arith, last_version-IsLast e.version es s.1 u, le-last_version e.version es s.0 s.1)

  listed-last_version :
      (e : VersionArtifact W) (es : List (VersionArtifact W))
      → listed (last_version e.version es) (e ∷ es) ≡ true
  listed-last_version e [] = ground arith
  listed-last_version e (f ∷ es) = ground (arith, listed-last_version f es)

  latest_of_iff :
      (es : List (VersionArtifact W)) (w : ℕ)
      → Ascending es
      → (latest_of es ≡ ok w) ↔ ((listed w es ≡ true) × IsLast es w)
  latest_of_iff [] w s = (λ h. absurd (cc), λ (h, _). absurd (cc))
  latest_of_iff (e ∷ es) w s =
      let v : ℕ = last_version e.version es in
      let top : IsLast (e ∷ es) v = last_version-IsLast e.version (e ∷ es) s in
      let here : listed v (e ∷ es) ≡ true = listed-last_version e es in
      (
        λ h.
            subst (λ x. (listed x (e ∷ es) ≡ true) × IsLast (e ∷ es) x) (ok-injective h)
              (here, top),
        λ (lw, tw). ap ok (omega (arith, top w lw, tw v here)),
      )

  -- In a catalog whose entries ascend, `latest_version` returns `w` exactly when `w` is registered and
  -- no registered version is above it.
  pub latest_version_iff :
      (c : VersionCatalog W) (w : ℕ)
      → Ascending c.entries
      → (latest_version c ≡ ok w)
        ↔ ((contains c w ≡ true) × ((u : ℕ) → contains c u ≡ true → u ≤ w))
  unfolding latest_version
  latest_version_iff c w s =
      let step = latest_of_iff c.entries w s in
      (
        λ h. (
          rw (contains-listed c w s) (step.0 h).0,
          λ u hu. (step.0 h).1 u (rw (contains-listed c u s) at hu),
        ),
        λ (here, top).
            step.1
              (rw (contains-listed c w s) at here, λ u hu. top u (rw (contains-listed c u s) hu)),
      )
