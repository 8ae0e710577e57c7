-- ===== src/Registry/Laws.antt =====
-- What MigrationRegistry::validate checks, and what a validated registry offers to the engine.
use config_manager.Common.{
  ℕ, ◌<◌, ◌≡◌, ◌↔◌, inl, inr, refl, Bool, true, ◌==◌, Bool-cases, List, [], ◌∷◌, any, map, arith,
  ok, bind_ok,
}
use config_manager.Catalog
use config_manager.Catalog.{VersionArtifact, VersionCatalog, versions}
use config_manager.Catalog.Order.{Ascending, listed, NextIn, Above-listed}
use config_manager.Catalog.Laws.{next_version_iff, contains-listed}
use config_manager.Registry.{
  MigrationEdge, MigrationRegistry, is_edge, find_edge, find, check_edge, check_edges, check_chain,
  validate,
}

module _ {W : Type 0} where
  abbrev pub has_edge : List (MigrationEdge W) → ℕ → ℕ → Bool
  has_edge es from to = any (is_edge from to) es

  find_edge-has :
      (es : List (MigrationEdge W)) (from to : ℕ)
      → has_edge es from to ≡ true
      → (e : MigrationEdge W) × (find_edge es from to ≡ ok e) × (e.from ≡ from) × (e.to ≡ to)
  unfolding find_edge
  find_edge-has [] from to h = absurd (cc)
  find_edge-has (e ∷ es) from to h = elim (Bool-cases (is_edge from to e)) [
    | inl found ↦ (e, rw found refl, ground arith, ground arith)
    | inr other ↦ rw other (find_edge-has es from to (ground arith))
  ]

  -- All edges join catalog neighbours.
  abbrev pub AllAdjacent : VersionCatalog W → List (MigrationEdge W) → Type 0
  AllAdjacent c [] = Unit {0}
  AllAdjacent c (e ∷ es) = (Catalog.next_version c e.from ≡ ok e.to) × AllAdjacent c es

  -- Each of the versions but the last has an edge to the one behind it.
  abbrev pub HasChain : List (MigrationEdge W) → List ℕ → Type 0
  HasChain es [] = Unit {0}
  HasChain es (v ∷ []) = Unit {0}
  HasChain es (v ∷ w ∷ vs) = (has_edge es v w ≡ true) × HasChain es (w ∷ vs)

  check_edge_iff :
      (c : VersionCatalog W) (e : MigrationEdge W)
      → Ascending c.entries
      → (check_edge c e ≡ ok tt) ↔ (Catalog.next_version c e.from ≡ ok e.to)
  unfolding check_edge
  check_edge_iff c e s =
      let step = next_version_iff c e.from e.to s in
      (
        λ h. ground arith,
        λ h.
            let (from_here, (to_here, _, _)) = step.0 h in ground (arith, contains-listed c e.to s),
      )

  check_chain_iff :
      (es : List (MigrationEdge W)) (vs : List ℕ) → (check_chain es vs ≡ ok tt) ↔ HasChain es vs
  unfolding check_chain
  check_chain_iff es [] = (λ _. tt, λ _. refl)
  check_chain_iff es (v ∷ []) = (λ _. tt, λ _. refl)
  check_chain_iff es (v ∷ w ∷ vs) = (
    λ h. ground (arith, (check_chain_iff es (w ∷ vs)).0),
    λ h. ground (arith, (check_chain_iff es (w ∷ vs)).1),
  )

  check_edges_iff :
      (c : VersionCatalog W) (es : List (MigrationEdge W))
      → Ascending c.entries
      → (check_edges c es ≡ ok tt) ↔ AllAdjacent c es
  unfolding check_edges
  check_edges_iff c [] s = (λ _. tt, λ _. refl)
  check_edges_iff c (e ∷ es) s = (
    λ h.
        bind_ok (check_edge c e) (λ _. check_edges c es) h
          λ _ one rest. ((check_edge_iff c e s).0 one, (check_edges_iff c es s).0 rest),
    λ (one, rest). rw ((check_edge_iff c e s).1 one) ((check_edges_iff c es s).1 rest),
  )

  -- For a catalog whose entries ascend, `validate` succeeds exactly when every edge leads from a
  -- registered version to the next one, and every registered version but the latest has an edge to
  -- the version behind it.
  pub validate_iff :
      (r : MigrationRegistry W) (c : VersionCatalog W)
      → Ascending c.entries
      → (validate r c ≡ ok tt) ↔ (AllAdjacent c r.edges × HasChain r.edges (versions c))
  unfolding validate
  validate_iff r c s = (
    λ h.
        bind_ok (check_edges c r.edges) (λ _. check_chain r.edges (versions c)) h
          λ _ edges chain.
            ((check_edges_iff c r.edges s).0 edges, (check_chain_iff r.edges (versions c)).0 chain),
    λ (edges, chain).
        rw ((check_edges_iff c r.edges s).1 edges) ((check_chain_iff r.edges (versions c)).1 chain),
  )

  HasChain-next :
      (edges : List (MigrationEdge W)) (es : List (VersionArtifact W)) (v w : ℕ)
      → Ascending es
      → HasChain edges (map (λ e. e.version) es)
      → listed v es ≡ true
      → NextIn es v w
      → has_edge edges v w ≡ true
  HasChain-next edges [] v w s chain here n = absurd (cc)
  HasChain-next edges (e ∷ []) v w s chain here (lw, vw, between) = absurd (ground arith)
  HasChain-next edges (e ∷ f ∷ es) v w s chain here (lw, vw, between) =
      elim (Bool-cases (e.version == v)) [
        | inl same ↦
            let eq_v : e.version ≡ v = ground arith in
            let eq_w : f.version ≡ w =
              ground (arith, between f.version (ground arith), Above-listed f.version w es) in
            rw (← eq_v, ← eq_w) chain.0
        | inr other ↦
            let rest : listed v (f ∷ es) ≡ true = ground arith in
            let below : e.version < v = Above-listed e.version v (f ∷ es) s.0 rest in
            HasChain-next edges (f ∷ es) v w s.1 chain.1 rest
              (ground arith, vw, λ u lu. between u (ground arith))
      ]

  -- In a registry that is valid for a catalog whose entries ascend, `find` finds an edge from each
  -- version to the next.
  pub find-validated :
      (r : MigrationRegistry W) (c : VersionCatalog W) (v w : ℕ)
      → Ascending c.entries
      → validate r c ≡ ok tt
      → Catalog.next_version c v ≡ ok w
      → (e : MigrationEdge W) × (find r v w ≡ ok e) × (e.from ≡ v) × (e.to ≡ w)
  unfolding find versions
  find-validated r c v w s valid next =
      let (here, n) = (next_version_iff c v w s).0 next in
      find_edge-has r.edges v w (
        HasChain-next r.edges c.entries v w s ((validate_iff r c s).0 valid).1
          (rw (contains-listed c v s) at here) n)
