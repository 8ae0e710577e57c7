-- ===== src/Registry.antt =====
-- src/migration_registry.cpp: the store of migration edges.
pub mod Laws
use config_manager.Common.{
  ℕ, ◌==◌, Bool, true, false, ◌&&◌, not, if◌then◌else◌, Option, none, some, List, [], ◌∷◌, ◌++◌,
  any, Result, ok, err, ErrorCode, ◌>>=◌, ◌>>◌, fault, out_of_fuel, invalid_version,
  migration_failed, missing_migration,
}
use config_manager.Model.{ConfigModel}
use config_manager.Catalog
use config_manager.Catalog.{Called, VersionCatalog}

-- The Result<void> that a migration returns.
pub data Applied : Type 0 where
  applied : Applied
  rejected : ErrorCode → Applied

-- A migration is called with the model and the two versions of its context; it changes the model
-- in place and returns a result, or throws.
abbrev pub MigrationFn : Type 0 → Type 0
MigrationFn W = ConfigModel → ℕ → ℕ → W → Called Applied × ConfigModel × W

pub record MigrationEdge (W : Type 0) : Type 0 where
  pub from : ℕ
  pub to : ℕ
  pub apply : MigrationFn W

pub record MigrationRegistry (W : Type 0) : Type 0 where
  pub edges : List (MigrationEdge W)

abbrev leads_to : ℕ → Result ℕ → Bool
leads_to to (ok next) = next == to
leads_to to _ = false

module _ {W : Type 0} where
  abbrev pub is_edge : ℕ → ℕ → MigrationEdge W → Bool
  is_edge from to e = (e.from == from) && (e.to == to)

  abbrev edge : ℕ → ℕ → MigrationFn W → MigrationEdge W
  edge from to f = record { from = from; to = to; apply = f }

  -- registerMigration; an empty callable is `none`.
  unfoldable pub register :
      ℕ → ℕ → Option (MigrationFn W) → MigrationRegistry W → Result (Unit {0}) × MigrationRegistry W
  register from to none r = (err migration_failed, r)
  register from to (some f) r =
      if any (is_edge from to) r.edges
      then (err invalid_version, r)
      else (ok tt, record { edges = r.edges ++ edge from to f ∷ [] })

  unfoldable pub find_edge : List (MigrationEdge W) → ℕ → ℕ → Result (MigrationEdge W)
  find_edge [] from to = err missing_migration
  find_edge (e ∷ es) from to = if is_edge from to e then ok e else find_edge es from to

  -- findMigration
  unfoldable pub find : MigrationRegistry W → ℕ → ℕ → Result (MigrationEdge W)
  unfolding find_edge
  find r from to = find_edge r.edges from to

  -- Rules 2 and 3 of validate, at one edge.
  unfoldable pub check_edge : VersionCatalog W → MigrationEdge W → Result (Unit {0})
  check_edge c e =
      if Catalog.contains c e.from && Catalog.contains c e.to
      then if leads_to e.to (Catalog.next_version c e.from) then ok tt else err invalid_version
      else err invalid_version

  unfoldable pub check_edges : VersionCatalog W → List (MigrationEdge W) → Result (Unit {0})
  unfolding check_edge
  check_edges c [] = ok tt
  check_edges c (e ∷ es) = check_edge c e >> check_edges c es

  -- Rule 1: the loop over the pairs of neighbours among the versions.
  unfoldable pub check_chain : List (MigrationEdge W) → List ℕ → Result (Unit {0})
  check_chain es [] = ok tt
  check_chain es (v ∷ []) = ok tt
  check_chain es (v ∷ w ∷ vs) =
      if any (is_edge v w) es then check_chain es (w ∷ vs) else err missing_migration

  unfoldable pub validate : MigrationRegistry W → VersionCatalog W → Result (Unit {0})
  unfolding check_edges check_chain
  validate r c = check_edges c r.edges >> check_chain r.edges (Catalog.versions c)
