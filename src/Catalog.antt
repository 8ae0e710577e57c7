-- ===== src/Catalog.antt =====
-- src/version_catalog.cpp, include/configmanager/version.hpp and versioned_config.hpp. The
-- callbacks' own state, and all else that they reach, is a value of the parameter `W`, passed on
-- by each call. A version is a 32-bit number.
pub mod Order
pub mod Laws
use config_manager.Common.{
  ℕ, suc, zero, ◌+◌, ltb, ◌==◌, Bool, true, false, if◌then◌else◌, Option, none, some, List, [], ◌∷◌,
  map, get_elem?, Result, ok, err, invalid_version, migration_failed,
}
use config_manager.Value.{ConfigValue}
use config_manager.Model.{ConfigModel, from_value}

-- How a callback ends: it returns, or throws a std::exception, or something else. Running out of
-- memory, which the source lets through, is not modelled.
pub data Called (A : Type 0) : Type 0 where
  returned : A → Called A
  threw_exception : Called A
  threw_other : Called A

abbrev pub DefaultFactory : Type 0 → Type 0
DefaultFactory W = W → Called ConfigValue × W

-- An empty std::function is `none`.
pub record VersionArtifact (W : Type 0) : Type 0 where
  pub version : ℕ
  pub default_factory : Option (DefaultFactory W)

pub record VersionedConfig : Type 0 where
  pub version : ℕ
  pub model : ConfigModel

pub record VersionCatalog (W : Type 0) : Type 0 where
  pub entries : List (VersionArtifact W)

abbrev is_callable : {F : Type 0} → Option F → Bool
is_callable none = false
is_callable (some _) = true

module _ {W : Type 0} where
  -- findEntry: std::lower_bound, the position of the first entry that is not below `v`.
  unfoldable pub find_entry : List (VersionArtifact W) → ℕ → ℕ
  find_entry [] v = 0
  find_entry (e ∷ es) v = if ltb e.version v then suc (find_entry es v) else 0

  unfoldable pub insert_at :
      ℕ → VersionArtifact W → List (VersionArtifact W) → List (VersionArtifact W)
  insert_at zero x es = x ∷ es
  insert_at (suc i) x [] = x ∷ []
  insert_at (suc i) x (e ∷ es) = e ∷ insert_at i x es

  abbrev pub has_version : ℕ → Option (VersionArtifact W) → Bool
  has_version v none = false
  has_version v (some e) = e.version == v

  -- `pos != entries_.end() && pos->version == v`
  unfoldable pub contains : VersionCatalog W → ℕ → Bool
  unfolding find_entry
  contains c v = has_version v (get_elem? c.entries (find_entry c.entries v))

  -- registerVersion
  unfoldable pub register :
      VersionArtifact W → VersionCatalog W → Result (Unit {0}) × VersionCatalog W
  unfolding find_entry insert_at contains
  register x c =
      if is_callable x.default_factory
      then if contains c x.version
        then (err invalid_version, c)
        else (ok tt, record { entries = insert_at (find_entry c.entries x.version) x c.entries })
      else (err migration_failed, c)

  abbrev pub last_version : ℕ → List (VersionArtifact W) → ℕ
  last_version v [] = v
  last_version v (e ∷ es) = last_version e.version es

  abbrev pub latest_of : List (VersionArtifact W) → Result ℕ
  latest_of [] = err invalid_version
  latest_of (e ∷ es) = ok (last_version e.version es)

  unfoldable pub latest_version : VersionCatalog W → Result ℕ
  latest_version c = latest_of c.entries

  abbrev pub version_at : Option (VersionArtifact W) → Result ℕ
  version_at none = err invalid_version
  version_at (some e) = ok e.version

  unfoldable pub next_version : VersionCatalog W → ℕ → Result ℕ
  unfolding find_entry contains
  next_version c v =
      if contains c v
      then version_at (get_elem? c.entries (suc (find_entry c.entries v)))
      else err invalid_version

  abbrev adopt : Called ConfigValue × W → Result ConfigModel × W
  adopt (returned v, w) = (from_value v, w)
  adopt (threw_exception, w) = (err migration_failed, w)
  adopt (threw_other, w) = (err migration_failed, w)

  -- An empty factory cannot be registered; calling one throws std::bad_function_call.
  abbrev call_factory : Option (DefaultFactory W) → W → Called ConfigValue × W
  call_factory none w = (threw_exception, w)
  call_factory (some f) w = f w

  abbrev default_at : Option (VersionArtifact W) → W → Result ConfigModel × W
  default_at none w = (err invalid_version, w)
  default_at (some e) w = adopt (call_factory e.default_factory w)

  unfoldable pub create_default : VersionCatalog W → ℕ → W → Result ConfigModel × W
  unfolding find_entry contains
  create_default c v w =
      if contains c v
      then default_at (get_elem? c.entries (find_entry c.entries v)) w
      else (err invalid_version, w)

  unfoldable pub versions : VersionCatalog W → List ℕ
  versions c = map (λ e. e.version) c.entries
