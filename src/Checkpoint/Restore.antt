-- ===== src/Checkpoint/Restore.antt =====
-- cpPrepareRestore: the checkpoints are loaded and sorted, and the first that synchronizes is taken.
pub mod Laws
pub mod Choice
pub mod Search
use config_manager.Common.{
  ℕ, ltb, ◌==◌, ◌&&◌, Bytes, Bool, true, false, if◌then◌else◌, List, [], ◌∷◌, ◌++◌, Option, none,
  some, Result, ok, err, fault, out_of_fuel, ErrorCode, invalid_version,
}
use config_manager.Catalog.{VersionedConfig}
use config_manager.Runtime.{
  ConfigRuntime, SyncStatus, in_sync, upgrade_required, downgrade_required, supports_version,
  synchronize,
}
use config_manager.Checkpoint.Host.{
  Io, ◌>>=◌, ◌>>◌, pure, fail, Paths, System, CheckpointOptions, Rejection,
}
use config_manager.Checkpoint.Files.{Backend, read_file_bytes, load_bytes, checkpoint_files}
use config_manager.Checkpoint.Sort.{sort, newer}

-- LoadedCandidate
pub record Candidate : Type 0 where
  pub path : Bytes
  pub source_version : ℕ
  pub modified : ℕ
  pub config : VersionedConfig

pub record PreparedRestore : Type 0 where
  pub checkpoint_path : Bytes
  pub source_version : ℕ
  pub config : VersionedConfig

pub record RestoreSearch : Type 0 where
  pub candidate : Option PreparedRestore
  pub rejected : List Rejection

abbrev pub reject : Bytes → ErrorCode → Rejection
reject path e = record { path = path; error = e }

module _ {W A : Type 0} where
  abbrev add_rejected : Rejection → List Rejection × List A → Io W (List Rejection × List A)
  add_rejected r (rejected, loaded) = pure (r ∷ rejected, loaded)

  abbrev add_loaded : A → List Rejection × List A → Io W (List Rejection × List A)
  add_loaded x (rejected, loaded) = pure (rejected, x ∷ loaded)

  abbrev pub collected :
      Bytes → Io W (List Rejection × List A) → Result A × W → Result (List Rejection × List A) × W
  collected path rest (ok x, w) = (rest >>= add_loaded x) w
  collected path rest (err e, w) = (rest >>= add_rejected (reject path e)) w
  collected path rest (fault, w) = (fault, w)
  collected path rest (out_of_fuel, w) = (out_of_fuel, w)

  -- A loop that loads each of the files: those that fail are rejected, with the error.
  unfoldable pub collect : (Bytes → Io W A) → List Bytes → Io W (List Rejection × List A)
  collect load [] w = (ok ([], []), w)
  collect load (path ∷ paths) w = collected path (collect load paths) (load path w)

-- The comparison of the candidates.
unfoldable pub restores_before : Candidate → Candidate → Bool
unfolding newer
restores_before left right =
    if left.source_version == right.source_version
    then newer left.modified left.path right.modified right.path
    else ltb right.source_version left.source_version

abbrev pub is_in_sync : SyncStatus → Bool
is_in_sync in_sync = true
is_in_sync upgrade_required = false
is_in_sync downgrade_required = false

module _ {W H : Type 0} (paths : Paths) (system : System W H) where
  abbrev pub check_version : ℕ → ℕ → Io W (Unit {0})
  check_version version supported = if ltb supported version then fail invalid_version else pure tt

  -- The first loop's body.
  unfoldable pub load_candidate : CheckpointOptions → Backend W → ℕ → Bytes → Io W Candidate
  unfolding read_file_bytes load_bytes
  load_candidate options backend supported path = do
    bytes ← read_file_bytes system path options.max_file_bytes
    loaded ← load_bytes backend bytes
    check_version loaded.version supported
    modified ← system.last_write_time path
    pure (record {
      path = path;
      source_version = loaded.version;
      modified = modified;
      config = loaded;
    })

abbrev pub found : List Rejection → Candidate → VersionedConfig → RestoreSearch
found rejected c config = record {
  candidate =
      some
        (record { checkpoint_path = c.path; source_version = c.source_version; config = config });
  rejected = rejected;
}

module _ {W : Type 0} where
  -- What the second loop does with the outcome of a synchronisation, over the rest of the loop.
  abbrev pub judge :
      (List Rejection → Io W RestoreSearch)
      → List Rejection
      → ℕ
      → Candidate
      → Result SyncStatus
      → VersionedConfig
      → Io W RestoreSearch
  judge continue rejected supported c (ok status) config =
      if is_in_sync status && (config.version == supported)
      then pure (found rejected c config)
      else continue (rejected ++ reject c.path invalid_version ∷ [])
  judge continue rejected supported c (err e) config = continue (rejected ++ reject c.path e ∷ [])
  judge continue rejected supported c fault config = λ w. (fault, w)
  judge continue rejected supported c out_of_fuel config = λ w. (out_of_fuel, w)

  unfoldable pub try_candidates :
      ConfigRuntime W → ℕ → List Candidate → List Rejection → Io W RestoreSearch
  unfolding synchronize
  try_candidates rt supported [] rejected w =
      (ok (record { candidate = none; rejected = rejected }), w)
  try_candidates rt supported (c ∷ cs) rejected w =
      let out = synchronize rt c.config supported w in
      judge (try_candidates rt supported cs) rejected supported c out.result out.config out.world

  abbrev pub try_loaded : ConfigRuntime W → ℕ → List Rejection × List Candidate → Io W RestoreSearch
  try_loaded rt supported (rejected, candidates) =
      try_candidates rt supported (sort restores_before candidates) rejected

module _ {W H : Type 0} (paths : Paths) (system : System W H) where
  unfoldable pub search_checkpoints :
      CheckpointOptions → Backend W → ConfigRuntime W → ℕ → Io W RestoreSearch
  unfolding checkpoint_files load_candidate collect sort restores_before try_candidates
  search_checkpoints options backend rt supported = do
    files ← checkpoint_files paths system options
    loaded ← collect (load_candidate paths system options backend supported) files
    try_loaded rt supported loaded

  unfoldable pub cp_prepare_restore :
      CheckpointOptions → Backend W → ConfigRuntime W → ℕ → Io W RestoreSearch
  unfolding supports_version search_checkpoints
  cp_prepare_restore options backend rt supported =
      if supports_version rt supported
      then search_checkpoints options backend rt supported
      else fail invalid_version
