-- ===== src/Checkpoint/Restore/Search.antt =====
-- cpPrepareRestore as a whole.
use config_manager.Common.{
  ℕ, ltb, leb, ◌≡◌, ◌⊎◌, refl, Bytes, Bool, true, Bool-cases, inl, inr, List, ◌++◌, arith, Result,
  ok,
}
use mathlib.Core.List.{Perm}
use mathlib.Core.List.Perm
use config_manager.Catalog.{VersionedConfig}
use config_manager.Runtime.{ConfigRuntime, supports_version}
use config_manager.Checkpoint.Host.{Io, and_then, Paths, System, CheckpointOptions, Rejection}
use config_manager.Checkpoint.Outcome.{Ends, Never, Ends-bind, Ends-map}
use config_manager.Checkpoint.Verify.{
  LoadsAs, unfit, Stuck, Verifications, Verifies, read-Verifies, load-Verifies, date-Verifies,
  collect-Collects,
}
use config_manager.Checkpoint.Files.{Backend, checkpoint_files}
use config_manager.Checkpoint.Sort.{sort}
use config_manager.Checkpoint.Sort.Laws.{AllPairs, sort-Perm, sort-IsSorted}
use config_manager.Checkpoint.Restore.{
  Candidate, RestoreSearch, restores_before, check_version, collect, load_candidate, try_candidates,
  try_loaded, search_checkpoints, cp_prepare_restore,
}
use config_manager.Checkpoint.Restore.Laws.{
  restores_before-IsStrictOrder, IsPreferred, IsSorted-IsPreferred,
}
use config_manager.Checkpoint.Restore.Choice.{SyncStuck, Search, Searched, try_candidates-Searched}

-- The entry of a file that loads as the configuration, with the time of its last change.
abbrev pub entry_of : Bytes → VersionedConfig → ℕ → Candidate
entry_of path config modified = record {
  path = path;
  source_version = config.version;
  modified = modified;
  config = config;
}

module _ {W H : Type 0} (paths : Paths) (system : System W H) (options : CheckpointOptions)
    (backend : Backend W) (rt : ConfigRuntime W) (supported : ℕ) where
  abbrev pub is_old_enough : ℕ → Bool
  is_old_enough version = leb version supported

  -- What a search over these files finds, from one world to another: the files are verified in their
  -- order, the entries are put in order of preference, and then synchronized.
  pub record Restored (w₁ : W) (files : List Bytes) (answer : RestoreSearch) (w' : W) : Type 0 where
    pub load_rejected : List Rejection
    pub sync_rejected : List Rejection
    pub loaded : List Candidate
    pub ordered : List Candidate
    pub between : W
    pub rejected : answer.rejected ≡ load_rejected ++ sync_rejected
    pub verifications :
        Verifications system options backend is_old_enough entry_of w₁ files load_rejected loaded
          between
    pub same : Perm loaded ordered
    pub order : AllPairs IsPreferred ordered
    pub search : Search rt supported between ordered sync_rejected answer.candidate w'

  -- What may keep a search from an end.
  abbrev pub RestoreStuck : Type 0
  RestoreStuck = Stuck system options backend is_old_enough entry_of ⊎ SyncStuck rt supported

  abbrev VerifiesOne : Bytes → W → Result Candidate × W → Type 0
  VerifiesOne path w out = Verifies system options backend is_old_enough entry_of path w out

  check-Verifies :
      (path : Bytes) (w w₂ : W) (config : VersionedConfig) (next : Unit {0} → Io W Candidate)
      → LoadsAs system options backend is_old_enough entry_of path w config w₂
      → (leb config.version supported ≡ true → VerifiesOne path w (next tt w₂))
      → VerifiesOne path w (and_then (check_version paths system config.version supported w₂) next)
  check-Verifies path w w₂ config next l k = elim (Bool-cases (ltb supported config.version)) [
    | inl newer ↦ rw newer (unfit config l (ground arith) refl)
    | inr older ↦ rw older (k (ground arith))
  ]

  load_candidate-Verifies :
      (path : Bytes) (w : W)
      → VerifiesOne path w (load_candidate paths system options backend supported path w)
  unfolding load_candidate
  load_candidate-Verifies path w =
      read-Verifies system options backend is_old_enough entry_of path w _ _ refl λ bytes w₁ r.
        load-Verifies system options backend is_old_enough entry_of path bytes w w₁ _ _ r refl
          λ config w₂ l. check-Verifies path w w₂ config _ l λ fits.
            date-Verifies system options backend is_old_enough entry_of path config w w₂ _ l fits
              refl

  ordered-Restored :
      (w₁ between : W) (files : List Bytes) (rejected : List Rejection) (loaded : List Candidate)
      → Verifications system options backend is_old_enough entry_of w₁ files rejected loaded between
      → (answer : RestoreSearch) (w' : W)
      → Searched rt supported between (sort restores_before loaded) rejected answer w'
      → Restored w₁ files answer w'
  ordered-Restored w₁ between files rejected loaded v answer w' s = record {
    load_rejected = rejected;
    sync_rejected = s.added;
    loaded = loaded;
    ordered = sort restores_before loaded;
    between = between;
    rejected = s.joined;
    verifications = v;
    same = Perm.symm (sort-Perm restores_before loaded);
    order =
        IsSorted-IsPreferred (sort restores_before loaded)
          (sort-IsSorted restores_before restores_before-IsStrictOrder loaded);
    search = s.search;
  }

  -- Where the supported version is registered and the checkpoints can be listed, the search returns no
  -- error, and it returns unless a call of the system, the backend or the runtime does not. It reads,
  -- loads and dates the files in their order; a file that fails in this, or holds a version above the
  -- supported, is rejected with that error. The others are synchronized as they were loaded, from the
  -- highest version down, of one version from the newest on and of one time by their paths, each in
  -- the world that the one before has left. Those that fail, or do not end in sync at the supported
  -- version, are rejected; the first that does is the answer.
  pub cp_prepare_restore-Restored :
      (w w₁ : W) (files : List Bytes)
      → supports_version rt supported ≡ true
      → checkpoint_files paths system options w ≡ (ok files, w₁)
      → Ends
          (Restored w₁ files)
          Never
          RestoreStuck
          (cp_prepare_restore paths system options backend rt supported w)
  unfolding cp_prepare_restore search_checkpoints
  cp_prepare_restore-Restored w w₁ files known listing =
      rw (known, listing)
        (Ends-bind
          (λ r w₂. Verifications system options backend is_old_enough entry_of w₁ files r.0 r.1 w₂)
          (Restored w₁ files) Never RestoreStuck
          (collect (load_candidate paths system options backend supported) files w₁)
          (try_loaded rt supported)
          (Ends-map (collect (load_candidate paths system options backend supported) files w₁)
            (λ r w₂ v. v) (λ e w₂ never. never) inl
            (collect-Collects system options backend is_old_enough entry_of
              (load_candidate paths system options backend supported) load_candidate-Verifies files
              w₁))
          λ r w₂ v.
            Ends-map (try_candidates rt supported (sort restores_before r.1) r.0 w₂)
              (ordered-Restored w₁ w₂ files r.0 r.1 v) (λ e w₃ never. never) inr
              (try_candidates-Searched rt supported (sort restores_before r.1) r.0 w₂))
