-- ===== src/Checkpoint/Prune/Report.antt =====
-- cpPrune as a whole: what its report says of the files.
use config_manager.Common.{
  ℕ, ◌≡◌, ◌⊎◌, inl, inr, refl, ap, Bytes, Bool, true, List, [], ◌∷◌, ◌++◌, map, Result, ok, err,
  fault, out_of_fuel, ErrorCode,
}
use config_manager.Catalog.{VersionedConfig}
use config_manager.Checkpoint.Host.{and_then, Paths, System, CheckpointOptions, Rejection}
use config_manager.Checkpoint.Outcome.{Ends, Stops, Ends-bind, Ends-map}
use config_manager.Checkpoint.Verify.{
  Stuck, Verifications, Verifies, read-Verifies, load-Verifies, date-Verifies, collect-Collects,
}
use config_manager.Checkpoint.Files.{Backend, checkpoint_files}
use config_manager.Checkpoint.Restore.{collect}
use config_manager.Checkpoint.Prune.{
  CheckpointFile, PruneReport, group_files, removals, load_file, remove_all, prune_loaded, cp_prune,
}
use config_manager.Checkpoint.Prune.Groups.{Checkpoint}
use config_manager.Checkpoint.Prune.Laws.{Retained, removals-Retained}

-- The entry of a file that loads as the configuration, with the time of its last change.
abbrev pub entry_of : Bytes → VersionedConfig → ℕ → Checkpoint
entry_of path config modified = (config.version, record { path = path; modified = modified })

abbrev pub any_version : ℕ → Bool
any_version version = true

abbrev pub paths_of : List CheckpointFile → List Bytes
paths_of files = map (λ f. f.path) files

module _ {W H : Type 0} (system : System W H) where
  -- These paths are removed, one after the other.
  pub data Removes : W → List Bytes → W → Type 0 where
    no_more : {w : W} → Removes w [] w
    removed :
        {w w₁ w₂ : W} {path : Bytes} {rest : List Bytes}
        → system.remove path w ≡ (ok tt, w₁)
        → Removes w₁ rest w₂
        → Removes w (path ∷ rest) w₂

  -- The removals end at the first that fails.
  pub record RemovalFailed (w : W) (all : List Bytes) (e : ErrorCode) (w' : W) : Type 0 where
    pub gone : List Bytes
    pub path : Bytes
    pub rest : List Bytes
    pub between : W
    pub split : all ≡ gone ++ path ∷ rest
    pub removes : Removes w gone between
    pub fails : system.remove path between ≡ (err e, w')

  pub data RemovalStuck : Type 0 where
    at_removal : (path : Bytes) (w : W) → Stops (system.remove path w) → RemovalStuck

  -- What removing the files leaves.
  pub record AllRemoved (w : W) (files : List CheckpointFile) (removed : List Bytes) (w' : W)
      : Type 0 where
    pub reported : removed ≡ paths_of files
    pub removes : Removes w (paths_of files) w'

  module _ (paths : Paths) where
    abbrev RemovesAll : W → List CheckpointFile → Result (List Bytes) × W → Type 0
    RemovesAll w fs out = Ends (AllRemoved w fs) (RemovalFailed w (paths_of fs)) RemovalStuck out

    later-RemovesAll :
        (f : CheckpointFile) (fs : List CheckpointFile) (w w₁ : W) (out : Result (List Bytes) × W)
        → system.remove f.path w ≡ (ok tt, w₁)
        → RemovesAll w₁ fs out
        → RemovesAll w (f ∷ fs) (and_then out λ gone w₂. (ok (f.path ∷ gone), w₂))
    later-RemovesAll f fs w w₁ (ok gone, w₂) e h = record {
      reported = ap (◌∷◌ f.path) h.reported;
      removes = removed e h.removes;
    }
    later-RemovesAll f fs w w₁ (err x, w₂) e h = record {
      gone = f.path ∷ h.gone;
      path = h.path;
      rest = h.rest;
      between = h.between;
      split = ap (◌∷◌ f.path) h.split;
      removes = removed e h.removes;
      fails = h.fails;
    }
    later-RemovesAll f fs w w₁ (fault, w₂) e h = h
    later-RemovesAll f fs w w₁ (out_of_fuel, w₂) e h = h

    first-RemovesAll :
        (f : CheckpointFile) (fs : List CheckpointFile) (w : W) (out : Result (Unit {0}) × W)
        → system.remove f.path w ≡ out
        → ((w₁ : W) → RemovesAll w₁ fs (remove_all paths system fs w₁))
        → RemovesAll w (f ∷ fs) (
            and_then out
              λ _ w₁. and_then (remove_all paths system fs w₁) λ gone w₂. (ok (f.path ∷ gone), w₂))
    first-RemovesAll f fs w (ok _, w₁) e rest =
        later-RemovesAll f fs w w₁ (remove_all paths system fs w₁) e (rest w₁)
    first-RemovesAll f fs w (err x, w₁) e rest = record {
      gone = [];
      path = f.path;
      rest = paths_of fs;
      between = w;
      split = refl;
      removes = no_more;
      fails = e;
    }
    first-RemovesAll f fs w (fault, w₁) e rest = at_removal f.path w (rw e tt)
    first-RemovesAll f fs w (out_of_fuel, w₁) e rest = at_removal f.path w (rw e tt)

    remove_all-RemovesAll :
        (fs : List CheckpointFile) (w : W) → RemovesAll w fs (remove_all paths system fs w)
    unfolding remove_all
    remove_all-RemovesAll [] w = record { reported = refl; removes = no_more }
    remove_all-RemovesAll (f ∷ fs) w =
        first-RemovesAll f fs w (system.remove f.path w) refl (remove_all-RemovesAll fs)

module _ {W H : Type 0} (paths : Paths) (system : System W H) (options : CheckpointOptions)
    (backend : Backend W) where
  -- How the files come to be removed: they are verified in their order, and what is removed of the
  -- verified ones leaves what is to be retained.
  pub record Sifted (w₁ : W) (files : List Bytes) (rejected : List Rejection)
      (removed : List CheckpointFile) (w₂ : W) : Type 0 where
    pub verified : List Checkpoint
    pub verifications :
        Verifications system options backend any_version entry_of w₁ files rejected verified w₂
    pub retained : Retained options.retention verified removed

  pub record Pruned (w₁ : W) (files : List Bytes) (report : PruneReport) (w' : W) : Type 0 where
    pub removed : List CheckpointFile
    pub between : W
    pub sifted : Sifted w₁ files report.rejected removed between
    pub reported : report.removed ≡ paths_of removed
    pub removes : Removes system between (paths_of removed) w'

  pub record PruneFailed (w₁ : W) (files : List Bytes) (e : ErrorCode) (w' : W) : Type 0 where
    pub rejected : List Rejection
    pub removed : List CheckpointFile
    pub between : W
    pub sifted : Sifted w₁ files rejected removed between
    pub failed : RemovalFailed system between (paths_of removed) e w'

  -- What may keep a pruning from an end.
  abbrev pub PruneStuck : Type 0
  PruneStuck = Stuck system options backend any_version entry_of ⊎ RemovalStuck system

  load_file-Verifies :
      (path : Bytes) (w : W)
      → Verifies system options backend any_version entry_of path w
          (load_file paths system options backend path w)
  unfolding load_file
  load_file-Verifies path w =
      read-Verifies system options backend any_version entry_of path w _ _ refl λ bytes w₁ r.
        load-Verifies system options backend any_version entry_of path bytes w w₁ _ _ r refl
          λ config w₂ l.
            date-Verifies system options backend any_version entry_of path config w w₂ _ l refl refl

  prune_loaded-Pruned :
      (w₁ w₂ : W) (files : List Bytes) (loaded : List Rejection × List Checkpoint)
      → Verifications system options backend any_version entry_of w₁ files loaded.0 loaded.1 w₂
      → Ends
          (Pruned w₁ files)
          (PruneFailed w₁ files)
          PruneStuck
          (prune_loaded paths system options loaded w₂)
  prune_loaded-Pruned w₁ w₂ files (rejected, verified) v =
      let fs = removals options.retention (group_files verified []) in
      let sifted : Sifted w₁ files rejected fs w₂ = record {
        verified = verified;
        verifications = v;
        retained = removals-Retained options.retention verified;
      } in
      Ends-bind (AllRemoved system w₂ fs) (Pruned w₁ files) (PruneFailed w₁ files) PruneStuck
        (remove_all paths system fs w₂) _
        (Ends-map (remove_all paths system fs w₂) (λ gone w₃ h. h)
          (λ e w₃ h. record {
            rejected = rejected;
            removed = fs;
            between = w₂;
            sifted = sifted;
            failed = h;
          })
          inr (remove_all-RemovesAll system paths fs w₂))
        λ gone w₃ h. record {
          removed = fs;
          between = w₂;
          sifted = sifted;
          reported = h.reported;
          removes = h.removes;
        }

  -- Where the checkpoints can be listed, `cpPrune` returns unless a call of the system or the backend
  -- does not. It reads, loads and dates the files in their order; a file that fails in this is
  -- rejected with that error. Of the others, with the versions and times that they have, at most
  -- `retention` are retained, of different versions, and no other of the same version is newer. A
  -- file is removed only where a retained one of its version is not older, or where `retention` are
  -- retained and none of them is older. These files are removed one after the other and reported;
  -- the first removal that fails ends it with that error.
  pub cp_prune-Pruned :
      (w w₁ : W) (files : List Bytes)
      → checkpoint_files paths system options w ≡ (ok files, w₁)
      → Ends
          (Pruned w₁ files)
          (PruneFailed w₁ files)
          PruneStuck
          (cp_prune paths system options backend w)
  unfolding cp_prune
  cp_prune-Pruned w w₁ files listing = rw listing (
      Ends-bind
        (λ r w₂. Verifications system options backend any_version entry_of w₁ files r.0 r.1 w₂)
        (Pruned w₁ files) (PruneFailed w₁ files) PruneStuck
        (collect (load_file paths system options backend) files w₁)
        (prune_loaded paths system options)
        (Ends-map (collect (load_file paths system options backend) files w₁) (λ r w₂ v. v)
          (λ e w₂ never. absurd never) inl
          (collect-Collects system options backend any_version entry_of
            (load_file paths system options backend) load_file-Verifies files w₁))
        λ r w₂ v. prune_loaded-Pruned w₁ w₂ files r v)
