-- ===== src/Checkpoint/Atomic/Commit.antt =====
-- cpCommit and cpCapture replace their file as a whole or leave it.
use config_manager.Common.{ℕ, ◌≡◌, refl, Bytes, Option, Result, ok, err, fault, out_of_fuel}
use config_manager.Catalog.{VersionedConfig}
use config_manager.Checkpoint.{write_replacing, cp_commit}
use config_manager.Checkpoint.Host.{
  Io, and_then, Paths, System, CheckpointOptions, parent_or_current,
}
use config_manager.Checkpoint.Storage.{Same, IsFileSystem, IsPaths}
use config_manager.Checkpoint.Files.{Backend, save_bytes}
use config_manager.Checkpoint.Atomic.Replace.{Replaced, Replaced-later, write_replacing-Replaced}

module _ {W H : Type 0} (paths : Paths) (system : System W H) (content : Bytes → W → Option Bytes)
    (file_of : H → Bytes) (lawful : IsPaths paths) (is : IsFileSystem system content file_of) where
  -- A step that changes no contents, before the outcome.
  made-Replaced :
      (destination bytes : Bytes) (w : W) (out : Result (Unit {0}) × W)
      (next : Unit {0} → Io W (Unit {0}))
      → Same content w out.1
      → ((w₁ : W) → Replaced content destination bytes w₁ (next tt w₁))
      → Replaced content destination bytes w (and_then out next)
  made-Replaced destination bytes w (ok _, w₁) next same rest =
      Replaced-later content destination bytes w w₁ (next tt w₁) same (rest w₁)
  made-Replaced destination bytes w (err e, w₁) next same rest = λ q there. same q
  made-Replaced destination bytes w (fault, w₁) next same rest = λ q there. same q
  made-Replaced destination bytes w (out_of_fuel, w₁) next same rest = λ q there. same q

  module _ (options : CheckpointOptions) (backend : Backend W) (config : VersionedConfig) where
    -- What a commit leaves, by what the backend has saved.
    abbrev pub Committed : W → Result Bytes × W → Result (Unit {0}) × W → Type 0
    Committed w (ok bytes, w₁) out = Replaced content options.canonical_path bytes w out
    Committed w (err e, w₁) out = out ≡ (err e, w₁)
    Committed w (fault, w₁) out = out ≡ (fault, w₁)
    Committed w (out_of_fuel, w₁) out = out ≡ (out_of_fuel, w₁)

    saved-Committed :
        (fuel : ℕ) (w : W) (saved : Result Bytes × W)
        → Same content w saved.1
        → Committed w saved (
            and_then saved λ bytes w₁.
              and_then
                (system.create_directories (parent_or_current paths options.canonical_path) w₁)
                (λ _.
                  write_replacing paths system fuel options.canonical_path bytes
                    options.canonical_path))
    saved-Committed fuel w (ok bytes, w₁) same =
        Replaced-later content options.canonical_path bytes w w₁ _ same (
          made-Replaced options.canonical_path bytes w₁
            (system.create_directories (parent_or_current paths options.canonical_path) w₁)
            (λ _.
              write_replacing paths system fuel options.canonical_path bytes options.canonical_path)
            (is.create_directories (parent_or_current paths options.canonical_path) w₁)
            λ w₂.
              write_replacing-Replaced paths system content file_of lawful is options.canonical_path
                fuel bytes options.canonical_path w₂)
    saved-Committed fuel w (err e, w₁) same = refl
    saved-Committed fuel w (fault, w₁) same = refl
    saved-Committed fuel w (out_of_fuel, w₁) same = refl

    -- `cpCommit`, over a file system as documented and a backend whose `save` changes no file: where
    -- the backend saves bytes and the commit succeeds, the canonical file holds exactly these bytes
    -- and every other file that was there is unchanged; where it fails, so is the canonical file, and
    -- an error of the backend is returned.
    pub cp_commit-Committed :
        (fuel : ℕ) (w : W)
        → Same content w (save_bytes backend config w).1
        → Committed w
            (save_bytes backend config w)
            (cp_commit paths system fuel options backend config w)
    unfolding cp_commit
    cp_commit-Committed fuel w same = saved-Committed fuel w (save_bytes backend config w) same
