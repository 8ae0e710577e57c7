-- ===== src/Checkpoint/Atomic/Capture.antt =====
-- cpCapture as a whole.
use config_manager.Common.{
  [], ℕ, ◌==◌, ◌≡◌, refl, sym, ◌∙◌, Bytes, Bool-cases, inl, inr, Option, some, Result, ok, err,
  fault, out_of_fuel, ==_iff,
}
use config_manager.Catalog.{VersionedConfig}
use config_manager.Checkpoint.{
  write_replacing, permission_source, same_version, destination_of, cp_capture,
}
use config_manager.Checkpoint.Host.{Io, and_then, Paths, System, CheckpointOptions}
use config_manager.Checkpoint.Storage.{Same, IsFileSystem, IsPaths}
use config_manager.Checkpoint.Files.{Backend, read_file_bytes, load_bytes}
use config_manager.Checkpoint.Atomic.Replace.{
  Kept, Replaced, Replaced-later, write_replacing-Replaced,
}
use config_manager.Checkpoint.Atomic.Read.{Read, read_file_bytes-Read}

module _ {W H : Type 0} (paths : Paths) (system : System W H) (content : Bytes → W → Option Bytes)
    (file_of : H → Bytes) (lawful : IsPaths paths) (is : IsFileSystem system content file_of)
    (options : CheckpointOptions) (backend : Backend W) (config : VersionedConfig) where
  abbrev checkpoint_path : Bytes
  checkpoint_path = destination_of paths system options config.version

  -- The bytes of the canonical file, which the backend loads as that version, are in the checkpoint;
  -- or nothing that was there has changed.
  abbrev pub Captured : W → Result (Unit {0}) × W → Type 0
  Captured w (ok _, w') =
      (bytes : Bytes) × (content options.canonical_path w ≡ some bytes)
      × Replaced content checkpoint_path bytes w (ok tt, w')
      × ((w₁ : W) × (loaded : VersionedConfig) × ((load_bytes backend bytes w₁).0 ≡ ok loaded)
          × (loaded.version ≡ config.version))
  Captured w (err e, w') = Kept content checkpoint_path w w'
  Captured w (fault, w') = Kept content checkpoint_path w w'
  Captured w (out_of_fuel, w') = Kept content checkpoint_path w w'

  Captured-later :
      (w w₁ : W) (out : Result (Unit {0}) × W)
      → Same content w w₁
      → Captured w₁ out
      → Captured w out
  Captured-later w w₁ (ok _, w') same (bytes, whole, replaced, loads) = (
    bytes,
    sym (same options.canonical_path) ∙ whole,
    Replaced-later content checkpoint_path bytes w w₁ (ok tt, w') same replaced,
    loads,
  )
  Captured-later w w₁ (err e, w') same k =
      Replaced-later content checkpoint_path [] w w₁ (err e, w') same k
  Captured-later w w₁ (fault, w') same k =
      Replaced-later content checkpoint_path [] w w₁ (fault, w') same k
  Captured-later w w₁ (out_of_fuel, w') same k =
      Replaced-later content checkpoint_path [] w w₁ (out_of_fuel, w') same k

  -- A step that changes no contents.
  step-Captured :
      {A : Type 0} (w : W) (out : Result A × W) (next : A → Io W (Unit {0}))
      → Same content w out.1
      → ((x : A) → out.0 ≡ ok x → Captured out.1 (next x out.1))
      → Captured w (and_then out next)
  step-Captured w (ok x, w₁) next same rest = Captured-later w w₁ (next x w₁) same (rest x refl)
  step-Captured w (err e, w₁) next same rest = λ q there. same q
  step-Captured w (fault, w₁) next same rest = λ q there. same q
  step-Captured w (out_of_fuel, w₁) next same rest = λ q there. same q

  written-Captured :
      (bytes : Bytes) (loaded : VersionedConfig) (w w₁ : W) (out : Result (Unit {0}) × W)
      → content options.canonical_path w ≡ some bytes
      → (load_bytes backend bytes w₁).0 ≡ ok loaded
      → loaded.version ≡ config.version
      → Replaced content checkpoint_path bytes w out
      → Captured w out
  written-Captured bytes loaded w w₁ (ok _, w') whole loads same r =
      (bytes, whole, r, (w₁, loaded, loads, same))
  written-Captured bytes loaded w w₁ (err e, w') whole loads same k = k
  written-Captured bytes loaded w w₁ (fault, w') whole loads same k = k
  written-Captured bytes loaded w w₁ (out_of_fuel, w') whole loads same k = k

  -- The steps after the load.
  loaded-Captured :
      (fuel : ℕ) (bytes : Bytes) (loaded : VersionedConfig) (w w₁ : W)
      → content options.canonical_path w ≡ some bytes
      → (load_bytes backend bytes w₁).0 ≡ ok loaded
      → Captured w (
          and_then (same_version paths system loaded config w) λ _ w₂.
            and_then (system.create_directories options.checkpoint_directory w₂) λ _ w₃.
              and_then (system.exists checkpoint_path w₃) λ exists.
                write_replacing paths system fuel checkpoint_path bytes
                  (permission_source paths system options checkpoint_path exists))
  loaded-Captured fuel bytes loaded w w₁ whole loads =
      elim (Bool-cases (loaded.version == config.version)) [
        | inl e ↦ rw e (
            step-Captured w (system.create_directories options.checkpoint_directory w) _
              (is.create_directories options.checkpoint_directory w)
              λ _ made.
                let w₂ = (system.create_directories options.checkpoint_directory w).1 in
                step-Captured w₂ (system.exists checkpoint_path w₂) _ (is.exists checkpoint_path w₂)
                  λ exists known.
                    let w₃ = (system.exists checkpoint_path w₂).1 in
                    written-Captured bytes loaded w₃ w₁ _
                      (is.exists checkpoint_path w₂ options.canonical_path
                        ∙ is.create_directories options.checkpoint_directory w
                            options.canonical_path
                        ∙ whole)
                      loads ((==_iff loaded.version config.version).0 e)
                      (write_replacing-Replaced paths system content file_of lawful is
                        checkpoint_path fuel bytes
                        (permission_source paths system options checkpoint_path exists) w₃))
        | inr other ↦ rw other (λ q there. refl)
      ]

  Read-Captured :
      (fuel : ℕ) (w : W) (out : Result Bytes × W)
      → Read system content file_of is options.canonical_path w out
      → ((bytes : Bytes) (w₁ : W) → Same content w₁ (load_bytes backend bytes w₁).1)
      → Captured w (
          and_then out λ bytes w₁. and_then (load_bytes backend bytes w₁) λ loaded w₂.
            and_then (same_version paths system loaded config w₂) λ _ w₃.
              and_then (system.create_directories options.checkpoint_directory w₃) λ _ w₄.
                and_then (system.exists checkpoint_path w₄) λ exists.
                  write_replacing paths system fuel checkpoint_path bytes
                    (permission_source paths system options checkpoint_path exists))
  Read-Captured fuel w (ok bytes, w₁) (whole, same) quiet = Captured-later w w₁ _ same (
      step-Captured w₁ (load_bytes backend bytes w₁) _ (quiet bytes w₁) λ loaded loads.
        loaded-Captured fuel bytes loaded (load_bytes backend bytes w₁).1 w₁
          (quiet bytes w₁ options.canonical_path ∙ same options.canonical_path ∙ whole) loads)
  Read-Captured fuel w (err e, w₁) same quiet = λ q there. same q
  Read-Captured fuel w (fault, w₁) same quiet = λ q there. same q
  Read-Captured fuel w (out_of_fuel, w₁) same quiet = λ q there. same q

  -- `cpCapture`, over a file system as documented and a backend whose `load` changes no file: where it
  -- succeeds, the checkpoint of the configuration's version holds exactly the bytes of the canonical
  -- file, which the backend loads as that version, and every other file that was there is unchanged;
  -- where it fails, so is the checkpoint.
  pub cp_capture-Captured :
      ((bytes : Bytes) (w : W) → Same content w (load_bytes backend bytes w).1)
      → (fuel : ℕ) (w : W) → Captured w (cp_capture paths system fuel options backend config w)
  unfolding cp_capture
  cp_capture-Captured quiet fuel w =
      Read-Captured fuel w (read_file_bytes system options.canonical_path options.max_file_bytes w)
        (read_file_bytes-Read system content file_of is options.canonical_path
          options.max_file_bytes w)
        quiet
