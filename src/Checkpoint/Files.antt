-- ===== src/Checkpoint/Files.antt =====
-- Reading, writing and listing files, from readFileBytes to saveBytes, in the POSIX form.
use config_manager.Common.{
  ℕ, zero, suc, ◌%◌, ◌^◌, Bytes, Bool, true, false, if◌then◌else◌, List, [], ◌∷◌, ◌++◌, Result, ok,
  err, fault, out_of_fuel, storage_error, parse_error, serialization_error,
}
use config_manager.Catalog.{VersionedConfig, Called}
use config_manager.Checkpoint.Host.{
  Io, ◌>>=◌, ◌>>◌, pure, fail, guarded, Paths, Stat, mode_of, absent, stat_failed, Opened, opened,
  already_exists, open_failed, Written, wrote, interrupted, write_failed, System, CheckpointOptions,
  parent_or_current,
}
use config_manager.Checkpoint.Names.{to_string}
use config_manager.Checkpoint.Chunks.{append_chunks, until_end, listed}

-- IConfigInterface: what it loads and saves, and whether the stream it saved to is still good.
pub record Backend (W : Type 0) : Type 0 where
  pub load : Bytes → W → Called (Result VersionedConfig) × W
  pub save : VersionedConfig → W → Called (Result (Bytes × Bool)) × W

abbrev pub drop : ℕ → Bytes → Bytes
drop zero bytes = bytes
drop (suc n) [] = []
drop (suc n) (c ∷ bytes) = drop n bytes

module _ {W : Type 0} where
  -- What follows a call of ::write, over the rest of the loop.
  abbrev pub after_write : (Bytes → Io W (Unit {0})) → Bytes → Written × W → Result (Unit {0}) × W
  after_write continue bytes (wrote zero, w) = (err storage_error, w)
  after_write continue bytes (wrote (suc n), w) = continue (drop (suc n) bytes) w
  after_write continue bytes (interrupted, w) = continue bytes w
  after_write continue bytes (write_failed, w) = (err storage_error, w)

module _ {W H : Type 0} where
  unfoldable pub read_file_bytes : System W H → Bytes → ℕ → Io W Bytes
  unfolding append_chunks
  read_file_bytes system path max = do
    input ← system.read_input path
    bytes ← λ w. (append_chunks max [] input.chunks, w)
    λ w. (until_end input.at_end bytes, w)

  -- The loop of ::write calls; a round of fuel for each call.
  unfoldable pub write_all : System W H → ℕ → H → Bytes → Io W (Unit {0})
  write_all system fuel file [] w = (ok tt, w)
  write_all system zero file (c ∷ bytes) w = (out_of_fuel, w)
  write_all system (suc fuel) file (c ∷ bytes) w =
      after_write (write_all system fuel file) (c ∷ bytes) (system.write file (c ∷ bytes) w)

  -- ::close is called whatever happened before, and the first error stays.
  abbrev pub close_after : System W H → H → Result (Unit {0}) × W → Result (Unit {0}) × W
  close_after system file (ok _, w) = system.close file w
  close_after system file (err e, w) = (err e, (system.close file w).1)
  close_after system file (fault, w) = (fault, (system.close file w).1)
  close_after system file (out_of_fuel, w) = (out_of_fuel, (system.close file w).1)

  -- removeTemporary where the step before failed
  abbrev pub or_remove : {A : Type 0} → System W H → Bytes → Result A × W → Result A × W
  or_remove system path (ok x, w) = (ok x, w)
  or_remove system path (err e, w) = (err e, (system.remove path w).1)
  or_remove system path (fault, w) = (fault, (system.remove path w).1)
  or_remove system path (out_of_fuel, w) = (out_of_fuel, (system.remove path w).1)

  -- The body of writeTemporary's loop once the candidate is open.
  unfoldable pub fill_candidate : System W H → ℕ → H → ℕ → Bytes → Bytes → Io W Bytes
  unfolding write_all
  fill_candidate system fuel file mode bytes candidate =
      (λ w.
        or_remove system candidate (
          close_after system file
            ((write_all system fuel file bytes >> system.fchmod file mode) w)))
      >> pure candidate

  abbrev pub after_open :
      System W H → Io W Bytes → ℕ → ℕ → Bytes → Bytes → Opened H × W → Result Bytes × W
  after_open system again fuel mode bytes candidate (opened file, w) =
      fill_candidate system fuel file mode bytes candidate w
  after_open system again fuel mode bytes candidate (already_exists, w) = again w
  after_open system again fuel mode bytes candidate (open_failed, w) = (err storage_error, w)

-- .tmp.
abbrev pub temporary_mark : Bytes
temporary_mark = b'.' ∷ b't' ∷ b'm' ∷ b'p' ∷ b'.' ∷ []

-- What follows the file's name in the name of a temporary file.
abbrev pub temporary_suffix : ℕ → ℕ → Bytes
temporary_suffix ticks sequence = temporary_mark ++ to_string ticks ++ b'.' ∷ to_string sequence

module _ {W H : Type 0} (paths : Paths) (system : System W H) where
  unfoldable pub temporary_candidate : Bytes → W → Bytes × W
  unfolding parent_or_current to_string
  temporary_candidate destination w =
      let (sequence, w₁) = system.next_sequence w in
      let (ticks, w₂) = system.ticks w₁ in
      (
        paths.join (parent_or_current paths destination)
            (paths.filename destination ++ temporary_suffix ticks sequence),
        w₂,
      )

  -- writeTemporary's loop, a candidate for each attempt
  unfoldable pub try_candidates : ℕ → ℕ → Bytes → Bytes → ℕ → Io W Bytes
  unfolding temporary_candidate fill_candidate
  try_candidates zero fuel destination bytes mode w = (err storage_error, w)
  try_candidates (suc attempts) fuel destination bytes mode w =
      let (candidate, w₁) = temporary_candidate destination w in
      after_open system (try_candidates attempts fuel destination bytes mode) fuel mode bytes
        candidate (system.open_new candidate w₁)

  abbrev pub final_mode : Stat × W → Result ℕ × W
  final_mode (mode_of m, w) = (ok (m % 2 ^ 12), w)
  final_mode (absent, w) = (ok 384, w)
  final_mode (stat_failed, w) = (err storage_error, w)

  unfoldable pub write_temporary : ℕ → Bytes → Bytes → Bytes → Io W Bytes
  unfolding try_candidates
  write_temporary fuel destination bytes permission_source =
      (λ w. final_mode (system.stat permission_source w))
      >>= try_candidates 100 fuel destination bytes

  abbrev list_if : CheckpointOptions → Bool → Io W (List Bytes)
  list_if options false w = (ok [], w)
  list_if options true w =
      let (listing, w₁) = system.list_directory options.checkpoint_directory w in
      (listed paths (paths.extension options.canonical_path) listing, w₁)

  unfoldable pub checkpoint_files : CheckpointOptions → Io W (List Bytes)
  unfolding listed
  checkpoint_files options = system.exists options.checkpoint_directory >>= list_if options

-- A rename
unfoldable pub replace_file : {W H : Type 0} → System W H → Bytes → Bytes → Io W (Unit {0})
replace_file system temporary destination = system.rename temporary destination

module _ {W : Type 0} where
  unfoldable pub load_bytes : Backend W → Bytes → Io W VersionedConfig
  load_bytes backend bytes = guarded (backend.load bytes) parse_error

  abbrev written_bytes : Bytes × Bool → Io W Bytes
  written_bytes (bytes, good) = if good then pure bytes else fail serialization_error

  unfoldable pub save_bytes : Backend W → VersionedConfig → Io W Bytes
  save_bytes backend config = guarded (backend.save config) serialization_error >>= written_bytes
