-- ===== src/Checkpoint.antt =====
-- checkpoint/src/checkpoint_store.cpp and checkpoint/include/configmanager/checkpoint_store.hpp: the
-- captured copies of a configuration file, their restoration and their removal. The operating
-- system, std::filesystem and the storage backend are parameters.
pub mod Host
pub mod Outcome
pub mod Verify
pub mod Names
pub mod Chunks
pub mod Files
pub mod Sort
pub mod Restore
pub mod Prune
pub mod Storage
pub mod Atomic
use config_manager.Common.{
  ℕ, Bytes, Bool, true, false, if◌then◌else◌, ◌==◌, storage_error, invalid_version,
}
use config_manager.Path.{is_empty}
use config_manager.Catalog.{VersionedConfig}
use Host.{Io, ◌>>=◌, ◌>>◌, pure, fail, attempt, Paths, System, CheckpointOptions, parent_or_current}
use Names.{checkpoint_filename}
use Files.{
  read_file_bytes, write_temporary, replace_file, load_bytes, save_bytes, or_remove, Backend,
}

module _ {W H : Type 0} (paths : Paths) (system : System W H) where
  abbrev separate : CheckpointOptions → Bytes → Bytes → Io W CheckpointOptions
  separate options file directory =
      if paths.equal (parent_or_current paths file) directory
      then fail storage_error
      else pure (record options { canonical_path = file; checkpoint_directory = directory })

  -- The path of the canonical file and the directory, in their canonical forms.
  abbrev canonical_options : CheckpointOptions → Io W CheckpointOptions
  canonical_options options = do
    file ← attempt (system.weakly_canonical options.canonical_path) storage_error
    directory ← attempt (system.weakly_canonical options.checkpoint_directory) storage_error
    separate options file directory

  unfoldable pub validate_options : CheckpointOptions → Io W CheckpointOptions
  validate_options options =
      if is_empty options.canonical_path
      then fail storage_error
      else if is_empty options.checkpoint_directory
      then fail storage_error
      else canonical_options options

  -- A store is its options. What weakly_canonical throws is caught here.
  unfoldable pub cp_create : CheckpointOptions → Io W CheckpointOptions
  unfolding validate_options
  cp_create options = validate_options options

  -- The last steps of a capture and of a commit: the bytes go to a temporary file beside the
  -- destination, which then takes its name.
  unfoldable pub write_replacing : ℕ → Bytes → Bytes → Bytes → Io W (Unit {0})
  unfolding write_temporary replace_file
  write_replacing fuel destination bytes permission_source = do
    temporary ← write_temporary paths system fuel destination bytes permission_source
    λ w. or_remove system temporary (replace_file system temporary destination w)

  abbrev pub permission_source : CheckpointOptions → Bytes → Bool → Bytes
  permission_source options destination exists =
      if exists then destination else options.canonical_path

  abbrev pub destination_of : CheckpointOptions → ℕ → Bytes
  destination_of options version =
      paths.join options.checkpoint_directory
        (checkpoint_filename version (paths.extension options.canonical_path))

  abbrev pub same_version : VersionedConfig → VersionedConfig → Io W (Unit {0})
  same_version loaded config =
      if loaded.version == config.version then pure tt else fail invalid_version

  -- The fuel is for the calls of write(2).
  unfoldable pub cp_capture : ℕ → CheckpointOptions → Backend W → VersionedConfig → Io W (Unit {0})
  unfolding read_file_bytes load_bytes checkpoint_filename write_replacing
  cp_capture fuel options backend config = do
    bytes ← read_file_bytes system options.canonical_path options.max_file_bytes
    loaded ← load_bytes backend bytes
    same_version loaded config
    system.create_directories options.checkpoint_directory
    exists ← system.exists (destination_of options config.version)
    write_replacing fuel (destination_of options config.version) bytes
        (permission_source options (destination_of options config.version) exists)

  unfoldable pub cp_commit : ℕ → CheckpointOptions → Backend W → VersionedConfig → Io W (Unit {0})
  unfolding save_bytes write_replacing
  cp_commit fuel options backend config = do
    bytes ← save_bytes backend config
    system.create_directories (parent_or_current paths options.canonical_path)
    write_replacing fuel options.canonical_path bytes options.canonical_path
