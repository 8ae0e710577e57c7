-- ===== src/Checkpoint/Prune.antt =====
-- cpPrune: of each version the newest checkpoint is retained, and of these the newest.
pub mod Report
pub mod Laws
pub mod Newest
pub mod Groups
use config_manager.Common.{ℕ, ltb, ◌==◌, Bytes, Bool, if◌then◌else◌, List, [], ◌∷◌, ◌++◌}
use config_manager.Checkpoint.Host.{
  Io, ◌>>=◌, ◌>>◌, pure, Paths, System, CheckpointOptions, Rejection,
}
use config_manager.Checkpoint.Files.{Backend, read_file_bytes, load_bytes, checkpoint_files}
use config_manager.Checkpoint.Sort.{sort, newer, skip}
use config_manager.Checkpoint.Restore.{collect}

pub record CheckpointFile : Type 0 where
  pub path : Bytes
  pub modified : ℕ

pub record PruneReport : Type 0 where
  pub removed : List Bytes
  pub rejected : List Rejection

-- The comparison of both sorts.
unfoldable pub newer_file : CheckpointFile → CheckpointFile → Bool
unfolding newer
newer_file left right = newer left.modified left.path right.modified right.path

-- The std::map from a version to its files, ascending.
abbrev pub Versions : Type 0
Versions = List (ℕ × List CheckpointFile)

-- versions[version].push_back(file)
unfoldable pub push_file : ℕ → CheckpointFile → Versions → Versions
push_file v f [] = (v, f ∷ []) ∷ []
push_file v f ((u, fs) ∷ rest) =
    let more = push_file v f rest in
    if u == v
    then (u, fs ++ f ∷ []) ∷ rest
    else if ltb v u
    then (v, f ∷ []) ∷ (u, fs) ∷ rest
    else (u, fs) ∷ more

unfoldable pub group_files : List (ℕ × CheckpointFile) → Versions → Versions
unfolding push_file
group_files [] versions = versions
group_files ((v, f) ∷ files) versions = group_files files (push_file v f versions)

abbrev pub first_of {ℓ} : {A : Type ℓ} → List A → List A
first_of [] = []
first_of (x ∷ xs) = x ∷ []

abbrev pub rest_of {ℓ} : {A : Type ℓ} → List A → List A
rest_of [] = []
rest_of (x ∷ xs) = xs

-- retained_versions
unfoldable pub newest_files : Versions → List CheckpointFile
unfolding sort newer_file
newest_files [] = []
newest_files ((v, fs) ∷ rest) = first_of (sort newer_file fs) ++ newest_files rest

unfoldable pub superseded_files : Versions → List CheckpointFile
unfolding sort newer_file
superseded_files [] = []
superseded_files ((v, fs) ∷ rest) = rest_of (sort newer_file fs) ++ superseded_files rest

unfoldable pub removals : ℕ → Versions → List CheckpointFile
unfolding newest_files superseded_files
removals retention versions =
    superseded_files versions ++ skip retention (sort newer_file (newest_files versions))

module _ {W H : Type 0} (paths : Paths) (system : System W H) where
  -- The first loop's body.
  unfoldable pub load_file : CheckpointOptions → Backend W → Bytes → Io W (ℕ × CheckpointFile)
  unfolding read_file_bytes load_bytes
  load_file options backend path = do
    bytes ← read_file_bytes system path options.max_file_bytes
    loaded ← load_bytes backend bytes
    modified ← system.last_write_time path
    pure (loaded.version, record { path = path; modified = modified })

  -- The last loop; a removal that fails ends it.
  unfoldable pub remove_all : List CheckpointFile → Io W (List Bytes)
  remove_all [] = pure []
  remove_all (f ∷ fs) = do system.remove f.path; removed ← remove_all fs; pure (f.path ∷ removed)

  abbrev pub prune_loaded :
      CheckpointOptions → List Rejection × List (ℕ × CheckpointFile) → Io W PruneReport
  prune_loaded options (rejected, files) = do
    removed ← remove_all (removals options.retention (group_files files []))
    pure (record { removed = removed; rejected = rejected })

  unfoldable pub cp_prune : CheckpointOptions → Backend W → Io W PruneReport
  unfolding checkpoint_files load_file collect group_files removals remove_all
  cp_prune options backend = do
    files ← checkpoint_files paths system options
    loaded ← collect (load_file options backend) files
    prune_loaded options loaded
