-- ===== src/Tests/Checkpoints.antt =====
-- The checkpoint store over a file system that is a map from paths to contents: one byte is written
-- at a time, and a file is as old as it is long.
use config_manager.Common.{
  ℕ, ◌+◌, ◌-◌, ◌≡◌, ◌≢◌, refl, sym, ap, ◌∙◌, Bytes, bytes_eq, bytes_eq→eq, bytes_eq_self, Bool,
  true, false, Bool-cases, inl, inr, if◌then◌else◌, [], ◌∷◌, ◌++◌, append-nil, length, Option, none,
  some, Result, ok, err, arith, parse_error, storage_error,
}
use mathlib.Core.Path.{subst}
use config_manager.Value.{object, no_members}
use config_manager.Catalog.{VersionCatalog, VersionedConfig, Called, returned}
use config_manager.Catalog
use config_manager.Runtime.{ConfigRuntime, supports_version}
use config_manager.Tests.Versions
use config_manager.Checkpoint.{cp_commit, cp_capture}
use config_manager.Checkpoint.Atomic.Capture.{Captured, cp_capture-Captured}
use config_manager.Checkpoint.Atomic.Settles.{Progresses, write_all-settles}
use config_manager.Checkpoint.Names.Laws.{checkpoint_filename-decimal}
use config_manager.Checkpoint.Names.{checkpoint_filename}
use config_manager.Path.{is_digit, decimal}
use config_manager.Common.{all, out_of_fuel}
use config_manager.Checkpoint.Files.{load_bytes, write_all}
use config_manager.Checkpoint.Host.{
  Paths, System, Opened, opened, already_exists, Written, wrote, Stat, mode_of, absent,
  CheckpointOptions, Input, Entry,
}
use config_manager.Checkpoint.Names.{is_checkpoint_filename}
use config_manager.Checkpoint.Chunks.{checkpoint_entries, listed}
use config_manager.Checkpoint.Files.{Backend, checkpoint_files, save_bytes}
use config_manager.Checkpoint.Storage.{
  Reads, Opens, Writes, Renames, IsFileSystem, IsPaths, no_slash,
}
use config_manager.Checkpoint.Outcome.{Ends, Never}
use config_manager.Checkpoint.Atomic.Suffix.{no_slash-append}
use config_manager.Checkpoint.Atomic.Commit.{Committed, cp_commit-Committed}
use config_manager.Checkpoint.Restore.{cp_prepare_restore}
use config_manager.Checkpoint.Restore.Search.{Restored, RestoreStuck, cp_prepare_restore-Restored}
use config_manager.Checkpoint.Prune.{cp_prune}
use config_manager.Checkpoint.Prune.Report.{Pruned, PruneFailed, PruneStuck, cp_prune-Pruned}

-- Paths of two parts, without extensions.
abbrev last_part : Bytes → Bytes
last_part [] = []
last_part (c ∷ cs) = if no_slash (c ∷ cs) then c ∷ cs else last_part cs

abbrev paths : Paths
paths = record {
  parent_path = λ p. [];
  filename = last_part;
  extension = λ p. [];
  stem = last_part;
  join = λ p n. p ++ b'/' ∷ n;
  equal = bytes_eq;
}

last_part-no_slash : (p : Bytes) → no_slash (last_part p) ≡ true
last_part-no_slash [] = refl
last_part-no_slash (c ∷ cs) = elim (Bool-cases (no_slash (c ∷ cs))) [
  | inl plain ↦ rw (plain, plain) refl
  | inr slash ↦ rw slash (last_part-no_slash cs)
]

last_part_plain : (n : Bytes) → no_slash n ≡ true → last_part n ≡ n
last_part_plain [] h = refl
last_part_plain (c ∷ cs) h = rw h refl

no_slash-join : (p n : Bytes) → no_slash (p ++ b'/' ∷ n) ≡ false
no_slash-join [] n = refl
no_slash-join (c ∷ p) n = ground (arith, no_slash-join p n)

last_part-join : (p n : Bytes) → no_slash n ≡ true → last_part (p ++ b'/' ∷ n) ≡ n
last_part-join [] n h = last_part_plain n h
last_part-join (c ∷ p) n h =
    let e : no_slash (c ∷ p ++ b'/' ∷ n) ≡ false = no_slash-join (c ∷ p) n in
    rw e (last_part-join p n h)

paths-IsPaths : IsPaths paths
paths-IsPaths = record {
  filename_join = λ parent path suffix plain.
      last_part-join parent (last_part path ++ suffix)
        (no_slash-append (last_part path) suffix (last_part-no_slash path) plain);
}

abbrev Disk : Type 0
Disk = Bytes → Option Bytes

abbrev content : Bytes → Disk → Option Bytes
content q disk = disk q

unfoldable put : Bytes → Option Bytes → Disk → Disk
put p x disk q = if bytes_eq q p then x else disk q

put_self : (p : Bytes) (x : Option Bytes) (disk : Disk) → put p x disk p ≡ x
unfolding put
put_self p x disk = rw (bytes_eq_self p) refl

put_other :
    (p : Bytes) (x : Option Bytes) (disk : Disk) (q : Bytes) → q ≢ p → put p x disk q ≡ disk q
unfolding put
put_other p x disk q ne = elim (Bool-cases (bytes_eq q p)) [
  | inl same ↦ absurd (ne (bytes_eq→eq q p same))
  | inr other ↦ rw other refl
]

abbrev opened_at : Bytes → Option Bytes → Disk → Opened Bytes × Disk
opened_at p (some c) disk = (already_exists, disk)
opened_at p none disk = (opened p, put p (some []) disk)

abbrev appended : Bytes → Option Bytes → Option Bytes
appended bytes none = none
appended bytes (some c) = some (c ++ bytes)

abbrev write_byte : Bytes → Bytes → Disk → Written × Disk
write_byte p [] disk = (wrote 0, disk)
write_byte p (b ∷ bytes) disk = (wrote 1, put p (appended (b ∷ []) (disk p)) disk)

abbrev renamed : Bytes → Bytes → Bool → Disk → Disk
renamed from to true disk = disk
renamed from to false disk = put from none (put to (disk from) disk)

abbrev stat_at : Option Bytes → Stat
stat_at (some c) = mode_of 384
stat_at none = absent

abbrev input_at : Option Bytes → Result Input
input_at (some c) = ok (record { chunks = c ∷ []; at_end = true })
input_at none = err storage_error

abbrev time_at : Option Bytes → Result ℕ
time_at (some c) = ok (length c)
time_at none = err storage_error

abbrev first : Bytes
first = b'd' ∷ b'/' ∷ b'0' ∷ b'0' ∷ b'0' ∷ b'0' ∷ b'0' ∷ b'0' ∷ b'0' ∷ b'0' ∷ b'0' ∷ b'1' ∷ []

abbrev second : Bytes
second = b'd' ∷ b'/' ∷ b'0' ∷ b'0' ∷ b'0' ∷ b'0' ∷ b'0' ∷ b'0' ∷ b'0' ∷ b'0' ∷ b'0' ∷ b'2' ∷ []

abbrev entry : Bytes → Entry
entry path = record { path = path; is_regular_file = ok true }

abbrev system : System Disk Bytes
system = record {
  read_input = λ p disk. (input_at (disk p), disk);
  stat = λ p disk. (stat_at (disk p), disk);
  ticks = λ disk. (0, disk);
  next_sequence = λ disk. (0, disk);
  open_new = λ p disk. opened_at p (disk p) disk;
  write = write_byte;
  fchmod = λ h m disk. (ok tt, disk);
  close = λ h disk. (ok tt, disk);
  rename = λ from to disk. (ok tt, renamed from to (bytes_eq from to) disk);
  remove = λ p disk. (ok tt, put p none disk);
  exists = λ p disk. (ok true, disk);
  create_directories = λ p disk. (ok tt, disk);
  list_directory =
      λ p disk. (record { entries = entry first ∷ entry second ∷ []; is_complete = true }, disk);
  last_write_time = λ p disk. (time_at (disk p), disk);
  weakly_canonical = λ p disk. (returned p, disk);
}

opened_at-Opens :
    (p : Bytes) (x : Option Bytes) (disk : Disk)
    → disk p ≡ x
    → Opens content (λ h. h) p disk (opened_at p x disk)
opened_at-Opens p (some c) disk e = λ q. refl
opened_at-Opens p none disk e =
    (refl, e, put_self p (some []) disk, λ q ne. put_other p (some []) disk q ne)

write_byte-Writes :
    (p bytes : Bytes) (disk : Disk) → Writes content p bytes disk (write_byte p bytes disk)
write_byte-Writes p [] disk = (omega arith, λ c e. e ∙ ap some (sym (append-nil c)), λ q ne. refl)
write_byte-Writes p (b ∷ bytes) disk = (
  omega arith,
  λ c e. put_self p (appended (b ∷ []) (disk p)) disk ∙ ap (appended (b ∷ [])) e,
  λ q ne. put_other p (appended (b ∷ []) (disk p)) disk q ne,
)

true-ne-false : true ≢ false
true-ne-false e = cc

renamed-Renames :
    (from to : Bytes) (same : Bool) (disk : Disk)
    → bytes_eq from to ≡ same
    → Renames content from to disk (ok tt, renamed from to same disk)
renamed-Renames from to true disk e = (ap disk (sym (bytes_eq→eq from to e)), λ q nf nt. refl)
renamed-Renames from to false disk e =
    let ne : to ≢ from = λ same.
      true-ne-false
        (sym (subst (λ x. bytes_eq from x ≡ true) (sym same) (bytes_eq_self from)) ∙ e) in
    (
      put_other from none (put to (disk from) disk) to ne ∙ put_self to (disk from) disk,
      λ q nf nt.
          put_other from none (put to (disk from) disk) q nf ∙ put_other to (disk from) disk q nt,
    )

input_at-Reads :
    (p : Bytes) (x : Option Bytes) (disk : Disk)
    → disk p ≡ x
    → Reads content p disk (input_at x, disk)
input_at-Reads p (some c) disk e = (λ _. e ∙ ap some (sym (append-nil c)), λ q. refl)
input_at-Reads p none disk e = λ q. refl

system-IsFileSystem : IsFileSystem system content (λ h. h)
system-IsFileSystem = record {
  read_input = λ p w. input_at-Reads p (w p) w refl;
  exists = λ p w q. refl;
  stat = λ p w q. refl;
  ticks = λ w q. refl;
  next_sequence = λ w q. refl;
  fchmod = λ h m w q. refl;
  close = λ h w q. refl;
  create_directories = λ p w q. refl;
  open_new = λ p w. opened_at-Opens p (w p) w refl;
  write = write_byte-Writes;
  remove = λ p w q ne. put_other p none w q ne;
  rename = λ from to w. renamed-Renames from to (bytes_eq from to) w refl;
}

abbrev options : CheckpointOptions
options = record {
  canonical_path = b'c' ∷ [];
  checkpoint_directory = b'd' ∷ [];
  retention = 1;
  max_file_bytes = 8;
}

abbrev config : ℕ → VersionedConfig
config v = record { version = v; model = Versions.model }

abbrev loaded : Bytes → Result VersionedConfig
loaded [] = err parse_error
loaded (b ∷ bytes) = ok (config (b - b'0'))

abbrev backend : Backend Disk
backend = record {
  load = λ bytes disk. (returned (loaded bytes), disk);
  save = λ c disk. (returned (ok ((b'0' + c.version) ∷ b'!' ∷ [], true)), disk);
}

-- Two checkpoints and the canonical file.
abbrev disk : Disk
disk =
    put first (some (b'1' ∷ []))
      (put second (some (b'2' ∷ b'2' ∷ [])) (put (b'c' ∷ []) (some (b'2' ∷ [])) (λ q. none)))

cp_commit-Committed_example :
    Committed paths system content
      (λ h. h)
      paths-IsPaths
      system-IsFileSystem
      options
      backend
      (config 2)
      disk
      (save_bytes backend (config 2) disk)
      (cp_commit paths system 9 options backend (config 2) disk)
unfolding put save_bytes
cp_commit-Committed_example =
    cp_commit-Committed paths system content (λ h. h) paths-IsPaths system-IsFileSystem options
      backend (config 2) 9 disk (λ q. refl)

files_listed : checkpoint_files paths system options disk ≡ (ok (first ∷ second ∷ []), disk)
unfolding checkpoint_files checkpoint_entries listed is_checkpoint_filename bytes_eq
files_listed = refl

cp_prune-Pruned_example :
    Ends
      (Pruned paths system options backend disk (first ∷ second ∷ []))
      (PruneFailed paths system options backend disk (first ∷ second ∷ []))
      (PruneStuck paths system options backend)
      (cp_prune paths system options backend disk)
cp_prune-Pruned_example =
    cp_prune-Pruned paths system options backend disk disk (first ∷ second ∷ []) files_listed

abbrev catalog : VersionCatalog Disk
catalog = record {
  entries =
      record { version = 2; default_factory = some (λ w. (returned (object no_members), w)) } ∷ [];
}

abbrev runtime : ConfigRuntime Disk
runtime = record { catalog = catalog; registry = record { edges = [] } }

supports_two : supports_version runtime 2 ≡ true
unfolding supports_version Catalog.contains Catalog.find_entry
supports_two = refl

cp_prepare_restore-Restored_example :
    Ends
      (Restored paths system options backend runtime 2 disk (first ∷ second ∷ []))
      Never
      (RestoreStuck paths system options backend runtime 2)
      (cp_prepare_restore paths system options backend runtime 2 disk)
cp_prepare_restore-Restored_example =
    cp_prepare_restore-Restored paths system options backend runtime 2 disk disk
      (first ∷ second ∷ []) supports_two files_listed

cp_capture-Captured_example :
    Captured paths system content
      (λ h. h)
      paths-IsPaths
      system-IsFileSystem
      options
      backend
      (config 2)
      disk
      (cp_capture paths system 9 options backend (config 2) disk)
unfolding load_bytes
cp_capture-Captured_example =
    cp_capture-Captured paths system content (λ h. h) paths-IsPaths system-IsFileSystem options
      backend (config 2) (λ bytes w q. refl) 9 disk

write_byte-Progresses : (h bytes : Bytes) (w : Disk) → Progresses (λ w. 0) w (write_byte h bytes w)
write_byte-Progresses h [] w = omega arith
write_byte-Progresses h (b ∷ bytes) w = omega arith

write_all-settles_example : (write_all system 2 (b'c' ∷ []) (1 ∷ 2 ∷ []) disk).0 ≢ out_of_fuel
write_all-settles_example =
    write_all-settles system (λ w. 0) write_byte-Progresses 2 (b'c' ∷ []) (1 ∷ 2 ∷ []) disk
      (omega arith)

digits_plain : (s : Bytes) → all is_digit s ≡ true → no_slash s ≡ true
digits_plain [] h = refl
digits_plain (c ∷ s) h = ground (arith, digits_plain s)

checkpoint_filename-decimal_example :
    (is_checkpoint_filename paths (checkpoint_filename 7 []) [] ≡ true)
    × (decimal 0 (paths.stem (checkpoint_filename 7 [])) ≡ 7)
unfolding bytes_eq
checkpoint_filename-decimal_example =
    checkpoint_filename-decimal paths [] 7
      (λ s digits ten. (refl, rw (append-nil s) (last_part_plain s (digits_plain s digits))))
      (omega arith)

-- The older checkpoint is removed.
cp_prune_removes :
    (cp_prune paths system options backend disk).0
    ≡ ok (record { removed = first ∷ []; rejected = [] })
unfolding cp_prune put bytes_eq
cp_prune_removes = refl

-- The commit writes the whole file.
cp_commit_writes :
    (cp_commit paths system 9 options backend (config 2) disk).1 (b'c' ∷ [])
    ≡ some (b'2' ∷ b'!' ∷ [])
unfolding cp_commit put bytes_eq
cp_commit_writes = refl
