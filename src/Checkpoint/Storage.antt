-- ===== src/Checkpoint/Storage.antt =====
-- What POSIX and std::filesystem document of the calls, over a view of the files' contents: nobody
-- else changes a file meanwhile.
use config_manager.Common.{
  List, true, ◌∷◌, ℕ, ◌≤◌, ◌≡◌, ◌≢◌, Bytes, Bool, all, not, ◌==◌, [], ◌++◌, length, Option, none,
  some, Result, ok, err, fault, out_of_fuel,
}
use config_manager.Checkpoint.Host.{
  Input, Paths, System, Opened, opened, already_exists, open_failed, Written, wrote, interrupted,
  write_failed,
}
use config_manager.Checkpoint.Sort.Split.{take}

abbrev pub flatten : List Bytes → Bytes
flatten [] = []
flatten (chunk ∷ chunks) = chunk ++ flatten chunks

module _ {W : Type 0} (content : Bytes → W → Option Bytes) where
  abbrev pub Same : W → W → Type 0
  Same w w' = (q : Bytes) → content q w' ≡ content q w

  -- Only the file of that path may have changed.
  abbrev pub Off : Bytes → W → W → Type 0
  Off path w w' = (q : Bytes) → q ≢ path → content q w' ≡ content q w

  -- A stream that reaches the end of the file has read all of it.
  abbrev pub Reads : Bytes → W → Result Input × W → Type 0
  Reads path w (ok input, w') =
      (input.at_end ≡ true → content path w ≡ some (flatten input.chunks)) × Same w w'
  Reads path w (err e, w') = Same w w'
  Reads path w (fault, w') = Same w w'
  Reads path w (out_of_fuel, w') = Same w w'

  -- O_EXCL: the file is new and empty.
  abbrev pub Opens : {H : Type 0} → (H → Bytes) → Bytes → W → Opened H × W → Type 0
  Opens file_of path w (opened h, w') =
      (file_of h ≡ path) × (content path w ≡ none) × (content path w' ≡ some []) × Off path w w'
  Opens file_of path w (already_exists, w') = Same w w'
  Opens file_of path w (open_failed, w') = Same w w'

  -- The first of the bytes are appended; on a failure none are.
  abbrev pub Writes : Bytes → Bytes → W → Written × W → Type 0
  Writes path bytes w (wrote n, w') =
      (n ≤ length bytes)
      × ((c : Bytes) → content path w ≡ some c → content path w' ≡ some (c ++ take n bytes))
      × Off path w w'
  Writes path bytes w (interrupted, w') = Same w w'
  Writes path bytes w (write_failed, w') = Same w w'

  -- The file takes the other name in one step, or keeps its own.
  abbrev pub Renames : Bytes → Bytes → W → Result (Unit {0}) × W → Type 0
  Renames from to w (ok _, w') =
      (content to w' ≡ content from w)
      × ((q : Bytes) → q ≢ from → q ≢ to → content q w' ≡ content q w)
  Renames from to w (err e, w') = Same w w'
  Renames from to w (fault, w') = Same w w'
  Renames from to w (out_of_fuel, w') = Same w w'

pub record IsFileSystem {W H : Type 0} (system : System W H) (content : Bytes → W → Option Bytes)
    (file_of : H → Bytes) : Type 0 where
  pub read_input : (path : Bytes) (w : W) → Reads content path w (system.read_input path w)
  pub exists : (path : Bytes) (w : W) → Same content w (system.exists path w).1
  pub stat : (path : Bytes) (w : W) → Same content w (system.stat path w).1
  pub ticks : (w : W) → Same content w (system.ticks w).1
  pub next_sequence : (w : W) → Same content w (system.next_sequence w).1
  pub fchmod : (h : H) (m : ℕ) (w : W) → Same content w (system.fchmod h m w).1
  pub close : (h : H) (w : W) → Same content w (system.close h w).1
  pub create_directories :
      (path : Bytes) (w : W) → Same content w (system.create_directories path w).1
  pub open_new : (path : Bytes) (w : W) → Opens content file_of path w (system.open_new path w)
  pub write :
      (h : H) (bytes : Bytes) (w : W) → Writes content (file_of h) bytes w (system.write h bytes w)
  pub remove : (path : Bytes) (w : W) → Off content path w (system.remove path w).1
  pub rename : (from to : Bytes) (w : W) → Renames content from to w (system.rename from to w)

abbrev pub no_slash : Bytes → Bool
no_slash bytes = all (λ c. not (c == b'/')) bytes

-- A name without a separator is the last part of a path that it is joined to.
pub record IsPaths (paths : Paths) : Type 0 where
  pub filename_join :
      (parent path suffix : Bytes)
      → no_slash suffix ≡ true
      → paths.filename (paths.join parent (paths.filename path ++ suffix))
        ≡ (paths.filename path ++ suffix)
