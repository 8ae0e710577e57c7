-- ===== src/Checkpoint/Host.antt =====
-- What the checkpoint store asks of the operating system and of std::filesystem, and its operations
-- as actions on the world `W`, which holds the files and all else that a call may reach. A call of
-- the system that fails with an error code is `err storage_error`.
use config_manager.Common.{
  ℕ, Bytes, Bool, if◌then◌else◌, List, [], ◌∷◌, Result, ok, err, fault, out_of_fuel, ErrorCode,
}
use config_manager.Path.{is_empty}
use config_manager.Catalog.{Called, returned, threw_exception, threw_other}

abbrev pub Io : Type 0 → Type 0 → Type 0
Io W A = W → Result A × W

module _ {W A B : Type 0} where
  abbrev pub and_then : Result A × W → (A → Io W B) → Result B × W
  and_then (ok x, w) k = k x w
  and_then (err e, w) k = (err e, w)
  and_then (fault, w) k = (fault, w)
  and_then (out_of_fuel, w) k = (out_of_fuel, w)

  infixl 5 ◌>>=◌ ◌>>◌
  abbrev pub ◌>>=◌ : Io W A → (A → Io W B) → Io W B
  m >>= k = λ w. and_then (m w) k

  abbrev pub ◌>>◌ : Io W A → Io W B → Io W B
  m >> n = m >>= λ _. n

-- A call under a handler of every exception.
abbrev attempted : {W A : Type 0} → Called A × W → ErrorCode → Result A × W
attempted (returned x, w) e = (ok x, w)
attempted (threw_exception, w) e = (err e, w)
attempted (threw_other, w) e = (err e, w)

abbrev pub attempt : {W A : Type 0} → (W → Called A × W) → ErrorCode → Io W A
attempt call e w = attempted (call w) e

module _ {W A : Type 0} where
  abbrev pub pure : A → Io W A
  pure x w = (ok x, w)

  abbrev pub fail : ErrorCode → Io W A
  fail e w = (err e, w)

  -- A call that returns a result, under such a handler.
  abbrev pub guarded : (W → Called (Result A) × W) → ErrorCode → Io W A
  guarded call e = attempt call e >>= λ r w. (r, w)

-- std::filesystem::path: a path is the bytes of `string()`.
pub record Paths : Type 0 where
  pub parent_path : Bytes → Bytes
  pub filename : Bytes → Bytes
  pub extension : Bytes → Bytes
  pub stem : Bytes → Bytes
  -- operator/ and operator==
  pub join : Bytes → Bytes → Bytes
  pub equal : Bytes → Bytes → Bool

-- What ::stat says of a path.
pub data Stat : Type 0 where
  mode_of : ℕ → Stat
  absent : Stat
  stat_failed : Stat

-- What ::open says with O_CREAT and O_EXCL; a descriptor is an `H`.
pub data Opened (H : Type 0) : Type 0 where
  opened : H → Opened H
  already_exists : Opened H
  open_failed : Opened H

-- What ::write says: a number of bytes, EINTR, or another failure.
pub data Written : Type 0 where
  wrote : ℕ → Written
  interrupted : Written
  write_failed : Written

-- The chunks that an input stream reads, to the end of the file or to a failure.
pub record Input : Type 0 where
  pub chunks : List Bytes
  pub at_end : Bool

-- An entry of a directory; whether it is a regular file may be unknown.
pub record Entry : Type 0 where
  pub path : Bytes
  pub is_regular_file : Result Bool

-- The entries that an iteration gives, and whether it ended without an error.
pub record Listing : Type 0 where
  pub entries : List Entry
  pub is_complete : Bool

pub record System (W H : Type 0) : Type 0 where
  -- std::ifstream in binary mode, and reading until it fails
  pub read_input : Bytes → Io W Input
  pub stat : Bytes → W → Stat × W
  -- std::chrono::steady_clock::now, and g_temp_sequence.fetch_add
  pub ticks : W → ℕ × W
  pub next_sequence : W → ℕ × W
  pub open_new : Bytes → W → Opened H × W
  pub write : H → Bytes → W → Written × W
  pub fchmod : H → ℕ → Io W (Unit {0})
  pub close : H → Io W (Unit {0})
  pub rename : Bytes → Bytes → Io W (Unit {0})
  pub remove : Bytes → Io W (Unit {0})
  pub exists : Bytes → Io W Bool
  pub create_directories : Bytes → Io W (Unit {0})
  pub list_directory : Bytes → W → Listing × W
  -- a point in time counted from the clock's least
  pub last_write_time : Bytes → Io W ℕ
  pub weakly_canonical : Bytes → W → Called Bytes × W

pub record CheckpointOptions : Type 0 where
  pub canonical_path : Bytes
  pub checkpoint_directory : Bytes
  pub retention : ℕ
  pub max_file_bytes : ℕ

-- CheckpointRejection
pub record Rejection : Type 0 where
  pub path : Bytes
  pub error : ErrorCode

unfoldable pub parent_or_current : Paths → Bytes → Bytes
parent_or_current paths path =
    if is_empty (paths.parent_path path) then b'.' ∷ [] else paths.parent_path path
