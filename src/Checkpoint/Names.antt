-- ===== src/Checkpoint/Names.antt =====
-- checkpointFilename and isCheckpointFilename: a checkpoint is named by its version in ten digits.
pub mod Laws
use config_manager.Common.{
  ℕ, zero, suc, ◌+◌, ◌/◌, ◌%◌, ◌==◌, ltb, Bytes, Bool, false, ◌&&◌, if◌then◌else◌, all, [], ◌∷◌,
  ◌++◌, length, ◌-◌,
}
use config_manager.Path.{is_digit}
use config_manager.Checkpoint.Host.{Paths}

-- The decimal digits of a number, without leading zeros; the number itself is enough fuel.
unfoldable pub digits_within : ℕ → ℕ → Bytes
digits_within zero n = (b'0' + n % 10) ∷ []
digits_within (suc fuel) n =
    let rest = digits_within fuel (n / 10) in
    if ltb n 10 then (b'0' + n) ∷ [] else rest ++ (b'0' + n % 10) ∷ []

unfoldable pub to_string : ℕ → Bytes
unfolding digits_within
to_string n = digits_within n n

abbrev pub zeros : ℕ → Bytes
zeros zero = []
zeros (suc n) = b'0' ∷ zeros n

-- std::setw and std::setfill('0')
abbrev pub padded : ℕ → Bytes → Bytes
padded width text = zeros (width - length text) ++ text

unfoldable pub checkpoint_filename : ℕ → Bytes → Bytes
unfolding to_string
checkpoint_filename version extension = padded 10 (to_string version) ++ extension

unfoldable pub is_checkpoint_filename : Paths → Bytes → Bytes → Bool
is_checkpoint_filename paths path extension =
    if paths.equal (paths.extension path) extension
    then (length (paths.stem path) == 10) && all is_digit (paths.stem path)
    else false
