-- ===== src/Checkpoint/Chunks.antt =====
-- What readFileBytes and checkpointFiles make of the chunks and of the entries that they get.
use config_manager.Common.{
  ℕ, ◌-◌, ltb, Bytes, Bool, false, if◌then◌else◌, List, [], ◌∷◌, ◌++◌, length, Result, ok, err,
  ◌>>=◌, storage_error,
}
use config_manager.Checkpoint.Host.{Paths, Entry, Listing}
use config_manager.Checkpoint.Names.{is_checkpoint_filename}

-- The loop of readFileBytes.
unfoldable pub append_chunks : ℕ → Bytes → List Bytes → Result Bytes
append_chunks max bytes [] = ok bytes
append_chunks max bytes (chunk ∷ chunks) =
    let rest = append_chunks max (bytes ++ chunk) chunks in
    if ltb (max - length bytes) (length chunk) then err storage_error else rest

abbrev pub until_end : Bool → Bytes → Result Bytes
until_end at_end bytes = if at_end then ok bytes else err storage_error

module _ (paths : Paths) where
  abbrev pub keeps_entry : Bytes → Bytes → Bool → Bool
  keeps_entry extension path regular =
      if regular then is_checkpoint_filename paths path extension else false

  -- The loop of checkpointFiles.
  unfoldable pub checkpoint_entries : Bytes → List Entry → Result (List Bytes)
  unfolding is_checkpoint_filename
  checkpoint_entries extension [] = ok []
  checkpoint_entries extension (entry ∷ entries) = do
    regular ← entry.is_regular_file
    rest ← checkpoint_entries extension entries
    ok (if keeps_entry extension entry.path regular then entry.path ∷ rest else rest)

  abbrev when_complete : Bool → List Bytes → Result (List Bytes)
  when_complete complete files = if complete then ok files else err storage_error

  unfoldable pub listed : Bytes → Listing → Result (List Bytes)
  unfolding checkpoint_entries
  listed extension listing =
      checkpoint_entries extension listing.entries >>= when_complete listing.is_complete
