-- ===== src/Checkpoint/Atomic/Read.antt =====
-- What readFileBytes returns is the whole file.
use config_manager.Common.{
  ℕ, ◌-◌, ◌≡◌, refl, sym, ap, ◌∙◌, ltb, Bytes, Bool-cases, inl, inr, List, [], ◌∷◌, ◌++◌,
  append_assoc, append-nil, length, Option, some, Result, ok, err, fault, out_of_fuel, ok_injective,
}
use config_manager.Checkpoint.Host.{and_then, System, Input}
use config_manager.Checkpoint.Chunks.{append_chunks, until_end}
use config_manager.Checkpoint.Storage.{Same, Reads, flatten, IsFileSystem}
use config_manager.Checkpoint.Files.{read_file_bytes}

append_chunks-flatten :
    (max : ℕ) (bytes : Bytes) (chunks : List Bytes) (all : Bytes)
    → append_chunks max bytes chunks ≡ ok all
    → all ≡ (bytes ++ flatten chunks)
unfolding append_chunks
append_chunks-flatten max bytes [] all h = sym (ok_injective h) ∙ sym (append-nil bytes)
append_chunks-flatten max bytes (chunk ∷ chunks) all h =
    elim (Bool-cases (ltb (max - length bytes) (length chunk))) [
      | inl large ↦ cc
      | inr fits ↦
          append_chunks-flatten max (bytes ++ chunk) chunks all (rw fits at h)
          ∙ append_assoc bytes chunk (flatten chunks)
    ]

module _ {W H : Type 0} (system : System W H) (content : Bytes → W → Option Bytes)
    (file_of : H → Bytes) (is : IsFileSystem system content file_of) where
  -- What a bounded read returns is the whole file.
  abbrev pub Read : Bytes → W → Result Bytes × W → Type 0
  Read path w (ok bytes, w') = (content path w ≡ some bytes) × Same content w w'
  Read path w (err e, w') = Same content w w'
  Read path w (fault, w') = Same content w w'
  Read path w (out_of_fuel, w') = Same content w w'

  ended-Read :
      (path : Bytes) (w w₁ : W) (input : Input) (chunks : Result Bytes)
      → Reads content path w (ok input, w₁)
      → ((all : Bytes) → chunks ≡ ok all → all ≡ flatten input.chunks)
      → Read path w (and_then (chunks, w₁) λ bytes w₂. (until_end input.at_end bytes, w₂))
  ended-Read path w w₁ input (ok bytes) (whole, same) e = elim (Bool-cases input.at_end) [
    | inl ended ↦ rw ended (whole ended ∙ ap some (sym (e bytes refl)), same)
    | inr broken ↦ rw broken same
  ]
  ended-Read path w w₁ input (err x) (whole, same) e = same
  ended-Read path w w₁ input fault (whole, same) e = same
  ended-Read path w w₁ input out_of_fuel (whole, same) e = same

  chunked-Read :
      (path : Bytes) (max : ℕ) (w : W) (out : Result Input × W)
      → Reads content path w out
      → Read path w (
          and_then out λ input w₁.
            and_then
              (append_chunks max [] input.chunks, w₁)
              λ bytes w₂. (until_end input.at_end bytes, w₂))
  chunked-Read path max w (ok input, w₁) r =
      ended-Read path w w₁ input (append_chunks max [] input.chunks) r
        (append_chunks-flatten max [] input.chunks)
  chunked-Read path max w (err e, w₁) same = same
  chunked-Read path max w (fault, w₁) same = same
  chunked-Read path max w (out_of_fuel, w₁) same = same

  pub read_file_bytes-Read :
      (path : Bytes) (max : ℕ) (w : W) → Read path w (read_file_bytes system path max w)
  unfolding read_file_bytes
  read_file_bytes-Read path max w =
      chunked-Read path max w (system.read_input path w) (is.read_input path w)
