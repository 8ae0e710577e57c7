-- ===== src/Json/Bounds.antt =====
-- How many bytes JsonInterface::load reads.
use config_manager.Common.{
  ℕ, Bool, false, ◌-◌, ◌≤◌, ◌≡◌, refl, ◌∙◌, true, ltb, Bytes, Bool-cases, inl, inr, if◌then◌else◌,
  List, [], ◌∷◌, ◌++◌, append_assoc, append-nil, length, length-append, Option, none, some, arith,
  Result, ok, err, parse_error,
}
use config_manager.Catalog.{Called, returned, threw_exception, threw_other}
use config_manager.Json.Stream.{clear, Istream, IoState, at_end, raises, read_chunks, read_bounded}

abbrev preceded : Bytes → Option Bytes → Option Bytes
preceded chunk none = none
preceded chunk (some rest) = some (chunk ++ rest)

-- The chunks before the first that is empty, joined; none where an exception comes before it.
abbrev pub until_empty : List (Called Bytes) → Option Bytes
until_empty [] = some []
until_empty (returned [] ∷ chunks) = some []
until_empty (returned (c ∷ chunk) ∷ chunks) = preceded (c ∷ chunk) (until_empty chunks)
until_empty (threw_exception ∷ chunks) = none
until_empty (threw_other ∷ chunks) = none

-- What the loop makes of what is still to come.
abbrev bounded : ℕ → Bytes → Option Bytes → Result Bytes
bounded max bytes none = err parse_error
bounded max bytes (some rest) =
    if ltb max (length (bytes ++ rest)) then err parse_error else ok (bytes ++ rest)

bounded-preceded :
    (max : ℕ) (bytes chunk : Bytes) (rest : Option Bytes)
    → bounded max (bytes ++ chunk) rest ≡ bounded max bytes (preceded chunk rest)
bounded-preceded max bytes chunk none = refl
bounded-preceded max bytes chunk (some rest) = rw (append_assoc bytes chunk rest) refl

bounded-large :
    (max : ℕ) (bytes chunk : Bytes) (rest : Option Bytes)
    → ltb (max - length bytes) (length chunk) ≡ true
    → err parse_error ≡ bounded max bytes (preceded chunk rest)
bounded-large max bytes chunk none large = refl
bounded-large max bytes chunk (some rest) large =
    rw (length-append bytes (chunk ++ rest), length-append chunk rest) (ground arith)

read_chunks-bounded :
    (max : ℕ) (bytes : Bytes) (chunks : List (Called Bytes))
    → length bytes ≤ max
    → read_chunks max bytes chunks ≡ bounded max bytes (until_empty chunks)
unfolding read_chunks
read_chunks-bounded max bytes [] h = rw (append-nil bytes) (ground arith)
read_chunks-bounded max bytes (returned [] ∷ chunks) h = rw (append-nil bytes) (ground arith)
read_chunks-bounded max bytes (returned (c ∷ chunk) ∷ chunks) h =
    elim (Bool-cases (ltb (max - length bytes) (length (c ∷ chunk)))) [
      | inl large ↦ rw large (bounded-large max bytes (c ∷ chunk) (until_empty chunks) large)
      | inr fits ↦ rw fits (
          read_chunks-bounded max (bytes ++ c ∷ chunk) chunks
            (ground (arith, length-append bytes (c ∷ chunk)))
          ∙ bounded-preceded max bytes (c ∷ chunk) (until_empty chunks))
    ]
read_chunks-bounded max bytes (threw_exception ∷ chunks) h = refl
read_chunks-bounded max bytes (threw_other ∷ chunks) h = refl

-- What becomes of a stream in `state` with the exception mask `mask` that holds these bytes, or throws.
abbrev pub after_read : ℕ → IoState → IoState → Option Bytes → Result Bytes × IoState
after_read max state mask none = (err parse_error, state)
after_read max state mask (some bytes) =
    if ltb max (length bytes)
    then (err parse_error, state)
    else (if raises mask (at_end state) then err parse_error else ok bytes, at_end state)

clear-if :
    (large : Bool) (bytes : Bytes) (input : Istream)
    → clear (if large then err parse_error else ok bytes) input
      ≡ (if large then (err parse_error, input.rdstate) else clear (ok bytes) input)
clear-if true bytes input = refl
clear-if false bytes input = refl

clear-bounded :
    (max : ℕ) (input : Istream) (rest : Option Bytes)
    → clear (bounded max [] rest) input ≡ after_read max input.rdstate input.exceptions rest
clear-bounded max input none = refl
clear-bounded max input (some bytes) = clear-if (ltb max (length bytes)) bytes input

pub read_bounded-until_empty :
    (max : ℕ) (chunks : List (Called Bytes)) (state mask : IoState)
    → read_bounded (record { rdbuf = some chunks; rdstate = state; exceptions = mask }) max
      ≡ after_read max state mask (until_empty chunks)
unfolding read_bounded
read_bounded-until_empty max chunks state mask =
    rw (read_chunks-bounded max [] chunks (omega arith)) (
      clear-bounded max (record { rdbuf = some chunks; rdstate = state; exceptions = mask })
        (until_empty chunks))
