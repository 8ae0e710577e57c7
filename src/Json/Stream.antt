-- ===== src/Json/Stream.antt =====
-- readBounded of backends/json/src/json_interface.cpp, under the handlers of JsonInterface::load,
-- which make an exception a ParseError. The stream buffer is what `sgetn` gives, one call after the
-- other: a chunk, or an exception. What is left in the buffer afterwards is not modelled.
use config_manager.Common.{
  ℕ, ◌-◌, ltb, Bytes, Bool, true, ◌&&◌, ◌||◌, if◌then◌else◌, List, [], ◌∷◌, ◌++◌, Option, none,
  some, length, Result, ok, err, parse_error,
}
use config_manager.Path.{is_empty}
use config_manager.Catalog.{Called, returned, threw_exception, threw_other}

-- std::ios_base::iostate
pub record IoState : Type 0 where
  pub eofbit : Bool
  pub failbit : Bool
  pub badbit : Bool

-- `exceptions` is the stream's exception mask; a stream without a buffer has none.
pub record Istream : Type 0 where
  pub rdbuf : Option (List (Called Bytes))
  pub rdstate : IoState
  pub exceptions : IoState

abbrev pub at_end : IoState → IoState
at_end state = record state { eofbit = true }

-- A state with a bit of the exception mask makes `clear` throw std::ios_base::failure, after it has
-- set the state.
abbrev pub raises : IoState → IoState → Bool
raises mask state =
    (mask.eofbit && state.eofbit)
    || (mask.failbit && state.failbit)
    || (mask.badbit && state.badbit)

-- The loop, after `bytes` have been read.
unfoldable pub read_chunks : ℕ → Bytes → List (Called Bytes) → Result Bytes
read_chunks max bytes [] = ok bytes
read_chunks max bytes (returned chunk ∷ chunks) =
    let rest = read_chunks max (bytes ++ chunk) chunks in
    if is_empty chunk
    then ok bytes
    else if ltb (max - length bytes) (length chunk)
    then err parse_error
    else rest
read_chunks max bytes (threw_exception ∷ chunks) = err parse_error
read_chunks max bytes (threw_other ∷ chunks) = err parse_error

-- `in.clear(in.rdstate() | eofbit)` once the loop has ended well.
abbrev pub clear : Result Bytes → Istream → Result Bytes × IoState
clear (ok bytes) input =
    let state = at_end input.rdstate in
    (if raises input.exceptions state then err parse_error else ok bytes, state)
clear failure input = (failure, input.rdstate)

abbrev read_buffer : Option (List (Called Bytes)) → ℕ → Result Bytes
read_buffer none max = err parse_error
read_buffer (some chunks) max = read_chunks max [] chunks

-- The bytes and the stream's state afterwards.
unfoldable pub read_bounded : Istream → ℕ → Result Bytes × IoState
unfolding read_chunks
read_bounded input max = clear (read_buffer input.rdbuf max) input
