-- ===== src/Tests/Documents.antt =====
-- Documents read from chunks and from the parser's events.
use config_manager.Common.{
  Bytes, bytes_eq, ◌≡◌, refl, true, false, List, [], ◌∷◌, some, arith, ok, err, parse_error,
}
use config_manager.Value.{contains_key, object, no_members, member, scalar, bool}
use config_manager.Json.{
  Event, start_object, end_object, key_event, number_unsigned, boolean, run, new_builder,
  ValueBuilder, version_key,
}
use config_manager.Catalog.{Called, returned, threw_exception}
use config_manager.Json.Stream.{IoState, at_end}
use config_manager.Json.Bounds.{after_read, until_empty}
use config_manager.Json.Limits.{IsWithin, run-IsWithin}

-- { "__version": 3, "a": true }
abbrev document : List Event
document =
    start_object
    ∷ key_event version_key
    ∷ number_unsigned 3
    ∷ key_event (b'a' ∷ [])
    ∷ boolean true
    ∷ end_object
    ∷ []

abbrev done : ValueBuilder
done = record {
  nodes = 2;
  stack = [];
  root = some (object (member (b'a' ∷ []) (scalar (bool true)) no_members));
  version = some 3;
  saw_version_key = true;
  next_is_carrier = false;
}

document-runs : run 2 document new_builder ≡ ok done
unfolding run bytes_eq contains_key
document-runs = refl

document-limited : run 1 document new_builder ≡ err parse_error
unfolding run bytes_eq contains_key
document-limited = refl

abbrev chunks : List (Called Bytes)
chunks = returned (1 ∷ 2 ∷ []) ∷ returned (3 ∷ []) ∷ returned [] ∷ threw_exception ∷ []

abbrev no_bits : IoState
no_bits = record { eofbit = false; failbit = false; badbit = false }

chunks-read :
    after_read 3 no_bits no_bits (until_empty chunks) ≡ (ok (1 ∷ 2 ∷ 3 ∷ []), at_end no_bits)
chunks-read = refl

new_builder-IsWithin : IsWithin 2 new_builder
new_builder-IsWithin = record {
  few = omega arith;
  counted = omega arith;
  shallow = tt;
  shallow_root = tt;
  fits = tt;
}

run-IsWithin_example : IsWithin 2 done
run-IsWithin_example = run-IsWithin 2 document new_builder done document-runs new_builder-IsWithin
