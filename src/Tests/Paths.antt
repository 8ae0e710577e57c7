-- ===== src/Tests/Paths.antt =====
-- The path parser and the member index at small inputs.
use Prim.Native.Char.{code}
use Prim.Native.String.{String}
use config_manager.Common.{
  ℕ, ◌≡◌, ◌≢◌, ◌↔◌, ◌⊎◌, refl, Bytes, bytes_eq, bytes_eq→eq, List, [], ◌∷◌, ◌++◌, any, ok, err,
  invalid_path, arith,
}
use config_manager.Path.{
  PathSegment, key, index, parse, parse_segments, parse_indices, parse_index, close_index,
  from_chars, after_segment,
}
use config_manager.Path.Span.{span}
use config_manager.Path.Grammar.{PathText}
use config_manager.Path.Laws.{parse_iff, parse_decides, parse-append_key}
use config_manager.Value.Index.{
  IndexedObject, set, put, contains, IsIndexed, set-put, contains-any, find_index,
}

abbrev codes : String → Bytes
codes String.[] = []
codes (String.◌∷◌ c s) = code c ∷ codes s

abbrev servers : List PathSegment
servers = key (codes "servers") ∷ index 10 ∷ index 0 ∷ key (codes "host") ∷ []

parse-servers : parse (codes "servers[10][0].host") ≡ ok servers
unfolding parse parse_segments parse_indices parse_index close_index from_chars after_segment span
parse-servers = refl

parse_leading_index : parse (codes "[0]") ≡ err invalid_path
unfolding parse parse_segments parse_indices parse_index close_index from_chars after_segment span
parse_leading_index = refl

parse_trailing_dot : parse (codes "a.") ≡ err invalid_path
unfolding parse parse_segments parse_indices parse_index close_index from_chars after_segment span
parse_trailing_dot = refl

parse_text_after_index : parse (codes "a[0]b") ≡ err invalid_path
unfolding parse parse_segments parse_indices parse_index close_index from_chars after_segment span
parse_text_after_index = refl

parse_largest_index :
    parse (codes "a[18446744073709551615]") ≡ ok (key (codes "a") ∷ index 18446744073709551615 ∷ [])
unfolding parse parse_segments parse_indices parse_index close_index from_chars after_segment span
parse_largest_index = refl

parse_index_overflow : parse (codes "a[18446744073709551616]") ≡ err invalid_path
unfolding parse parse_segments parse_indices parse_index close_index from_chars after_segment span
parse_index_overflow = refl

parse_iff_example :
    (parse (codes "servers[10][0].host") ≡ ok servers)
    ↔ PathText (codes "servers[10][0].host") servers
parse_iff_example = parse_iff (codes "servers[10][0].host") servers

parse_decides_example :
    ((segments : List PathSegment) × (parse (codes "a[x]") ≡ ok segments)
      × PathText (codes "a[x]") segments)
    ⊎ (parse (codes "a[x]") ≡ err invalid_path)
parse_decides_example = parse_decides (codes "a[x]")

parse_host : parse (codes "a[1]") ≡ ok (key (codes "a") ∷ index 1 ∷ [])
unfolding parse parse_segments parse_indices parse_index close_index from_chars after_segment span
parse_host = refl

host_ne_nil : codes "host" ≢ []
host_ne_nil e = cc

parse-append_key_example :
    parse (codes "a[1]" ++ b'.' ∷ codes "host")
    ≡ ok ((key (codes "a") ∷ index 1 ∷ []) ++ key (codes "host") ∷ [])
parse-append_key_example =
    parse-append_key (codes "a[1]") (codes "host") (key (codes "a") ∷ index 1 ∷ []) parse_host refl
      host_ne_nil

abbrev indexed : IndexedObject ℕ
indexed = record {
  members = (codes "a", 1) ∷ (codes "b", 2) ∷ [];
  index = (codes "b", 1) ∷ (codes "a", 0) ∷ [];
}

indexed-IsIndexed : IsIndexed indexed
unfolding find_index
indexed-IsIndexed k = ground (arith, bytes_eq→eq (codes "a") k, bytes_eq→eq (codes "b") k)

set-put_example :
    ((set (codes "a") 7 indexed).members ≡ put (codes "a") 7 indexed.members)
    × IsIndexed (set (codes "a") 7 indexed)
set-put_example = set-put (codes "a") 7 indexed indexed-IsIndexed

contains-any_example :
    contains indexed (codes "b") ≡ any (λ m. bytes_eq m.0 (codes "b")) indexed.members
contains-any_example = contains-any (codes "b") indexed indexed-IsIndexed
