-- ===== src/Path/Laws.antt =====
-- What ConfigPath::parse computes, and how paths are put together.
use config_manager.Common.{
  ◌≡◌, ◌≢◌, ◌⊎◌, inl, inr, ◌↔◌, refl, sym, Bytes, true, List, [], ◌∷◌, ◌++◌, all, ok, err,
  append_assoc, append-nil, invalid_path,
}
use config_manager.Path.{PathSegment, key, is_key_byte, parse}
use config_manager.Path.Grammar.{end, PathText, last, more}
use config_manager.Path.Sound.{parse-PathText}
use config_manager.Path.Complete.{parse_of_PathText}
use config_manager.Path.Total.{parse_total}

-- The parser returns the segments of a text exactly when the grammar derives them from it.
pub parse_iff :
    (t : Bytes) (segments : List PathSegment) → (parse t ≡ ok segments) ↔ PathText t segments
parse_iff t segments = (parse-PathText t segments, parse_of_PathText)

-- Every text is parsed to an end, with the loops' fuel never used up: either the grammar derives
-- some segments from it, which the parser returns, or the parser fails with InvalidPath.
pub parse_decides :
    (t : Bytes)
    → ((segments : List PathSegment) × (parse t ≡ ok segments) × PathText t segments)
      ⊎ (parse t ≡ err invalid_path)
parse_decides t = elim (parse_total t) [
  | inl (segments, e) ↦ inl (segments, e, parse-PathText t segments e)
  | inr e ↦ inr e
]

PathText-append_key :
    {t : Bytes} {segments : List PathSegment} (k : Bytes)
    → all is_key_byte k ≡ true
    → k ≢ []
    → PathText t segments
    → PathText (t ++ b'.' ∷ k) (segments ++ key k ∷ [])
PathText-append_key k plain some_key (last j it is p s ix et es) =
    more j it k is (key k ∷ []) p s ix (last k [] [] plain some_key end (sym (append-nil k)) refl)
      (rw (et, append_assoc) refl) (rw es refl)
PathText-append_key k plain some_key (more j it r is rest p s ix q et es) =
    more j it (r ++ b'.' ∷ k) is (rest ++ key k ∷ []) p s ix
      (PathText-append_key k plain some_key q) (rw (et, append_assoc, append_assoc) refl)
      (rw (es, append_assoc) refl)

-- A key that has no reserved byte and is not empty is a path of its own.
pub parse_key : (k : Bytes) → all is_key_byte k ≡ true → k ≢ [] → parse k ≡ ok (key k ∷ [])
parse_key k plain some_key =
    parse_of_PathText (last k [] [] plain some_key end (sym (append-nil k)) refl)

-- Where a text is a path and `k` is a key that has no reserved byte and is not empty, the text
-- with "." and `k` behind it is the path with one key segment more.
pub parse-append_key :
    (t k : Bytes) (segments : List PathSegment)
    → parse t ≡ ok segments
    → all is_key_byte k ≡ true
    → k ≢ []
    → parse (t ++ b'.' ∷ k) ≡ ok (segments ++ key k ∷ [])
parse-append_key t k segments e plain some_key =
    parse_of_PathText (PathText-append_key k plain some_key (parse-PathText t segments e))
