-- ===== src/Path/Sound.antt =====
-- What ConfigPath::parse accepts is in the grammar.
use config_manager.Common.{
  ℕ, zero, suc, ◌<◌, ◌≡◌, ◌≢◌, refl, sym, ap, ◌∙◌, Bytes, true, false, List, [], ◌∷◌, ◌++◌, arith,
  length, all, ◌==◌, Bool-cases, inl, inr, Result, ok, bind_ok, append_assoc, append-nil, ==_iff,
}
use config_manager.Path.{
  PathSegment, key, index, is_digit, is_key_byte, is_empty, decimal, size_mod, from_chars,
  close_index, parse_index, parse_indices, after_segment, parse_segments, parse,
}
use config_manager.Path.Span.{span, append-span, all-span}
use config_manager.Path.Grammar.{IndexText, end, next, PathText, last, more}

ne_nil_of_is_empty : (a : Bytes) → is_empty a ≡ false → a ≢ []
ne_nil_of_is_empty a h e = cc

from_chars-ok :
    (ds : Bytes) {n : ℕ} → from_chars ds ≡ ok n → (decimal 0 ds < size_mod) × (n ≡ decimal 0 ds)
unfolding from_chars
from_chars-ok ds h = ground arith

close_index-ok :
    (ds t : Bytes) {n : ℕ} {r : Bytes}
    → close_index ds t ≡ ok (n, r)
    → (t ≡ b']' ∷ r) × (from_chars ds ≡ ok n)
unfolding close_index
close_index-ok ds [] h = cc
close_index-ok ds (c ∷ t) h = ground arith

-- What one index's text is.
abbrev IndexBody : Bytes → ℕ → Bytes → Bytes → Type 0
IndexBody t n r ds =
    (all is_digit ds ≡ true)
    × (ds ≢ [])
    × (decimal 0 ds < size_mod)
    × (n ≡ decimal 0 ds)
    × (t ≡ ds ++ b']' ∷ r)

parse_index-ok :
    (t : Bytes) {n : ℕ} {r : Bytes} → parse_index t ≡ ok (n, r) → (ds : Bytes) × IndexBody t n r ds
unfolding parse_index
parse_index-ok t {n} {r} h = elim (Bool-cases (is_empty (span is_digit t).0)) [
  | inl e ↦ absurd (ground arith)
  | inr e ↦
      let closed : close_index (span is_digit t).0 (span is_digit t).1 ≡ ok (n, r) = rw e at h in
      let (rest, value) = close_index-ok (span is_digit t).0 (span is_digit t).1 closed in
      let (small, same) = from_chars-ok (span is_digit t).0 value in
      (
        (span is_digit t).0,
        (
          all-span is_digit t,
          ne_nil_of_is_empty _ e,
          small,
          same,
          sym (append-span is_digit t) ∙ ap (λ u. (span is_digit t).0 ++ u) rest,
        ),
      )
]

IndicesBody : Bytes → List PathSegment → Bytes → Type 0
IndicesBody t is r = (it : Bytes) × IndexText it is × (t ≡ it ++ r)

IndicesBody-stop :
    (t : Bytes) {is : List PathSegment} (r : Bytes) → is ≡ [] → r ≡ t → IndicesBody t is r
unfolding IndicesBody
IndicesBody-stop t r es er = ([], rw es end, sym er)

IndicesBody-next :
    (c : ℕ) (t : Bytes) {n : ℕ} {u : Bytes} (r : Bytes) {is is' : List PathSegment} {r' : Bytes}
    → c ≡ b'['
    → ((ds : Bytes) × IndexBody t n u ds)
    → IndicesBody u is r'
    → is' ≡ index n ∷ is
    → r ≡ r'
    → IndicesBody (c ∷ t) is' r
unfolding IndicesBody
IndicesBody-next c t r ec (ds, (digits, some_digit, small, en, et)) (it, rest, eu) es er = (
  b'[' ∷ ds ++ b']' ∷ it,
  rw (es, en) (next ds it digits some_digit small rest refl),
  rw (ec, et, eu, er, append_assoc) refl,
)

parse_indices-ok :
    (fuel : ℕ) (t : Bytes) {is : List PathSegment} {r : Bytes}
    → parse_indices fuel t ≡ ok (is, r)
    → IndicesBody t is r
unfolding parse_indices
parse_indices-ok zero t h = cc
parse_indices-ok (suc fuel) [] {r} h = IndicesBody-stop [] r (ground arith) (ground arith)
parse_indices-ok (suc fuel) (c ∷ t) {is} {r} h = elim (Bool-cases (c == b'[')) [
  | inl e ↦ bind_ok (parse_index t) _ (rw e at h) λ first one h'.
      bind_ok (parse_indices fuel first.1) _ h' λ others two h''.
        IndicesBody-next c t r ((==_iff c b'[').0 e) (parse_index-ok t one)
          (parse_indices-ok fuel first.1 two) (ground arith) (ground arith)
  | inr e ↦ IndicesBody-stop (c ∷ t) r (ground arith) (ground arith)
]

-- How a segment ends.
data SegmentEnd (continue : Bytes → Result (List PathSegment)) (segments : List PathSegment)
    (r : Bytes) (out : List PathSegment) : Type 0 where
  at_end : r ≡ [] → out ≡ segments → SegmentEnd continue segments r out
  at_dot :
      (u : Bytes) (more : List PathSegment)
      → r ≡ b'.' ∷ u
      → continue u ≡ ok more
      → out ≡ segments ++ more
      → SegmentEnd continue segments r out

after_segment-ok :
    (continue : Bytes → Result (List PathSegment)) (segments : List PathSegment) (r : Bytes)
    {out : List PathSegment}
    → after_segment continue segments r ≡ ok out
    → SegmentEnd continue segments r out
unfolding after_segment
after_segment-ok continue segments [] h = at_end refl (ground arith)
after_segment-ok continue segments (c ∷ r) h = elim (Bool-cases (c == b'.')) [
  | inl e ↦
      bind_ok (continue r) _ (rw e at h)
        λ rest one h'. at_dot r rest (ground arith) one (ground arith)
  | inr e ↦ absurd (ground arith)
]

PathText-of_end :
    (continue : Bytes → Result (List PathSegment)) {t k r : Bytes} {is out : List PathSegment}
    → ((u : Bytes) (rest : List PathSegment) → continue u ≡ ok rest → PathText u rest)
    → all is_key_byte k ≡ true
    → k ≢ []
    → (u : Bytes) → t ≡ k ++ u
    → IndicesBody u is r
    → SegmentEnd continue (key k ∷ is) r out
    → PathText t out
unfolding IndicesBody
PathText-of_end continue {k} {is} ih plain some_key u et (it, indices, eu) (at_end er eo) =
    last k it is plain some_key indices (rw (et, eu, er, append-nil) refl) eo
PathText-of_end continue {k} {is} ih plain some_key u et (it, indices, eu) (at_dot v rest er e eo) =
    more k it v is rest plain some_key indices (ih v rest e) (rw (et, eu, er) refl) eo

pub parse_segments-ok :
    (fuel : ℕ) (t : Bytes) (segments : List PathSegment)
    → parse_segments fuel t ≡ ok segments
    → PathText t segments
unfolding parse_segments
parse_segments-ok zero t segments h = cc
parse_segments-ok (suc fuel) t segments h = elim (Bool-cases (is_empty (span is_key_byte t).0)) [
  | inl e ↦ absurd (ground arith)
  | inr e ↦
      bind_ok (parse_indices (suc (length t)) (span is_key_byte t).1) _ (rw e at h) λ found one h'.
        PathText-of_end (λ u. parse_segments fuel u) (parse_segments-ok fuel)
          (all-span is_key_byte t) (ne_nil_of_is_empty _ e) (span is_key_byte t).1
          (sym (append-span is_key_byte t))
          (parse_indices-ok (suc (length t)) (span is_key_byte t).1 one)
          (after_segment-ok (λ u. parse_segments fuel u) _ found.1 h')
]

pub parse-PathText :
    (t : Bytes) (segments : List PathSegment) → parse t ≡ ok segments → PathText t segments
unfolding parse
parse-PathText t segments h = elim (Bool-cases (is_empty t)) [
  | inl e ↦ absurd (ground arith)
  | inr e ↦ parse_segments-ok (suc (length t)) t segments (rw e at h)
]
