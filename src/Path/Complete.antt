-- ===== src/Path/Complete.antt =====
-- ConfigPath::parse accepts all of the grammar.
use config_manager.Common.{
  ℕ, zero, suc, ◌<◌, ◌≡◌, ◌≢◌, refl, sym, ap, ◌∙◌, Bytes, Bool, true, false, List, [], ◌∷◌, ◌++◌,
  arith, length, all, ◌==◌, Result, ok, append_assoc, append-nil, lt→ltb, length-append,
}
use config_manager.Path.{
  PathSegment, key, index, is_digit, is_key_byte, is_empty, decimal, size_mod, from_chars,
  close_index, parse_index, parse_indices, after_segment, parse_segments, parse,
}
use config_manager.Path.Span.{span, span-append, stops}
use config_manager.Path.Grammar.{IndexText, end, next, PathText, last, more}

is_empty_of_ne_nil {ℓ} : {A : Type ℓ} (a : List A) → a ≢ [] → is_empty a ≡ false
is_empty_of_ne_nil [] h = absurd (h refl)
is_empty_of_ne_nil (x ∷ a) h = refl

abbrev opens : ℕ → Bool
opens c = c == b'['

parse_index-digits :
    (ds u : Bytes)
    → all is_digit ds ≡ true
    → ds ≢ []
    → decimal 0 ds < size_mod
    → parse_index (ds ++ b']' ∷ u) ≡ ok (decimal 0 ds, u)
unfolding parse_index close_index from_chars
parse_index-digits ds u digits some_digit small =
    rw
      (
        span-append is_digit ds (b']' ∷ u) digits refl,
        is_empty_of_ne_nil ds some_digit,
        lt→ltb _ _ small,
      )
      refl

parse_indices-stop :
    (fuel : ℕ) (r : Bytes) → stops opens r ≡ true → parse_indices (suc fuel) r ≡ ok ([], r)
unfolding parse_indices
parse_indices-stop fuel [] h = refl
parse_indices-stop fuel (c ∷ r) h = ground arith

parse_indices-next :
    (fuel : ℕ) (ds u r : Bytes) (is : List PathSegment)
    → parse_index (ds ++ b']' ∷ u) ≡ ok (decimal 0 ds, u)
    → parse_indices fuel u ≡ ok (is, r)
    → parse_indices (suc fuel) (b'[' ∷ ds ++ b']' ∷ u) ≡ ok (index (decimal 0 ds) ∷ is, r)
unfolding parse_indices
parse_indices-next fuel ds u r is one two = rw (one, two) refl

parse_indices_complete :
    (fuel : ℕ) {it : Bytes} {is : List PathSegment}
    → IndexText it is
    → (r : Bytes) → stops opens r ≡ true
    → length it < fuel
    → parse_indices fuel (it ++ r) ≡ ok (is, r)
parse_indices_complete zero ix r h room = absurd (omega arith)
parse_indices_complete (suc fuel) end r h room = parse_indices-stop fuel r h
parse_indices_complete (suc fuel) (next {is} ds u digits some_digit small ix et) r h room =
    rw (et, append_assoc)
      (parse_indices-next fuel ds (u ++ r) r is
        (parse_index-digits ds (u ++ r) digits some_digit small)
        (parse_indices_complete fuel ix r h
          (omega (arith, ap length et, length-append {0} ds (b']' ∷ u)))))

stops-IndexText :
    {it : Bytes} {is : List PathSegment} → IndexText it is → stops is_key_byte it ≡ true
stops-IndexText end = refl
stops-IndexText (next ds r digits some_digit small ix et) = rw et refl

stops-IndexText_append :
    {it : Bytes} {is : List PathSegment} (r : Bytes)
    → IndexText it is
    → stops is_key_byte (it ++ b'.' ∷ r) ≡ true
stops-IndexText_append r end = refl
stops-IndexText_append r (next ds u digits some_digit small ix et) = rw et refl

parse_segments-step :
    (fuel : ℕ) (t k u r : Bytes) (is : List PathSegment)
    → span is_key_byte t ≡ (k, u)
    → k ≢ []
    → parse_indices (suc (length t)) u ≡ ok (is, r)
    → parse_segments (suc fuel) t ≡ after_segment (λ v. parse_segments fuel v) (key k ∷ is) r
unfolding parse_segments
parse_segments-step fuel t k u r is split some_key found =
    rw (split, is_empty_of_ne_nil k some_key, found) refl

after_segment-dot :
    (continue : Bytes → Result (List PathSegment)) (segments rest : List PathSegment) (r : Bytes)
    → continue r ≡ ok rest
    → after_segment continue segments (b'.' ∷ r) ≡ ok (segments ++ rest)
unfolding after_segment
after_segment-dot continue segments rest r e = rw e refl

parse_segments_complete :
    (fuel : ℕ) {t : Bytes} {segments : List PathSegment}
    → PathText t segments
    → length t < fuel
    → parse_segments fuel t ≡ ok segments
unfolding after_segment
parse_segments_complete zero p room = absurd (omega arith)
parse_segments_complete (suc fuel) {t} {segments} (last k it is plain some_key ix et es) room =
    parse_segments-step fuel t k it [] is
      (rw et (span-append is_key_byte k it plain (stops-IndexText ix))) some_key
      (rw (append-nil it) at (
        parse_indices_complete (suc (length t)) ix [] refl
          (omega (arith, ap length et, length-append {0} k it))))
    ∙ rw es refl
parse_segments_complete (suc fuel) {t} {segments} (more k it r is rest plain some_key ix p et es)
      room =
    parse_segments-step fuel t k (it ++ b'.' ∷ r) (b'.' ∷ r) is
      (rw et (span-append is_key_byte k _ plain (stops-IndexText_append r ix))) some_key
      (parse_indices_complete (suc (length t)) ix (b'.' ∷ r) refl (
        omega (
          arith,
          ap length et,
          length-append {0} k (it ++ b'.' ∷ r),
          length-append {0} it (b'.' ∷ r),
        )))
    ∙ after_segment-dot (λ v. parse_segments fuel v) (key k ∷ is) rest r
        (parse_segments_complete fuel p (
          omega (
            arith,
            ap length et,
            length-append {0} k (it ++ b'.' ∷ r),
            length-append {0} it (b'.' ∷ r),
          )))
    ∙ ap ok (sym es)

PathText-ne_nil : {t : Bytes} {segments : List PathSegment} → PathText t segments → t ≢ []
PathText-ne_nil (last [] it is plain some_key ix et es) e = some_key refl
PathText-ne_nil (last (c ∷ k) it is plain some_key ix et es) e = cc
PathText-ne_nil (more [] it r is rest plain some_key ix p et es) e = some_key refl
PathText-ne_nil (more (c ∷ k) it r is rest plain some_key ix p et es) e = cc

pub parse_of_PathText :
    {t : Bytes} {segments : List PathSegment} → PathText t segments → parse t ≡ ok segments
unfolding parse
parse_of_PathText {t} p =
    rw (is_empty_of_ne_nil t (PathText-ne_nil p))
      (parse_segments_complete (suc (length t)) p (omega arith))
