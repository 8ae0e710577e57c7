-- ===== src/Path/Total.antt =====
-- ConfigPath::parse ends within its fuel, and fails with InvalidPath only.
use config_manager.Common.{
  ℕ, zero, suc, ◌<◌, ◌≤◌, ◌≡◌, ◌⊎◌, inl, inr, refl, Bytes, Bool, true, false, List, [], ◌∷◌, arith,
  length, ltb, ◌==◌, Result, ok, err, out_of_fuel, fault, invalid_path, ◌>>=◌, if◌then◌else◌,
}
use config_manager.Path.{
  PathSegment, is_digit, is_key_byte, is_empty, decimal, size_mod, from_chars, close_index,
  parse_index, parse_indices, after_segment, parse_segments, parse,
}
use config_manager.Path.Span.{span, length-span}

-- A run that succeeds with a value in `P`, or fails with InvalidPath.
abbrev Settles : {A : Type 0} → (A → Type 0) → Result A → Type 0
Settles P (ok a) = P a
Settles P (err invalid_path) = Unit {0}
Settles P (err _) = ⊥
Settles P fault = ⊥
Settles P out_of_fuel = ⊥

Settles-bind :
    {A B : Type 0} (P : A → Type 0) (Q : B → Type 0) (m : Result A) (f : A → Result B)
    → Settles P m
    → ((a : A) → P a → Settles Q (f a))
    → Settles Q (m >>= f)
Settles-bind P Q (ok a) f h k = k a h
Settles-bind P Q (err invalid_path) f h k = h
Settles-bind P Q (err _) f h k = absurd h
Settles-bind P Q fault f h k = absurd h
Settles-bind P Q out_of_fuel f h k = absurd h

Settles-if :
    {A : Type 0} (P : A → Type 0) (b : Bool) (m n : Result A)
    → Settles P m
    → Settles P n
    → Settles P (if b then m else n)
Settles-if P true m n hm hn = hm
Settles-if P false m n hm hn = hn

Settles-mono :
    {A : Type 0} (P Q : A → Type 0) (m : Result A)
    → Settles P m
    → ((a : A) → P a → Q a)
    → Settles Q m
Settles-mono P Q (ok a) h k = k a h
Settles-mono P Q (err invalid_path) h k = h
Settles-mono P Q (err _) h k = absurd h
Settles-mono P Q fault h k = absurd h
Settles-mono P Q out_of_fuel h k = absurd h

abbrev NotLonger : {A : Type 0} → Bytes → A × Bytes → Type 0
NotLonger t x = length x.1 ≤ length t

from_chars-Settles : (ds : Bytes) → Settles (λ _. Unit {0}) (from_chars ds)
unfolding from_chars
from_chars-Settles ds = Settles-if _ (ltb (decimal 0 ds) size_mod) _ _ tt tt

close_index-Settles : (ds t : Bytes) → Settles (NotLonger t) (close_index ds t)
unfolding close_index
close_index-Settles ds [] = tt
close_index-Settles ds (c ∷ r) =
    Settles-if _ (c == b']') _ _
      (Settles-bind _ _ (from_chars ds) _ (from_chars-Settles ds) (λ n _. omega arith)) tt

parse_index-Settles : (t : Bytes) → Settles (NotLonger t) (parse_index t)
unfolding parse_index
parse_index-Settles t = Settles-if _ (is_empty (span is_digit t).0) _ _ tt (
    Settles-mono (NotLonger (span is_digit t).1) (NotLonger t)
      (close_index (span is_digit t).0 (span is_digit t).1)
      (close_index-Settles (span is_digit t).0 (span is_digit t).1)
      (λ x h. omega (arith, length-span is_digit t)))

parse_indices-Settles :
    (fuel : ℕ) (t : Bytes) → length t < fuel → Settles (NotLonger t) (parse_indices fuel t)
unfolding parse_indices
parse_indices-Settles zero t room = absurd (omega arith)
parse_indices-Settles (suc fuel) [] room = omega arith
parse_indices-Settles (suc fuel) (c ∷ t) room =
    Settles-if _ (c == b'[') _ _
      (Settles-bind _ _ (parse_index t) _ (parse_index-Settles t) λ first h.
        Settles-bind _ _ (parse_indices fuel first.1) _
          (parse_indices-Settles fuel first.1 (omega arith)) (λ others k. omega arith))
      (omega arith)

after_segment-Settles :
    (continue : Bytes → Result (List PathSegment)) (segments : List PathSegment) (r : Bytes)
    → ((u : Bytes) → length u < length r → Settles (λ _. Unit {0}) (continue u))
    → Settles (λ _. Unit {0}) (after_segment continue segments r)
unfolding after_segment
after_segment-Settles continue segments [] ih = tt
after_segment-Settles continue segments (c ∷ r) ih =
    Settles-if _ (c == b'.') _ _ (Settles-bind _ _ (continue r) _ (ih r (omega arith)) (λ _ _. tt))
      tt

parse_segments-Settles :
    (fuel : ℕ) (t : Bytes) → length t < fuel → Settles (λ _. Unit {0}) (parse_segments fuel t)
unfolding parse_segments
parse_segments-Settles zero t room = absurd (omega arith)
parse_segments-Settles (suc fuel) t room = Settles-if _ (is_empty (span is_key_byte t).0) _ _ tt (
    Settles-bind _ _ (parse_indices (suc (length t)) (span is_key_byte t).1) _
      (parse_indices-Settles (suc (length t)) (span is_key_byte t).1
        (omega (arith, length-span is_key_byte t)))
      λ found h.
        after_segment-Settles _ _ found.1
          λ u shorter. parse_segments-Settles fuel u (omega (arith, length-span is_key_byte t)))

Settles-cases :
    {A : Type 0} (P : A → Type 0) (m : Result A)
    → Settles P m
    → ((a : A) × (m ≡ ok a)) ⊎ (m ≡ err invalid_path)
Settles-cases P (ok a) h = inl (a, refl)
Settles-cases P (err invalid_path) h = inr refl
Settles-cases P (err _) h = absurd h
Settles-cases P fault h = absurd h
Settles-cases P out_of_fuel h = absurd h

pub parse_total :
    (t : Bytes)
    → ((segments : List PathSegment) × (parse t ≡ ok segments)) ⊎ (parse t ≡ err invalid_path)
unfolding parse
parse_total t =
    Settles-cases (λ _. Unit {0}) (parse t)
      (Settles-if _ (is_empty t) _ _ tt (parse_segments-Settles (suc (length t)) t (omega arith)))
