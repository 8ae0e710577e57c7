-- ===== src/Path/Span.antt =====
-- The inner scanning loops of ConfigPath::parse, `while (pos < size && p(text[pos])) ++pos`.
use config_manager.Common.{
  ℕ, ◌+◌, ◌≡◌, refl, Bytes, Bool, true, not, [], ◌∷◌, ◌++◌, arith, length, all, if◌then◌else◌,
}

unfoldable pub span : (ℕ → Bool) → Bytes → Bytes × Bytes
span p [] = ([], [])
span p (c ∷ t) = if p c then (c ∷ (span p t).0, (span p t).1) else ([], c ∷ t)

-- The first byte, if there is one, fails the test.
abbrev pub stops : (ℕ → Bool) → Bytes → Bool
stops p [] = true
stops p (c ∷ _) = not (p c)

module _ (p : ℕ → Bool) where
  pub append-span : (t : Bytes) → (span p t).0 ++ (span p t).1 ≡ t
  unfolding span
  append-span [] = refl
  append-span (c ∷ t) = ground (arith, append-span t)

  pub all-span : (t : Bytes) → all p (span p t).0 ≡ true
  unfolding span
  all-span [] = refl
  all-span (c ∷ t) = ground (arith, all-span t)

  pub stops-span : (t : Bytes) → stops p (span p t).1 ≡ true
  unfolding span
  stops-span [] = refl
  stops-span (c ∷ t) = ground (arith, stops-span t)

  pub span-append : (a b : Bytes) → all p a ≡ true → stops p b ≡ true → span p (a ++ b) ≡ (a, b)
  unfolding span
  span-append [] [] h k = refl
  span-append [] (c ∷ b) h k = ground arith
  span-append (c ∷ a) b h k = ground (arith, span-append a b)

  pub length-span : (t : Bytes) → length (span p t).0 + length (span p t).1 ≡ length t
  unfolding span
  length-span [] = omega arith
  length-span (c ∷ t) = ground (arith, length-span t)
