-- ===== src/Checkpoint/Atomic.antt =====
-- A destination is replaced as a whole: the temporary file beside it takes all the bytes first.
pub mod Suffix
pub mod Settles
pub mod Replace
pub mod Commit
pub mod Capture
pub mod Read
use config_manager.Common.{
  ℕ, zero, suc, ◌≡◌, refl, sym, ap, ◌∙◌, Bytes, [], ◌∷◌, ◌++◌, append_assoc, append-nil, Option,
  some, Result, ok, err, fault, out_of_fuel,
}
use config_manager.Checkpoint.Host.{Io, and_then, System, Written, wrote, interrupted, write_failed}
use config_manager.Checkpoint.Sort.Split.{take}
use config_manager.Checkpoint.Storage.{Same, Off, Writes, IsFileSystem}
use config_manager.Checkpoint.Files.{
  drop, after_write, write_all, close_after, or_remove, fill_candidate,
}

module _ {W H : Type 0} (system : System W H) (content : Bytes → W → Option Bytes)
    (file_of : H → Bytes) (is : IsFileSystem system content file_of) where
  -- What writing the bytes to a file that holds `c` leaves.
  abbrev pub Wrote : Bytes → Bytes → Bytes → W → Result (Unit {0}) × W → Type 0
  Wrote path c bytes w (ok _, w') = (content path w' ≡ some (c ++ bytes)) × Off content path w w'
  Wrote path c bytes w (err e, w') = Off content path w w'
  Wrote path c bytes w (fault, w') = Off content path w w'
  Wrote path c bytes w (out_of_fuel, w') = Off content path w w'

  take-drop : (n : ℕ) (bytes : Bytes) → (take n bytes ++ drop n bytes) ≡ bytes
  take-drop zero bytes = refl
  take-drop (suc n) [] = refl
  take-drop (suc n) (b ∷ bytes) = ap (◌∷◌ b) (take-drop n bytes)

  Off-trans :
      (path : Bytes) (w w₁ w₂ : W)
      → Off content path w w₁
      → Off content path w₁ w₂
      → Off content path w w₂
  Off-trans path w w₁ w₂ f g q ne = g q ne ∙ f q ne

  -- The outcome from a later world, where only the file has changed until then.
  Wrote-later :
      (path c bytes c₁ bytes₁ : Bytes) (w w₁ : W) (out : Result (Unit {0}) × W)
      → Off content path w w₁
      → (c₁ ++ bytes₁) ≡ (c ++ bytes)
      → Wrote path c₁ bytes₁ w₁ out
      → Wrote path c bytes w out
  Wrote-later path c bytes c₁ bytes₁ w w₁ (ok _, w') f e (h, g) =
      (h ∙ ap some e, Off-trans path w w₁ w' f g)
  Wrote-later path c bytes c₁ bytes₁ w w₁ (err x, w') f e g = Off-trans path w w₁ w' f g
  Wrote-later path c bytes c₁ bytes₁ w w₁ (fault, w') f e g = Off-trans path w w₁ w' f g
  Wrote-later path c bytes c₁ bytes₁ w w₁ (out_of_fuel, w') f e g = Off-trans path w w₁ w' f g

  abbrev Continues : ℕ → H → Type 0
  Continues fuel h =
      (bytes c : Bytes) (w : W)
      → content (file_of h) w ≡ some c
      → Wrote (file_of h) c bytes w (write_all system fuel h bytes w)

  after_write-Wrote :
      (fuel : ℕ) (h : H) (bytes c : Bytes) (w : W) (out : Written × W)
      → Continues fuel h
      → content (file_of h) w ≡ some c
      → Writes content (file_of h) bytes w out
      → Wrote (file_of h) c bytes w (after_write (write_all system fuel h) bytes out)
  after_write-Wrote fuel h bytes c w (wrote zero, w') go there (n, k, off) = off
  after_write-Wrote fuel h bytes c w (wrote (suc n), w') go there (le, k, off) =
      Wrote-later (file_of h) c bytes (c ++ take (suc n) bytes) (drop (suc n) bytes) w w' _ off
        (append_assoc c _ _ ∙ ap (λ x. c ++ x) (take-drop (suc n) bytes))
        (go (drop (suc n) bytes) (c ++ take (suc n) bytes) w' (k c there))
  after_write-Wrote fuel h bytes c w (interrupted, w') go there same =
      Wrote-later (file_of h) c bytes c bytes w w' _ (λ q ne. same q) refl
        (go bytes c w' (same (file_of h) ∙ there))
  after_write-Wrote fuel h bytes c w (write_failed, w') go there same = λ q ne. same q

  pub write_all-Wrote : (fuel : ℕ) (h : H) → Continues fuel h
  unfolding write_all
  write_all-Wrote fuel h [] c w there = (there ∙ ap some (sym (append-nil c)), λ q ne. refl)
  write_all-Wrote zero h (b ∷ bytes) c w there = λ q ne. refl
  write_all-Wrote (suc fuel) h (b ∷ bytes) c w there =
      after_write-Wrote fuel h (b ∷ bytes) c w (system.write h (b ∷ bytes) w)
        (write_all-Wrote fuel h) there (is.write h (b ∷ bytes) w)

  -- A further call that changes no contents.
  and_then-Wrote :
      (path c bytes : Bytes) (w : W) (out : Result (Unit {0}) × W)
      (next : Unit {0} → Io W (Unit {0}))
      → ((w₁ : W) → Same content w₁ (next tt w₁).1)
      → Wrote path c bytes w out
      → Wrote path c bytes w (and_then out next)
  and_then-Wrote path c bytes w (ok _, w₁) next keeps (h, off) = kept (next tt w₁) (keeps w₁)
    where
      kept : (o : Result (Unit {0}) × W) → Same content w₁ o.1 → Wrote path c bytes w o
      kept (ok _, w₂) same = (same path ∙ h, λ q ne. same q ∙ off q ne)
      kept (err e, w₂) same = λ q ne. same q ∙ off q ne
      kept (fault, w₂) same = λ q ne. same q ∙ off q ne
      kept (out_of_fuel, w₂) same = λ q ne. same q ∙ off q ne
  and_then-Wrote path c bytes w (err e, w₁) next keeps off = off
  and_then-Wrote path c bytes w (fault, w₁) next keeps off = off
  and_then-Wrote path c bytes w (out_of_fuel, w₁) next keeps off = off

  close_after-Wrote :
      (path c bytes : Bytes) (h : H) (w : W) (out : Result (Unit {0}) × W)
      → Wrote path c bytes w out
      → Wrote path c bytes w (close_after system h out)
  close_after-Wrote path c bytes h w (ok _, w₁) o =
      and_then-Wrote path c bytes w (ok tt, w₁) (λ _. system.close h) (is.close h) o
  close_after-Wrote path c bytes h w (err e, w₁) off = λ q ne. is.close h w₁ q ∙ off q ne
  close_after-Wrote path c bytes h w (fault, w₁) off = λ q ne. is.close h w₁ q ∙ off q ne
  close_after-Wrote path c bytes h w (out_of_fuel, w₁) off = λ q ne. is.close h w₁ q ∙ off q ne

  or_remove-Wrote :
      (path c bytes : Bytes) (w : W) (out : Result (Unit {0}) × W)
      → Wrote path c bytes w out
      → Wrote path c bytes w (or_remove system path out)
  or_remove-Wrote path c bytes w (ok _, w₁) o = o
  or_remove-Wrote path c bytes w (err e, w₁) off = λ q ne. is.remove path w₁ q ne ∙ off q ne
  or_remove-Wrote path c bytes w (fault, w₁) off = λ q ne. is.remove path w₁ q ne ∙ off q ne
  or_remove-Wrote path c bytes w (out_of_fuel, w₁) off = λ q ne. is.remove path w₁ q ne ∙ off q ne

  -- The candidate is returned with all the bytes in it, or an error, and no other file has changed.
  abbrev pub Filled : Bytes → Bytes → W → Result Bytes × W → Type 0
  Filled path bytes w (ok p, w') =
      (p ≡ path) × (content path w' ≡ some bytes) × Off content path w w'
  Filled path bytes w (err e, w') = Off content path w w'
  Filled path bytes w (fault, w') = Off content path w w'
  Filled path bytes w (out_of_fuel, w') = Off content path w w'

  Wrote-Filled :
      (path bytes : Bytes) (w : W) (out : Result (Unit {0}) × W)
      → Wrote path [] bytes w out
      → Filled path bytes w (and_then out λ _ w₁. (ok path, w₁))
  Wrote-Filled path bytes w (ok _, w₁) (h, off) = (refl, h, off)
  Wrote-Filled path bytes w (err e, w₁) off = off
  Wrote-Filled path bytes w (fault, w₁) off = off
  Wrote-Filled path bytes w (out_of_fuel, w₁) off = off

  pub fill_candidate-Filled :
      (fuel : ℕ) (h : H) (mode : ℕ) (bytes : Bytes) (w : W)
      → content (file_of h) w ≡ some []
      → Filled (file_of h) bytes w (fill_candidate system fuel h mode bytes (file_of h) w)
  unfolding fill_candidate
  fill_candidate-Filled fuel h mode bytes w empty = Wrote-Filled (file_of h) bytes w _ (
      or_remove-Wrote (file_of h) [] bytes w _ (
        close_after-Wrote (file_of h) [] bytes h w _ (
          and_then-Wrote (file_of h) [] bytes w (write_all system fuel h bytes w)
            (λ _. system.fchmod h mode) (is.fchmod h mode)
            (write_all-Wrote fuel h bytes [] w empty))))
