-- ===== src/Checkpoint/Atomic/Replace.antt =====
-- The temporary file is a new one, and the destination changes by the rename alone.
use config_manager.Common.{
  ℕ, zero, suc, ◌≡◌, ◌≢◌, ◌⊎◌, inl, inr, refl, sym, ap, ◌∙◌, Bytes, [], ◌∷◌, ◌++◌, length,
  length-append, Option, none, some, arith, Result, ok, err, fault, out_of_fuel, true,
}
use mathlib.Core.Path.{subst}
use config_manager.Checkpoint.{write_replacing}
use config_manager.Checkpoint.Host.{
  Io, and_then, Paths, System, Opened, opened, already_exists, open_failed, Stat, mode_of, absent,
  stat_failed,
}
use config_manager.Checkpoint.Storage.{Same, Off, Opens, Renames, IsFileSystem, IsPaths, no_slash}
use config_manager.Checkpoint.Files.{
  or_remove, fill_candidate, after_open, temporary_candidate, temporary_suffix, try_candidates,
  final_mode, write_temporary, replace_file,
}
use config_manager.Checkpoint.Atomic.{Filled, fill_candidate-Filled}
use config_manager.Checkpoint.Atomic.Suffix.{suffix_no_slash}

module _ {W : Type 0} (content : Bytes → W → Option Bytes) (destination : Bytes) where
  -- The destination and every file that was there are as they were.
  abbrev pub Kept : W → W → Type 0
  Kept w w' = (q : Bytes) → (q ≡ destination) ⊎ (content q w ≢ none) → content q w' ≡ content q w

  -- All the bytes are in a new file beside the destination, or nothing that was there has changed.
  abbrev pub Prepared : Bytes → W → Result Bytes × W → Type 0
  Prepared bytes w (ok p, w') =
      (p ≢ destination) × (content p w ≡ none) × (content p w' ≡ some bytes) × Off content p w w'
  Prepared bytes w (err e, w') = Kept w w'
  Prepared bytes w (fault, w') = Kept w w'
  Prepared bytes w (out_of_fuel, w') = Kept w w'

  -- The destination holds all the bytes and every other file that was there is as it was; or the
  -- destination too is as it was.
  abbrev pub Replaced : Bytes → W → Result (Unit {0}) × W → Type 0
  Replaced bytes w (ok _, w') =
      (content destination w' ≡ some bytes)
      × ((q : Bytes) → q ≢ destination → content q w ≢ none → content q w' ≡ content q w)
  Replaced bytes w (err e, w') = Kept w w'
  Replaced bytes w (fault, w') = Kept w w'
  Replaced bytes w (out_of_fuel, w') = Kept w w'

  Off-Kept :
      (p : Bytes) (w w' : W) → p ≢ destination → content p w ≡ none → Off content p w w' → Kept w w'
  Off-Kept p w w' ne new off q (inl e) = off q (λ same. ne (sym same ∙ e))
  Off-Kept p w w' ne new off q (inr there) =
      off q (λ same. there (subst (λ x. content x w ≡ none) (sym same) new))

  Kept-later : (w w₁ w₂ : W) → Same content w w₁ → Kept w₁ w₂ → Kept w w₂
  Kept-later w w₁ w₂ same k q (inl e) = k q (inl e) ∙ same q
  Kept-later w w₁ w₂ same k q (inr there) = k q (inr (λ e. there (sym (same q) ∙ e))) ∙ same q

  Prepared-later :
      (bytes : Bytes) (w w₁ : W) (out : Result Bytes × W)
      → Same content w w₁
      → Prepared bytes w₁ out
      → Prepared bytes w out
  Prepared-later bytes w w₁ (ok p, w') same (ne, new, full, off) =
      (ne, sym (same p) ∙ new, full, λ q other. off q other ∙ same q)
  Prepared-later bytes w w₁ (err e, w') same k = Kept-later w w₁ w' same k
  Prepared-later bytes w w₁ (fault, w') same k = Kept-later w w₁ w' same k
  Prepared-later bytes w w₁ (out_of_fuel, w') same k = Kept-later w w₁ w' same k

  pub Replaced-later :
      (bytes : Bytes) (w w₁ : W) (out : Result (Unit {0}) × W)
      → Same content w w₁
      → Replaced bytes w₁ out
      → Replaced bytes w out
  Replaced-later bytes w w₁ (ok _, w') same (full, others) =
      (full, λ q ne there. others q ne (λ e. there (sym (same q) ∙ e)) ∙ same q)
  Replaced-later bytes w w₁ (err e, w') same k = Kept-later w w₁ w' same k
  Replaced-later bytes w w₁ (fault, w') same k = Kept-later w w₁ w' same k
  Replaced-later bytes w w₁ (out_of_fuel, w') same k = Kept-later w w₁ w' same k

module _ {W H : Type 0} (paths : Paths) (system : System W H) (content : Bytes → W → Option Bytes)
    (file_of : H → Bytes) (lawful : IsPaths paths) (is : IsFileSystem system content file_of)
    (destination : Bytes) where
  join-ne :
      (parent suffix : Bytes)
      → no_slash suffix ≡ true
      → suffix ≢ []
      → paths.join parent (paths.filename destination ++ suffix) ≢ destination
  join-ne parent [] plain some_suffix e = some_suffix refl
  join-ne parent (s ∷ suffix) plain some_suffix e = omega (
    arith,
    length-append (paths.filename destination) (s ∷ suffix),
    ap length
        (sym (lawful.filename_join parent destination (s ∷ suffix) plain) ∙ ap paths.filename e),
  )

  Filled-Prepared :
      (path bytes : Bytes) (w w₁ : W) (out : Result Bytes × W)
      → path ≢ destination
      → content path w ≡ none
      → Off content path w w₁
      → Filled system content file_of is path bytes w₁ out
      → Prepared content destination bytes w out
  Filled-Prepared path bytes w w₁ (ok p, w') ne new off (e, full, off') =
      subst
        (λ x.
          (x ≢ destination)
          × (content x w ≡ none)
          × (content x w' ≡ some bytes)
          × Off content x w w')
        (sym e) (ne, new, full, λ q other. off' q other ∙ off q other)
  Filled-Prepared path bytes w w₁ (err e, w') ne new off off' =
      Off-Kept content destination path w w' ne new (λ q other. off' q other ∙ off q other)
  Filled-Prepared path bytes w w₁ (fault, w') ne new off off' =
      Off-Kept content destination path w w' ne new (λ q other. off' q other ∙ off q other)
  Filled-Prepared path bytes w w₁ (out_of_fuel, w') ne new off off' =
      Off-Kept content destination path w w' ne new (λ q other. off' q other ∙ off q other)

  after_open-Prepared :
      (again : Io W Bytes) (fuel mode : ℕ) (bytes candidate : Bytes) (w : W) (out : Opened H × W)
      → ((w₁ : W) → Prepared content destination bytes w₁ (again w₁))
      → candidate ≢ destination
      → Opens content file_of candidate w out
      → Prepared content destination bytes w (after_open system again fuel mode bytes candidate out)
  after_open-Prepared again fuel mode bytes candidate w (opened h, w₁) rest ne
        (e, new, empty, off) =
      Filled-Prepared candidate bytes w w₁ _ ne new off (
        subst
          (λ x.
            content x w₁ ≡ some []
            → Filled system content file_of is x bytes w₁
                (fill_candidate system fuel h mode bytes x w₁))
          e (fill_candidate-Filled system content file_of is fuel h mode bytes w₁) empty)
  after_open-Prepared again fuel mode bytes candidate w (already_exists, w₁) rest ne same =
      Prepared-later content destination bytes w w₁ (again w₁) same (rest w₁)
  after_open-Prepared again fuel mode bytes candidate w (open_failed, w₁) rest ne same =
      λ q there. same q

  try_candidates-Prepared :
      (attempts fuel mode : ℕ) (bytes : Bytes) (w : W)
      → Prepared content destination bytes w
          (try_candidates paths system attempts fuel destination bytes mode w)
  unfolding try_candidates temporary_candidate
  try_candidates-Prepared zero fuel mode bytes w = λ q there. refl
  try_candidates-Prepared (suc attempts) fuel mode bytes w =
      let w₁ = (system.next_sequence w).1 in
      let w₂ = (system.ticks w₁).1 in
      Prepared-later content destination bytes w w₂ _ (λ q. is.ticks w₁ q ∙ is.next_sequence w q)
        (after_open-Prepared _ fuel mode bytes _ w₂ _
          (try_candidates-Prepared attempts fuel mode bytes)
          (join-ne _ (temporary_suffix (system.ticks w₁).0 (system.next_sequence w).0)
            (suffix_no_slash (system.ticks w₁).0 (system.next_sequence w).0) (λ e. ground arith))
          (is.open_new _ w₂))

  moded-Prepared :
      (fuel : ℕ) (bytes : Bytes) (w : W) (out : Stat × W)
      → Same content w out.1
      → Prepared content destination bytes w (
          and_then
            (final_mode paths system out)
            (try_candidates paths system 100 fuel destination bytes))
  moded-Prepared fuel bytes w (mode_of m, w₁) same =
      Prepared-later content destination bytes w w₁ _ same
        (try_candidates-Prepared 100 fuel _ bytes w₁)
  moded-Prepared fuel bytes w (absent, w₁) same =
      Prepared-later content destination bytes w w₁ _ same
        (try_candidates-Prepared 100 fuel _ bytes w₁)
  moded-Prepared fuel bytes w (stat_failed, w₁) same = λ q there. same q

  write_temporary-Prepared :
      (fuel : ℕ) (bytes source : Bytes) (w : W)
      → Prepared content destination bytes w
          (write_temporary paths system fuel destination bytes source w)
  unfolding write_temporary
  write_temporary-Prepared fuel bytes source w =
      moded-Prepared fuel bytes w (system.stat source w) (is.stat source w)

  -- The rename of the temporary file, or its removal.
  renamed-Replaced :
      (p bytes : Bytes) (w w₁ : W) (out : Result (Unit {0}) × W)
      → Prepared content destination bytes w (ok p, w₁)
      → Renames content p destination w₁ out
      → Replaced content destination bytes w (or_remove system p out)
  renamed-Replaced p bytes w w₁ (ok _, w₂) (ne, new, full, off) (moved, others) = (
    moved ∙ full,
    λ q other there.
        let fresh : q ≢ p = λ e. there (subst (λ x. content x w ≡ none) (sym e) new) in
        others q fresh other ∙ off q fresh,
  )
  renamed-Replaced p bytes w w₁ (err e, w₂) (ne, new, full, off) same =
      Off-Kept content destination p w _ ne new
        λ q other. is.remove p w₂ q other ∙ same q ∙ off q other
  renamed-Replaced p bytes w w₁ (fault, w₂) (ne, new, full, off) same =
      Off-Kept content destination p w _ ne new
        λ q other. is.remove p w₂ q other ∙ same q ∙ off q other
  renamed-Replaced p bytes w w₁ (out_of_fuel, w₂) (ne, new, full, off) same =
      Off-Kept content destination p w _ ne new
        λ q other. is.remove p w₂ q other ∙ same q ∙ off q other

  moved-Replaced :
      (bytes : Bytes) (w : W) (out : Result Bytes × W)
      → Prepared content destination bytes w out
      → Replaced content destination bytes w
          (and_then out λ p w₁. or_remove system p (replace_file system p destination w₁))
  unfolding replace_file
  moved-Replaced bytes w (ok p, w₁) prepared =
      renamed-Replaced p bytes w w₁ (system.rename p destination w₁) prepared
        (is.rename p destination w₁)
  moved-Replaced bytes w (err e, w₁) k = k
  moved-Replaced bytes w (fault, w₁) k = k
  moved-Replaced bytes w (out_of_fuel, w₁) k = k

  pub write_replacing-Replaced :
      (fuel : ℕ) (bytes source : Bytes) (w : W)
      → Replaced content destination bytes w
          (write_replacing paths system fuel destination bytes source w)
  unfolding write_replacing
  write_replacing-Replaced fuel bytes source w =
      moved-Replaced bytes w (write_temporary paths system fuel destination bytes source w)
        (write_temporary-Prepared fuel bytes source w)
