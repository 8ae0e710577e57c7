-- ===== src/Checkpoint/Prune/Laws.antt =====
-- Which checkpoints cpPrune retains and which it removes.
use config_manager.Common.{
  arith, false, ◌∷◌, ℕ, Bool, ◌≤◌, ◌≡◌, ◌≢◌, ◌⊎◌, inl, inr, refl, sym, List, [], ◌++◌, append_assoc,
  append-nil, length, map,
}
use mathlib.Core.Path.{subst}
use mathlib.Core.List.{Perm, map-append, perm_append_comm}
use mathlib.Core.List.Perm
use config_manager.Checkpoint.Sort.{sort, skip, newer}
use config_manager.Checkpoint.Sort.Laws.{
  Every, IsStrictOrder, AllPairs, Every-map, Every-append, Every-sort, AllPairs-sort, sort-Perm,
  sort-IsSorted, map-sort,
}
use config_manager.Checkpoint.Sort.Split.{
  Some, take, take-skip, map-skip, length-take_le, Every-take, Every-skip, AllPairs-take,
  Some-append, Some-Every, Some-sort, skip-IsSorted,
}
use config_manager.Checkpoint.Prune.{CheckpointFile, Versions, newer_file, group_files, removals}
use config_manager.Checkpoint.Prune.Groups.{
  Checkpoint, file_of, all_files, heads, others, Ascending, Ascending-group, group-Perm,
  file_of-heads, file_of-others, newer_file-IsStrictOrder,
}
use config_manager.Checkpoint.Prune.Newest.{
  NotBefore, Supersedes, heads-NotBefore, heads_distinct, others-Supersedes, heads-Perm,
}

-- No file of the same version is newer than `k`.
abbrev pub NoneNewer : Checkpoint → List Checkpoint → Type 0
NoneNewer k files = Every (λ g. g.0 ≡ k.0 → g.1.modified ≤ k.1.modified) files

-- Why a checkpoint may go: one of its version is kept that it is not newer than, or as many are kept
-- as there may be, and it is newer than none of them.
abbrev pub Dispensable : ℕ → List Checkpoint → Checkpoint → Type 0
Dispensable retention kept d =
    Some (λ k. (k.0 ≡ d.0) × (d.1.modified ≤ k.1.modified)) kept
    ⊎ ((length kept ≡ retention) × Every (λ k. d.1.modified ≤ k.1.modified) kept)

not_newer-le : (f g : CheckpointFile) → newer_file g f ≡ false → g.modified ≤ f.modified
unfolding newer_file newer
not_newer-le f g h = ground arith

Some-map :
    (P Q : Checkpoint → Type 0) (xs : List Checkpoint)
    → ((x : Checkpoint) → P x → Q x)
    → Some P xs
    → Some Q xs
Some-map P Q [] f h = h
Some-map P Q (x ∷ xs) f (inl p) = inl (f x p)
Some-map P Q (x ∷ xs) f (inr h) = inr (Some-map P Q xs f h)

-- What is kept of the files, and what is removed.
pub record Retained (retention : ℕ) (files : List Checkpoint) (removed : List CheckpointFile)
    : Type 0 where
  pub kept : List Checkpoint
  pub dropped : List Checkpoint
  pub each : Perm files (dropped ++ kept)
  pub removed_files : removed ≡ map file_of dropped
  pub few : length kept ≤ retention
  pub distinct : AllPairs (λ c d. c.0 ≢ d.0) kept
  pub newest : Every (λ k. NoneNewer k (dropped ++ kept)) kept
  pub dispensable : Every (Dispensable retention kept) dropped

abbrev before : Checkpoint → Checkpoint → Bool
before c d = newer_file c.1 d.1

before-IsStrictOrder : IsStrictOrder before
before-IsStrictOrder = record {
  asymmetric = λ c d. newer_file-IsStrictOrder.asymmetric c.1 d.1;
  cotransitive = λ c d e. newer_file-IsStrictOrder.cotransitive c.1 d.1 e.1;
}

module _ (retention : ℕ) (vs : Versions) where
  abbrev ordered : List Checkpoint
  ordered = sort before (heads vs)

  abbrev keep : List Checkpoint
  keep = take retention ordered

  abbrev surplus : List Checkpoint
  surplus = skip retention ordered

  split-Perm : Perm (all_files vs) ((others vs ++ surplus) ++ keep)
  split-Perm = Perm.trans (heads-Perm vs) (
      rw append_assoc (
        Perm.append_left (others vs) (
          Perm.trans (Perm.symm (sort-Perm before (heads vs))) (
            subst (λ xs. Perm xs (surplus ++ keep)) (take-skip retention ordered)
              (perm_append_comm keep surplus)))))

  removals-dropped : removals retention vs ≡ map file_of (others vs ++ surplus)
  unfolding removals
  removals-dropped =
      rw (map-append, file_of-others, map-skip, map-sort file_of newer_file, file_of-heads) refl

  kept-NoneNewer : Ascending vs → Every (λ k. NoneNewer k ((others vs ++ surplus) ++ keep)) keep
  kept-NoneNewer a = Every-take _ retention ordered (
      Every-sort before _ (heads vs) (
        Every-map (heads vs)
          (λ k (o, h).
            let s = Every-sort before (NotBefore k) (heads vs) h in
            Every-map ((others vs ++ surplus) ++ keep)
              (λ g not_before same. not_newer-le k.1 g.1 (not_before same))
              (Every-append (NotBefore k) (others vs ++ surplus) keep
                (Every-append (NotBefore k) (others vs) surplus o
                  (Every-skip (NotBefore k) retention ordered s))
                (Every-take (NotBefore k) retention ordered s)))
          (heads-NotBefore vs a)))

  surplus-Dispensable : Every (Dispensable retention keep) surplus
  surplus-Dispensable =
      Every-map surplus
        (λ d (full, h). inr (full, Every-map keep (λ k b. not_newer-le k.1 d.1 b) h))
        (skip-IsSorted before retention ordered
          (sort-IsSorted before before-IsStrictOrder (heads vs)))

  -- A file behind the first of its version, which is kept or surplus itself.
  superseded-Dispensable :
      (d : Checkpoint)
      → Some (Supersedes d) keep ⊎ Some (Supersedes d) surplus
      → Dispensable retention keep d
  superseded-Dispensable d (inl kept) =
      inl (Some-map _ _ keep (λ k (same, b). (same, not_newer-le k.1 d.1 b)) kept)
  superseded-Dispensable d (inr gone) =
      Some-Every (Supersedes d) _ _ surplus gone
        (skip-IsSorted before retention ordered
          (sort-IsSorted before before-IsStrictOrder (heads vs)))
        λ k (same, le) (full, below). inr (
          full,
          Every-map keep
              (λ j b. not_newer-le j.1 d.1 (newer_file-IsStrictOrder.cotransitive d.1 k.1 j.1 le b))
              below,
        )

  others-Dispensable : Every (Dispensable retention keep) (others vs)
  others-Dispensable =
      Every-map (others vs)
        (λ d some. superseded-Dispensable d (
          Some-append (Supersedes d) keep surplus (
            subst (Some (Supersedes d)) (sym (take-skip retention ordered))
              (Some-sort before (Supersedes d) (heads vs) some))))
        (others-Supersedes vs)

-- The removals are right: with the files that are kept they make up the verified ones. At most
-- `retention` are kept, of different versions, and no file of the same version is newer than one that
-- is kept. A file is removed only where a kept one of its version is not older, or where `retention`
-- are kept and none of them is older.
pub removals-Retained :
    (retention : ℕ) (files : List Checkpoint)
    → Retained retention files (removals retention (group_files files []))
removals-Retained retention files = record {
  kept = keep retention vs;
  dropped = others vs ++ surplus retention vs;
  each =
      Perm.trans (Perm.symm (subst (Perm (all_files vs)) (append-nil files) (group-Perm files [])))
        (split-Perm retention vs);
  removed_files = removals-dropped retention vs;
  few = length-take_le retention (ordered retention vs);
  distinct =
      AllPairs-take _ retention (ordered retention vs)
        (AllPairs-sort before _ (λ c d ne e. ne (sym e)) (heads vs) (heads_distinct vs ascending));
  newest = kept-NoneNewer retention vs ascending;
  dispensable =
      Every-append _ (others vs) (surplus retention vs) (others-Dispensable retention vs)
        (surplus-Dispensable retention vs);
}
  where
    vs : Versions
    vs = group_files files []

    ascending : Ascending vs
    ascending = Ascending-group files [] tt
