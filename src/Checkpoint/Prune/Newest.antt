-- ===== src/Checkpoint/Prune/Newest.antt =====
-- The first of each version's sorted files is the newest of that version.
use config_manager.Common.{
  ℕ, Bool-cases, ◌<◌, ◌≡◌, ◌≢◌, inl, inr, refl, false, List, [], ◌∷◌, ◌++◌, append_assoc, arith,
}
use mathlib.Core.List.{Perm, perm_middle}
use mathlib.Core.List.Perm
use config_manager.Checkpoint.Sort.{sort}
use config_manager.Checkpoint.Sort.Laws.{
  Every, IsSorted, AllPairs, Every-map, Every-all, Every-zip, Every-append, sort-Perm,
  sort-IsSorted,
}
use config_manager.Checkpoint.Sort.Split.{Some}
use config_manager.Checkpoint.Prune.{CheckpointFile, Versions, newer_file, first_of, rest_of}
use config_manager.Checkpoint.Prune.Groups.{
  Checkpoint, tagged, all_files, heads, others, Above, Ascending, newer_file-IsStrictOrder,
}

-- `g` does not come before `k` where it holds the same version.
abbrev pub NotBefore : Checkpoint → Checkpoint → Type 0
NotBefore k g = g.0 ≡ k.0 → newer_file g.1 k.1 ≡ false

-- `k` is of the version of `d`, and `d` does not come before it.
abbrev pub Supersedes : Checkpoint → Checkpoint → Type 0
Supersedes d k = (k.0 ≡ d.0) × (newer_file d.1 k.1 ≡ false)

Every-tagged :
    (P : Checkpoint → Type 0) (v : ℕ) (fs : List CheckpointFile)
    → Every (λ f. P (v, f)) fs
    → Every P (tagged v fs)
Every-tagged P v [] h = tt
Every-tagged P v (f ∷ fs) (p, h) = (p, Every-tagged P v fs h)

Every-heads : (u : ℕ) (vs : Versions) → Above u vs → Every (λ c. u < c.0) (heads vs)
Every-heads u [] a = tt
Every-heads u ((v, fs) ∷ rest) (h, a) =
    Every-append _ (tagged v (first_of (sort newer_file fs))) (heads rest)
      (Every-tagged _ v (first_of (sort newer_file fs)) (Every-all _ _ λ f. h))
      (Every-heads u rest a)

Every-others : (u : ℕ) (vs : Versions) → Above u vs → Every (λ c. u < c.0) (others vs)
Every-others u [] a = tt
Every-others u ((v, fs) ∷ rest) (h, a) =
    Every-append _ (tagged v (rest_of (sort newer_file fs))) (others rest)
      (Every-tagged _ v (rest_of (sort newer_file fs)) (Every-all _ _ λ f. h))
      (Every-others u rest a)

newer_file_irreflexive : (f : CheckpointFile) → newer_file f f ≡ false
newer_file_irreflexive f = elim (Bool-cases (newer_file f f)) [
  | inl before ↦ newer_file-IsStrictOrder.asymmetric f f before
  | inr e ↦ e
]

grouped-NotBefore :
    (v : ℕ) (rest : Versions) (xs : List CheckpointFile)
    → Above v rest
    → IsSorted newer_file xs
    → Every (λ k. Every (NotBefore k) (others rest) × Every (NotBefore k) (heads rest)) (heads rest)
    → Every
        (λ k.
          Every (NotBefore k) (tagged v (rest_of xs) ++ others rest)
          × Every (NotBefore k) (tagged v (first_of xs) ++ heads rest))
        (tagged v (first_of xs) ++ heads rest)
grouped-NotBefore v rest [] a s ih = ih
grouped-NotBefore v rest (x ∷ xs) a (b, s) ih = (
  (
    Every-append _ (tagged v xs) (others rest)
        (Every-tagged _ v xs (Every-map xs (λ f e same. e) b))
        (Every-map (others rest) (λ g lt same. absurd (omega arith)) (Every-others v rest a)),
    (
      λ same. newer_file_irreflexive x,
      Every-map (heads rest) (λ g lt same. absurd (omega arith)) (Every-heads v rest a),
    ),
  ),
  Every-zip (λ k. v < k.0) _ _ (heads rest)
      (λ k lt (o, h). (
        Every-append (NotBefore k) (tagged v xs) (others rest)
            (Every-tagged (NotBefore k) v xs (Every-all _ xs λ f same. absurd (omega arith))) o,
        (λ same. absurd (omega arith), h),
      ))
      (Every-heads v rest a) ih,
)

-- No file of a version comes before the first of the version.
pub heads-NotBefore :
    (vs : Versions)
    → Ascending vs
    → Every (λ k. Every (NotBefore k) (others vs) × Every (NotBefore k) (heads vs)) (heads vs)
heads-NotBefore [] a = tt
heads-NotBefore ((v, fs) ∷ rest) (h, a) =
    grouped-NotBefore v rest (sort newer_file fs) h
      (sort-IsSorted newer_file newer_file-IsStrictOrder fs) (heads-NotBefore rest a)

grouped_distinct :
    (v : ℕ) (rest : Versions) (xs : List CheckpointFile)
    → Above v rest
    → AllPairs (λ c d. c.0 ≢ d.0) (heads rest)
    → AllPairs (λ c d. c.0 ≢ d.0) (tagged v (first_of xs) ++ heads rest)
grouped_distinct v rest [] a ih = ih
grouped_distinct v rest (x ∷ xs) a ih =
    (Every-map (heads rest) (λ k lt same. omega arith) (Every-heads v rest a), ih)

pub heads_distinct : (vs : Versions) → Ascending vs → AllPairs (λ c d. c.0 ≢ d.0) (heads vs)
heads_distinct [] a = tt
heads_distinct ((v, fs) ∷ rest) (h, a) =
    grouped_distinct v rest (sort newer_file fs) h (heads_distinct rest a)

Some-append_right :
    (P : Checkpoint → Type 0) (xs ys : List Checkpoint) → Some P ys → Some P (xs ++ ys)
Some-append_right P [] ys h = h
Some-append_right P (x ∷ xs) ys h = inr (Some-append_right P xs ys h)

grouped-Supersedes :
    (v : ℕ) (rest : Versions) (xs : List CheckpointFile)
    → IsSorted newer_file xs
    → Every (λ d. Some (Supersedes d) (heads rest)) (others rest)
    → Every
        (λ d. Some (Supersedes d) (tagged v (first_of xs) ++ heads rest))
        (tagged v (rest_of xs) ++ others rest)
grouped-Supersedes v rest [] s ih = ih
grouped-Supersedes v rest (x ∷ xs) (b, s) ih =
    Every-append _ (tagged v xs) (others rest)
      (Every-tagged _ v xs (Every-map xs (λ f e. inl (refl, e)) b))
      (Every-map (others rest) (λ d some. inr some) ih)

-- What is not the first of its version is superseded by the first.
pub others-Supersedes : (vs : Versions) → Every (λ d. Some (Supersedes d) (heads vs)) (others vs)
others-Supersedes [] = tt
others-Supersedes ((v, fs) ∷ rest) =
    grouped-Supersedes v rest (sort newer_file fs)
      (sort-IsSorted newer_file newer_file-IsStrictOrder fs) (others-Supersedes rest)

grouped-Perm :
    (v : ℕ) (xs : List CheckpointFile) (os hs : List Checkpoint)
    → Perm
        (tagged v xs ++ (os ++ hs))
        ((tagged v (rest_of xs) ++ os) ++ (tagged v (first_of xs) ++ hs))
grouped-Perm v [] os hs = Perm.rfl
grouped-Perm v (x ∷ xs) os hs =
    Perm.symm (Perm.trans (perm_middle (tagged v xs ++ os) hs) (rw append_assoc Perm.rfl))

pub heads-Perm : (vs : Versions) → Perm (all_files vs) (others vs ++ heads vs)
heads-Perm [] = Perm.rfl
heads-Perm ((v, fs) ∷ rest) = Perm.trans (Perm.append_left (tagged v fs) (heads-Perm rest)) (
    Perm.trans
      (Perm.append_right (others rest ++ heads rest)
        (Perm.map (λ (f : CheckpointFile). (v, f)) (Perm.symm (sort-Perm newer_file fs))))
      (grouped-Perm v (sort newer_file fs) (others rest) (heads rest)))
