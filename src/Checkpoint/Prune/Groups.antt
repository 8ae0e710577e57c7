-- ===== src/Checkpoint/Prune/Groups.antt =====
-- The files of the map from versions, with their versions, and the newest of each.
use config_manager.Common.{
  ℕ, ltb, ◌==◌, ◌<◌, ◌≡◌, inl, inr, refl, ap, Bool-cases, List, [], ◌∷◌, ◌++◌, append_assoc, map,
  arith, ltb→lt,
}
use mathlib.Core.List.{Perm, perm_middle, map-append}
use mathlib.Core.List.Perm
use config_manager.Checkpoint.Sort.{sort}
use config_manager.Checkpoint.Sort.Laws.{
  Every, IsStrictOrder, Every-map, newer_asymmetric, newer_cotransitive,
}
use config_manager.Checkpoint.Prune.{
  CheckpointFile, Versions, newer_file, push_file, group_files, first_of, rest_of, newest_files,
  superseded_files,
}

-- A file and the version that it holds.
abbrev pub Checkpoint : Type 0
Checkpoint = ℕ × CheckpointFile

abbrev pub file_of : Checkpoint → CheckpointFile
file_of c = c.1

abbrev pub tagged : ℕ → List CheckpointFile → List Checkpoint
tagged v fs = map (λ f. (v, f)) fs

abbrev pub all_files : Versions → List Checkpoint
all_files [] = []
all_files ((v, fs) ∷ rest) = tagged v fs ++ all_files rest

abbrev pub heads : Versions → List Checkpoint
heads [] = []
heads ((v, fs) ∷ rest) = tagged v (first_of (sort newer_file fs)) ++ heads rest

abbrev pub others : Versions → List Checkpoint
others [] = []
others ((v, fs) ∷ rest) = tagged v (rest_of (sort newer_file fs)) ++ others rest

abbrev pub Above : ℕ → Versions → Type 0
Above v vs = Every (λ g. v < g.0) vs

-- The keys of the map ascend.
abbrev pub Ascending : Versions → Type 0
Ascending [] = Unit {0}
Ascending ((v, fs) ∷ rest) = Above v rest × Ascending rest

pub newer_file-IsStrictOrder : IsStrictOrder newer_file
unfolding newer_file
newer_file-IsStrictOrder = record {
  asymmetric = λ f g h. newer_asymmetric f.modified f.path g.modified g.path h;
  cotransitive = λ f g e. newer_cotransitive f.modified f.path g.modified g.path e.modified e.path;
}

file_of-tagged : (v : ℕ) (fs : List CheckpointFile) → map file_of (tagged v fs) ≡ fs
file_of-tagged v [] = refl
file_of-tagged v (f ∷ fs) = ap (◌∷◌ f) (file_of-tagged v fs)

pub file_of-heads : (vs : Versions) → map file_of (heads vs) ≡ newest_files vs
unfolding newest_files
file_of-heads [] = refl
file_of-heads ((v, fs) ∷ rest) =
    rw (map-append, file_of-tagged)
      (ap (λ xs. first_of (sort newer_file fs) ++ xs) (file_of-heads rest))

pub file_of-others : (vs : Versions) → map file_of (others vs) ≡ superseded_files vs
unfolding superseded_files
file_of-others [] = refl
file_of-others ((v, fs) ∷ rest) =
    rw (map-append, file_of-tagged)
      (ap (λ xs. rest_of (sort newer_file fs) ++ xs) (file_of-others rest))

Above-push :
    (u v : ℕ) (f : CheckpointFile) (vs : Versions) → u < v → Above u vs → Above u (push_file v f vs)
unfolding push_file
Above-push u v f [] lt a = (lt, tt)
Above-push u v f ((x, fs) ∷ rest) lt (h, a) = elim (Bool-cases (x == v)) [
  | inl same ↦ rw same (h, a)
  | inr other ↦ elim (Bool-cases (ltb v x)) [
    | inl below ↦ rw (other, below) (lt, (h, a))
    | inr above ↦ rw (other, above) (h, Above-push u v f rest lt a)
  ]
]

Ascending-push :
    (v : ℕ) (f : CheckpointFile) (vs : Versions) → Ascending vs → Ascending (push_file v f vs)
unfolding push_file
Ascending-push v f [] a = (tt, tt)
Ascending-push v f ((x, fs) ∷ rest) (h, a) = elim (Bool-cases (x == v)) [
  | inl same ↦ rw same (h, a)
  | inr other ↦ elim (Bool-cases (ltb v x)) [
    | inl below ↦
        rw (other, below)
          ((ltb→lt _ _ below, Every-map rest (λ g lt. omega (arith, ltb→lt _ _ below)) h), (h, a))
    | inr above ↦
        rw (other, above) (Above-push x v f rest (ground arith) h, Ascending-push v f rest a)
  ]
]

pub Ascending-group :
    (files : List Checkpoint) (vs : Versions) → Ascending vs → Ascending (group_files files vs)
unfolding group_files
Ascending-group [] vs a = a
Ascending-group ((v, f) ∷ files) vs a =
    Ascending-group files (push_file v f vs) (Ascending-push v f vs a)

push-Perm :
    (v : ℕ) (f : CheckpointFile) (vs : Versions)
    → Perm (all_files (push_file v f vs)) ((v, f) ∷ all_files vs)
unfolding push_file
push-Perm v f [] = Perm.rfl
push-Perm v f ((x, fs) ∷ rest) = elim (Bool-cases (x == v)) [
  | inl same ↦
      let e : v ≡ x = ground arith in
      rw (same, map-append, append_assoc, e) (perm_middle (tagged x fs) (all_files rest))
  | inr other ↦ elim (Bool-cases (ltb v x)) [
    | inl below ↦ rw (other, below) Perm.rfl
    | inr above ↦
        rw (other, above)
          (Perm.trans (Perm.append_left (tagged x fs) (push-Perm v f rest))
            (perm_middle (tagged x fs) (all_files rest)))
  ]
]

pub group-Perm :
    (files : List Checkpoint) (vs : Versions)
    → Perm (all_files (group_files files vs)) (files ++ all_files vs)
unfolding group_files
group-Perm [] vs = Perm.rfl
group-Perm ((v, f) ∷ files) vs =
    Perm.trans (group-Perm files (push_file v f vs))
      (Perm.trans (Perm.append_left files (push-Perm v f vs)) (perm_middle files (all_files vs)))
