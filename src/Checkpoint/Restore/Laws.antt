-- ===== src/Checkpoint/Restore/Laws.antt =====
-- The order in which cpPrepareRestore tries the checkpoints.
use config_manager.Common.{◌≤◌, ◌≡◌, false, List, [], ◌∷◌, arith}
use config_manager.Checkpoint.Sort.{newer, bytes_less}
use config_manager.Checkpoint.Sort.Laws.{
  IsStrictOrder, IsSorted, AllPairs, Every-map, newer_asymmetric, newer_cotransitive,
}
use config_manager.Checkpoint.Restore.{Candidate, restores_before}

pub restores_before-IsStrictOrder : IsStrictOrder restores_before
unfolding restores_before
restores_before-IsStrictOrder = record {
  asymmetric = λ c d h. ground (arith, newer_asymmetric c.modified c.path d.modified d.path);
  cotransitive = λ c d e h g.
      ground (arith, newer_cotransitive c.modified c.path d.modified d.path e.modified e.path);
}

-- `c` holds a higher version than `d`; or the same and is newer; or is as old, and its path is not
-- the greater.
abbrev pub IsPreferred : Candidate → Candidate → Type 0
IsPreferred c d =
    (d.source_version ≤ c.source_version)
    × (d.source_version ≡ c.source_version → d.modified ≤ c.modified)
    × (d.source_version ≡ c.source_version
        → d.modified ≡ c.modified
        → bytes_less d.path c.path ≡ false)

IsPreferred-of_before : (c d : Candidate) → restores_before d c ≡ false → IsPreferred c d
unfolding restores_before newer
IsPreferred-of_before c d h = (ground arith, λ e. ground arith, λ e f. ground arith)

pub IsSorted-IsPreferred :
    (cs : List Candidate) → IsSorted restores_before cs → AllPairs IsPreferred cs
IsSorted-IsPreferred [] s = tt
IsSorted-IsPreferred (c ∷ cs) (h, s) =
    (Every-map cs (IsPreferred-of_before c) h, IsSorted-IsPreferred cs s)
