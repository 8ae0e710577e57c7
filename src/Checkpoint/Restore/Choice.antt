-- ===== src/Checkpoint/Restore/Choice.antt =====
-- The loop that synchronizes the candidates takes the first that it can.
use config_manager.Common.{
  ℕ, ◌==◌, ◌≡◌, ◌≢◌, ◌⊎◌, refl, sym, ◌∙◌, List, [], ◌∷◌, ◌++◌, append_assoc, append-nil, Option,
  none, some, arith, Result, ok, err, fault, out_of_fuel, ErrorCode, Bool-cases, inl, inr,
  invalid_version,
}
use config_manager.Runtime.{
  ConfigRuntime, SyncStatus, in_sync, upgrade_required, downgrade_required, Synced, synchronize,
}
use config_manager.Checkpoint.Host.{Rejection}
use config_manager.Checkpoint.Outcome.{Ends, Stops, Never, Ends-map}
use config_manager.Checkpoint.Restore.{
  Candidate, PreparedRestore, RestoreSearch, reject, judge, try_candidates,
}

module _ {W : Type 0} (rt : ConfigRuntime W) (supported : ℕ) where
  -- The synchronisation of a candidate in that world.
  abbrev pub sync_of : Candidate → W → Synced W
  sync_of c w = synchronize rt c.config supported w

  -- It ends in sync at the supported version.
  abbrev pub Accepts : Candidate → W → Type 0
  Accepts c w = ((sync_of c w).result ≡ ok in_sync) × ((sync_of c w).config.version ≡ supported)

  -- It fails with the error; or it ends otherwise, and the error is InvalidVersion.
  pub data Refuses (c : Candidate) (w : W) (e : ErrorCode) : Type 0 where
    failed : (sync_of c w).result ≡ err e → Refuses c w e
    elsewhere :
        (status : SyncStatus)
        → (sync_of c w).result ≡ ok status
        → (status ≢ in_sync) ⊎ ((sync_of c w).config.version ≢ supported)
        → e ≡ invalid_version
        → Refuses c w e

  -- A synchronisation that neither returns nor fails.
  pub data SyncStuck : Type 0 where
    at_sync : (c : Candidate) (w : W) → Stops ((sync_of c w).result, w) → SyncStuck

  -- The candidates are synchronized in their order, each in the world that the one before has left,
  -- up to the first that is accepted.
  pub data Search : W → List Candidate → List Rejection → Option PreparedRestore → W → Type 0 where
    exhausted : {w : W} → Search w [] [] none w
    refused :
        {w w' : W} {c : Candidate} {cs : List Candidate} {e : ErrorCode} {rejected : List Rejection}
        {answer : Option PreparedRestore}
        → Refuses c w e
        → Search (sync_of c w).world cs rejected answer w'
        → Search w (c ∷ cs) (reject c.path e ∷ rejected) answer w'
    chosen :
        {w : W} {c : Candidate} {cs : List Candidate}
        → Accepts c w
        → Search w
            (c ∷ cs)
            []
            (some (record {
              checkpoint_path = c.path;
              source_version = c.source_version;
              config = (sync_of c w).config;
            }))
            (sync_of c w).world

  -- A search that started with these rejections.
  pub record Searched (w : W) (cs : List Candidate) (rejected : List Rejection)
      (answer : RestoreSearch) (w' : W) : Type 0 where
    pub added : List Rejection
    pub joined : answer.rejected ≡ rejected ++ added
    pub search : Search w cs added answer.candidate w'

  Searches : W → List Candidate → List Rejection → Result RestoreSearch × W → Type 0
  Searches w cs rejected out = Ends (Searched w cs rejected) Never SyncStuck out

  refuse-Searches :
      (c : Candidate) (cs : List Candidate) (rejected : List Rejection) (e : ErrorCode) (w : W)
      (out : Result RestoreSearch × W)
      → Refuses c w e
      → Searches (sync_of c w).world cs (rejected ++ reject c.path e ∷ []) out
      → Searches w (c ∷ cs) rejected out
  unfolding Searches
  refuse-Searches c cs rejected e w out n h =
      Ends-map out
        (λ answer w' s. record {
          added = reject c.path e ∷ s.added;
          joined = s.joined ∙ append_assoc rejected (reject c.path e ∷ []) s.added;
          search = refused n s.search;
        })
        (λ x w' never. never) (λ s. s) h

  judge-Searches :
      (c : Candidate) (cs : List Candidate) (rejected : List Rejection) (w : W)
      (result : Result SyncStatus)
      → (sync_of c w).result ≡ result
      → ((rs : List Rejection)
          → Searches
              (sync_of c w).world
              cs
              rs
              (try_candidates rt supported cs rs (sync_of c w).world))
      → Searches w (c ∷ cs) rejected (
          judge
            (try_candidates rt supported cs)
            rejected
            supported
            c
            result
            (sync_of c w).config
            (sync_of c w).world)
  unfolding Searches
  judge-Searches c cs rejected w (ok in_sync) er rest =
      elim (Bool-cases ((sync_of c w).config.version == supported)) [
        | inl same ↦ rw same (record {
          added = [];
          joined = sym (append-nil rejected);
          search = chosen (er, ground arith);
        })
        | inr other ↦ rw other (
            refuse-Searches c cs rejected invalid_version w _
              (elsewhere in_sync er (inr (ground arith)) refl) (rest _))
      ]
  judge-Searches c cs rejected w (ok upgrade_required) er rest =
      refuse-Searches c cs rejected invalid_version w _
        (elsewhere upgrade_required er (inl (λ e. cc)) refl) (rest _)
  judge-Searches c cs rejected w (ok downgrade_required) er rest =
      refuse-Searches c cs rejected invalid_version w _
        (elsewhere downgrade_required er (inl (λ e. cc)) refl) (rest _)
  judge-Searches c cs rejected w (err e) er rest =
      refuse-Searches c cs rejected e w _ (failed er) (rest _)
  judge-Searches c cs rejected w fault er rest = at_sync c w (rw er tt)
  judge-Searches c cs rejected w out_of_fuel er rest = at_sync c w (rw er tt)

  pub try_candidates-Searched :
      (cs : List Candidate) (rejected : List Rejection) (w : W)
      → Ends (Searched w cs rejected) Never SyncStuck (try_candidates rt supported cs rejected w)
  unfolding try_candidates Searches
  try_candidates-Searched [] rejected w = record {
    added = [];
    joined = sym (append-nil rejected);
    search = exhausted;
  }
  try_candidates-Searched (c ∷ cs) rejected w =
      judge-Searches c cs rejected w (sync_of c w).result refl
        (λ rs. try_candidates-Searched cs rs (sync_of c w).world)
