-- ===== src/Checkpoint/Verify.antt =====
-- How the files of the checkpoints are verified, one after the other: each from the world that the
-- one before has left.
use config_manager.Common.{
  ℕ, ◌≡◌, refl, Bytes, Bool, true, false, List, [], ◌∷◌, Result, ok, err, fault, out_of_fuel,
  ErrorCode, invalid_version,
}
use config_manager.Catalog.{VersionedConfig}
use config_manager.Checkpoint.Host.{Io, and_then, pure, System, CheckpointOptions, Rejection}
use config_manager.Checkpoint.Outcome.{Ends, Stops, Never, Ends-bind}
use config_manager.Checkpoint.Files.{Backend, read_file_bytes, load_bytes}
use config_manager.Checkpoint.Restore.{reject, collect, collected}

-- `fits` tests the version of a file, and `make` is the entry of one that passes.
module _ {W H A : Type 0} (system : System W H) (options : CheckpointOptions) (backend : Backend W)
    (fits : ℕ → Bool) (make : Bytes → VersionedConfig → ℕ → A) where
  -- The file is read, in the world `w`, and holds these bytes.
  abbrev pub ReadsAs : Bytes → W → Bytes → W → Type 0
  ReadsAs path w bytes w₁ = read_file_bytes system path options.max_file_bytes w ≡ (ok bytes, w₁)

  -- It is read and loaded.
  pub record LoadsAs (path : Bytes) (w : W) (config : VersionedConfig) (w₂ : W) : Type 0 where
    pub bytes : Bytes
    pub between : W
    pub read : ReadsAs path w bytes between
    pub load : load_bytes backend bytes between ≡ (ok config, w₂)

  -- The file is read and loaded, its version fits, and it has a time of its last change.
  pub record Verified (path : Bytes) (w : W) (entry : A) (w₃ : W) : Type 0 where
    pub config : VersionedConfig
    pub modified : ℕ
    pub between : W
    pub loads : LoadsAs path w config between
    pub fitting : fits config.version ≡ true
    pub dated : system.last_write_time path between ≡ (ok modified, w₃)
    pub made : entry ≡ make path config modified

  -- Why a file is rejected with that error.
  pub data Unverified (path : Bytes) (w : W) (e : ErrorCode) (w' : W) : Type 0 where
    unread :
        read_file_bytes system path options.max_file_bytes w ≡ (err e, w') → Unverified path w e w'
    unloaded :
        (bytes : Bytes) (w₁ : W)
        → ReadsAs path w bytes w₁
        → load_bytes backend bytes w₁ ≡ (err e, w')
        → Unverified path w e w'
    unfit :
        (config : VersionedConfig)
        → LoadsAs path w config w'
        → fits config.version ≡ false
        → e ≡ invalid_version
        → Unverified path w e w'
    undated :
        (config : VersionedConfig) (w₂ : W)
        → LoadsAs path w config w₂
        → fits config.version ≡ true
        → system.last_write_time path w₂ ≡ (err e, w')
        → Unverified path w e w'

  -- A call of the system or of the backend that neither returns nor fails.
  pub data Stuck : Type 0 where
    at_read :
        (path : Bytes) (w : W)
        → Stops (read_file_bytes system path options.max_file_bytes w)
        → Stuck
    at_load : (bytes : Bytes) (w : W) → Stops (load_bytes backend bytes w) → Stuck
    at_time : (path : Bytes) (w : W) → Stops (system.last_write_time path w) → Stuck

  -- The files in their order, with the rejections and the entries that come of them.
  pub data Verifications : W → List Bytes → List Rejection → List A → W → Type 0 where
    no_more : {w : W} → Verifications w [] [] [] w
    verified :
        {w w₁ w₂ : W} {path : Bytes} {paths : List Bytes} {rejected : List Rejection} {entry : A}
        {entries : List A}
        → Verified path w entry w₁
        → Verifications w₁ paths rejected entries w₂
        → Verifications w (path ∷ paths) rejected (entry ∷ entries) w₂
    unverified :
        {w w₁ w₂ : W} {path : Bytes} {paths : List Bytes} {rejected : List Rejection}
        {e : ErrorCode} {entries : List A}
        → Unverified path w e w₁
        → Verifications w₁ paths rejected entries w₂
        → Verifications w (path ∷ paths) (reject path e ∷ rejected) entries w₂

  abbrev pub Verifies : Bytes → W → Result A × W → Type 0
  Verifies path w out = Ends (Verified path w) (Unverified path w) Stuck out

  pub read-Verifies :
      (path : Bytes) (w : W) (out : Result Bytes × W) (next : Bytes → Io W A)
      → read_file_bytes system path options.max_file_bytes w ≡ out
      → ((bytes : Bytes) (w₁ : W) → ReadsAs path w bytes w₁ → Verifies path w (next bytes w₁))
      → Verifies path w (and_then out next)
  read-Verifies path w (ok bytes, w₁) next e k = k bytes w₁ e
  read-Verifies path w (err x, w₁) next e k = unread e
  read-Verifies path w (fault, w₁) next e k = at_read path w (rw e tt)
  read-Verifies path w (out_of_fuel, w₁) next e k = at_read path w (rw e tt)

  pub load-Verifies :
      (path bytes : Bytes) (w w₁ : W) (out : Result VersionedConfig × W)
      (next : VersionedConfig → Io W A)
      → ReadsAs path w bytes w₁
      → load_bytes backend bytes w₁ ≡ out
      → ((config : VersionedConfig) (w₂ : W)
          → LoadsAs path w config w₂
          → Verifies path w (next config w₂))
      → Verifies path w (and_then out next)
  load-Verifies path bytes w w₁ (ok config, w₂) next r e k =
      k config w₂ (record { bytes = bytes; between = w₁; read = r; load = e })
  load-Verifies path bytes w w₁ (err x, w₂) next r e k = unloaded bytes w₁ r e
  load-Verifies path bytes w w₁ (fault, w₂) next r e k = at_load bytes w₁ (rw e tt)
  load-Verifies path bytes w w₁ (out_of_fuel, w₂) next r e k = at_load bytes w₁ (rw e tt)

  pub date-Verifies :
      (path : Bytes) (config : VersionedConfig) (w w₂ : W) (out : Result ℕ × W)
      → LoadsAs path w config w₂
      → fits config.version ≡ true
      → system.last_write_time path w₂ ≡ out
      → Verifies path w (and_then out λ modified. pure (make path config modified))
  date-Verifies path config w w₂ (ok modified, w₃) l f e = record {
    config = config;
    modified = modified;
    between = w₂;
    loads = l;
    fitting = f;
    dated = e;
    made = refl;
  }
  date-Verifies path config w w₂ (err x, w₃) l f e = undated config w₂ l f e
  date-Verifies path config w w₂ (fault, w₃) l f e = at_time path w₂ (rw e tt)
  date-Verifies path config w w₂ (out_of_fuel, w₃) l f e = at_time path w₂ (rw e tt)

  -- A loop of such loads.
  abbrev pub Collects : W → List Bytes → Result (List Rejection × List A) × W → Type 0
  Collects w paths out = Ends (λ r w'. Verifications w paths r.0 r.1 w') Never Stuck out

  collected-Collects :
      (load : Bytes → Io W A) (path : Bytes) (paths : List Bytes) (w : W) (out : Result A × W)
      → ((w₁ : W) → Collects w₁ paths (collect load paths w₁))
      → Verifies path w out
      → Collects w (path ∷ paths) (collected path (collect load paths) out)
  collected-Collects load path paths w (ok x, w₁) rest v =
      Ends-bind (λ r w'. Verifications w₁ paths r.0 r.1 w')
        (λ r w'. Verifications w (path ∷ paths) r.0 r.1 w') Never Stuck (collect load paths w₁) _
        (rest w₁) λ r w₂ t. verified v t
  collected-Collects load path paths w (err e, w₁) rest u =
      Ends-bind (λ r w'. Verifications w₁ paths r.0 r.1 w')
        (λ r w'. Verifications w (path ∷ paths) r.0 r.1 w') Never Stuck (collect load paths w₁) _
        (rest w₁) λ r w₂ t. unverified u t
  collected-Collects load path paths w (fault, w₁) rest s = s
  collected-Collects load path paths w (out_of_fuel, w₁) rest s = s

  pub collect-Collects :
      (load : Bytes → Io W A)
      → ((path : Bytes) (w : W) → Verifies path w (load path w))
      → (paths : List Bytes) (w : W) → Collects w paths (collect load paths w)
  unfolding collect
  collect-Collects load each [] w = no_more
  collect-Collects load each (path ∷ paths) w =
      collected-Collects load path paths w (load path w) (collect-Collects load each paths)
        (each path w)
