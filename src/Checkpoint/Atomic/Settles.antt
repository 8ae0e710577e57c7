-- ===== src/Checkpoint/Atomic/Settles.antt =====
-- The loop of ::write ends.
use config_manager.Common.{ℕ, zero, suc, ◌+◌, ◌≤◌, ◌≢◌, Bytes, [], ◌∷◌, length, arith, out_of_fuel}
use config_manager.Checkpoint.Host.{System, Written, wrote, interrupted, write_failed}
use config_manager.Checkpoint.Files.{drop, after_write, write_all}

module _ {W : Type 0} (pending : W → ℕ) where
  -- A call that is interrupted leaves fewer interruptions to come; no other adds any.
  abbrev pub Progresses : W → Written × W → Type 0
  Progresses w (wrote n, w') = pending w' ≤ pending w
  Progresses w (interrupted, w') = suc (pending w') ≤ pending w
  Progresses w (write_failed, w') = Unit {0}

length-drop_le : (n : ℕ) (bytes : Bytes) → length (drop n bytes) ≤ length bytes
length-drop_le zero bytes = omega arith
length-drop_le (suc n) [] = omega arith
length-drop_le (suc n) (b ∷ bytes) = omega (arith, length-drop_le n bytes)

module _ {W H : Type 0} (system : System W H) (pending : W → ℕ) where
  after_write-settles :
      (fuel : ℕ) (h : H) (b : ℕ) (bytes : Bytes) (w : W) (out : Written × W)
      → ((bs : Bytes) (w₁ : W)
          → length bs + pending w₁ ≤ fuel
          → (write_all system fuel h bs w₁).0 ≢ out_of_fuel)
      → suc (length bytes) + pending w ≤ suc fuel
      → Progresses pending w out
      → (after_write (write_all system fuel h) (b ∷ bytes) out).0 ≢ out_of_fuel
  after_write-settles fuel h b bytes w (wrote zero, w') rest room p = λ e. cc
  after_write-settles fuel h b bytes w (wrote (suc n), w') rest room p =
      rest (drop n bytes) w' (omega (arith, length-drop_le n bytes))
  after_write-settles fuel h b bytes w (interrupted, w') rest room p =
      rest (b ∷ bytes) w' (omega arith)
  after_write-settles fuel h b bytes w (write_failed, w') rest room p = λ e. cc

  -- Where finitely many interruptions are to come, a round of fuel for each of them and for each byte
  -- is enough for the loop of ::write, whatever the calls write.
  pub write_all-settles :
      ((h : H) (bytes : Bytes) (w : W) → Progresses pending w (system.write h bytes w))
      → (fuel : ℕ) (h : H) (bytes : Bytes) (w : W) → length bytes + pending w ≤ fuel
      → (write_all system fuel h bytes w).0 ≢ out_of_fuel
  unfolding write_all
  write_all-settles p fuel h [] w room = λ e. cc
  write_all-settles p zero h (b ∷ bytes) w room = absurd (omega arith)
  write_all-settles p (suc fuel) h (b ∷ bytes) w room =
      after_write-settles fuel h b bytes w (system.write h (b ∷ bytes) w)
        (write_all-settles p fuel h) room (p h (b ∷ bytes) w)
