-- ===== src/Common/Results.antt =====
-- include/configmanager/result.hpp. A call returns a value or an error code (the message is not
-- modelled), or violates an assertion (`fault`); `out_of_fuel` belongs to the model alone: a loop
-- was given too few rounds.
use mathlib.Core.Path.{◌≡◌, refl, ap}
use mathlib.Core.Bool.{Bool, true, false}

pub data ErrorCode : Type 0 where
  invalid_path node_not_found invalid_type parse_error : ErrorCode
  serialization_error migration_failed missing_migration : ErrorCode
  invalid_version storage_error : ErrorCode

pub data Result {ℓ} (A : Type ℓ) : Type ℓ where
  ok : A → Result A
  err : ErrorCode → Result A
  fault : Result A
  out_of_fuel : Result A

infixl 5 ◌>>=◌ ◌>>◌
abbrev pub ◌>>=◌ {ℓ κ} : {A : Type ℓ} {B : Type κ} → Result A → (A → Result B) → Result B
fault >>= next = fault
out_of_fuel >>= next = out_of_fuel
err code >>= next = err code
ok result >>= next = next result

abbrev pub ◌>>◌ {ℓ} : {B : Type ℓ} → Result (Unit {0}) → Result B → Result B
first >> second = first >>= λ _. second

abbrev pub is_ok {ℓ} : {A : Type ℓ} → Result A → Bool
is_ok (ok _) = true
is_ok _ = false

-- What follows from both parts' success follows from the whole's.
pub bind_ok {ℓ κ ι} :
    {A : Type ℓ} {B : Type κ} {C : Type ι} (m : Result A) (f : A → Result B) {b : B}
    → (m >>= f) ≡ ok b
    → ((a : A) → m ≡ ok a → f a ≡ ok b → C)
    → C
bind_ok (ok a) f h k = k a refl h
bind_ok (err e) f h k = cc
bind_ok fault f h k = cc
bind_ok out_of_fuel f h k = cc

abbrev ok_or {ℓ} : {A : Type ℓ} → A → Result A → A
ok_or d (ok a) = a
ok_or d _ = d

pub ok_injective {ℓ} : {A : Type ℓ} {a b : A} → ok a ≡ ok b → a ≡ b
ok_injective {a} e = ap (ok_or a) e

pub bind_cong {ℓ κ} :
    {A : Type ℓ} {B : Type κ} (m : Result A) (f g : A → Result B)
    → ((a : A) → m ≡ ok a → f a ≡ g a)
    → (m >>= f) ≡ (m >>= g)
bind_cong (ok a) f g h = h a refl
bind_cong (err e) f g h = refl
bind_cong fault f g h = refl
bind_cong out_of_fuel f g h = refl
