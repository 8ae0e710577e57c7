-- ===== src/Model/Edit/Unique.antt =====
-- An edit gives no object two members of one name.
use mathlib.Core.Path.{subst}
use config_manager.Common.{
  ℕ, zero, suc, ◌≡◌, refl, ◌∙◌, bytes_eq, bytes_eq→eq, bytes_eq_self, Bytes, false, ◌||◌,
  Bool-cases, inl, inr, Option, none, some, List, [], ◌∷◌, arith, ok, ok_injective, bind_ok, all,
}
use config_manager.Path.{PathSegment, key, index}
use config_manager.Value.{
  ConfigValue, scalar, object, array, Members, no_members, member, Elements, no_elements, element,
  has_key, put_member, type_of, type_eq,
}
use config_manager.Model.Subvalue.{step_value-IsPart}
use config_manager.Model.Plan.{creatable_segment}
use config_manager.Model.Spec.{HasUniqueKeys, AreUnique, AllHaveUniqueKeys, step_value}
use config_manager.Model.Edit.{
  next_member, next_element, next_child, put_element, put_child, chain_value, write_child, write_at,
  erase_key, erase_index, erase_child, erase_at_path,
}

has_key-put :
    (j k : Bytes) (v : ConfigValue) (ms : Members)
    → has_key j (put_member k v ms) ≡ (bytes_eq k j || has_key j ms)
unfolding has_key put_member
has_key-put j k v no_members = refl
has_key-put j k v (member i w ms) = ground (
  arith,
  has_key-put j k v ms,
  bytes_eq→eq i k,
  bytes_eq→eq i j,
  bytes_eq→eq k j,
  bytes_eq_self k,
)

bytes_eq-false : (i k : Bytes) → bytes_eq i k ≡ false → bytes_eq k i ≡ false
bytes_eq-false i k h = ground (arith, bytes_eq→eq k i, bytes_eq_self k)

AreUnique-put :
    (k : Bytes) (v : ConfigValue) (ms : Members)
    → HasUniqueKeys v
    → AreUnique ms
    → AreUnique (put_member k v ms)
unfolding has_key put_member
AreUnique-put k v no_members hv u = (refl, hv, tt)
AreUnique-put k v (member i w ms) hv (new, hw, rest) = elim (Bool-cases (bytes_eq i k)) [
  | inl same ↦ rw same (new, hv, rest)
  | inr other ↦ rw other (
    has_key-put i k v ms ∙ ground (arith, new, bytes_eq-false i k other),
    hw,
    AreUnique-put k v ms hv rest,
  )
]

AllHaveUniqueKeys-put :
    (i : ℕ) (v : ConfigValue) (es : Elements)
    → HasUniqueKeys v
    → AllHaveUniqueKeys es
    → AllHaveUniqueKeys (put_element i v es)
AllHaveUniqueKeys-put i v no_elements hv u = (hv, tt)
AllHaveUniqueKeys-put zero v (element w es) hv u = (hv, u.1)
AllHaveUniqueKeys-put (suc i) v (element w es) hv u = (u.0, AllHaveUniqueKeys-put i v es hv u.1)

HasUniqueKeys-put :
    (s : PathSegment) (v w : ConfigValue)
    → HasUniqueKeys v
    → HasUniqueKeys w
    → HasUniqueKeys (put_child s v w)
HasUniqueKeys-put (key k) v (object ms) hv hw = AreUnique-put k v ms hv hw
HasUniqueKeys-put (key k) v (scalar x) hv hw = hw
HasUniqueKeys-put (key k) v (array es) hv hw = hw
HasUniqueKeys-put (index i) v (array es) hv hw = AllHaveUniqueKeys-put i v es hv hw
HasUniqueKeys-put (index i) v (scalar x) hv hw = hw
HasUniqueKeys-put (index i) v (object ms) hv hw = hw

HasUniqueKeys-chain :
    (segments : List PathSegment) (w : ConfigValue)
    → HasUniqueKeys w
    → HasUniqueKeys (chain_value segments w)
unfolding has_key
HasUniqueKeys-chain [] w h = h
HasUniqueKeys-chain (key k ∷ rest) w h = (refl, HasUniqueKeys-chain rest w h, tt)
HasUniqueKeys-chain (index i ∷ rest) w h = (HasUniqueKeys-chain rest w h, tt)

some_value : {u v : ConfigValue} → some u ≡ some v → u ≡ v
some_value e = cc

next_member_unique :
    (k : Bytes) (ms : Members) {u : ConfigValue}
    → AreUnique ms
    → next_member k ms ≡ some u
    → HasUniqueKeys u
next_member_unique k no_members h e = cc
next_member_unique k (member j v ms) h e = elim (Bool-cases (bytes_eq j k)) [
  | inl same ↦ subst HasUniqueKeys (some_value (rw same at e)) h.1
  | inr other ↦ next_member_unique k ms h.2 (rw other at e)
]

next_element_unique :
    (i : ℕ) (es : Elements) {u : ConfigValue}
    → AllHaveUniqueKeys es
    → next_element i es ≡ ok (some u)
    → HasUniqueKeys u
next_element_unique zero no_elements h e = cc
next_element_unique (suc i) no_elements h e = cc
next_element_unique zero (element v es) h e = subst HasUniqueKeys (some_value (ok_injective e)) h.0
next_element_unique (suc i) (element v es) h e = next_element_unique i es h.1 e

next_child_unique :
    (s : PathSegment) (v : ConfigValue) {u : ConfigValue}
    → HasUniqueKeys v
    → next_child s v ≡ ok (some u)
    → HasUniqueKeys u
next_child_unique (key k) (object ms) h e = next_member_unique k ms h (ok_injective e)
next_child_unique (key k) (scalar x) h e = cc
next_child_unique (key k) (array es) h e = cc
next_child_unique (index i) (array es) h e = next_element_unique i es h e
next_child_unique (index i) (scalar x) h e = cc
next_child_unique (index i) (object ms) h e = cc

pub write_at_unique :
    (segments : List PathSegment) (w v : ConfigValue) {v' : ConfigValue}
    → HasUniqueKeys w
    → HasUniqueKeys v
    → write_at segments w v ≡ ok v'
    → HasUniqueKeys v'
write_at_unique [] w v hw hv e = elim (Bool-cases (type_eq (type_of v) (type_of w))) [
  | inl same ↦ subst HasUniqueKeys (ok_injective (rw same at e)) hw
  | inr other ↦ absurd (ground (arith, e))
]
write_at_unique (s ∷ rest) w v {v'} hw hv e = bind_ok (next_child s v) _ e λ c found h.
    go c found h λ u x done below. write_at_unique rest w u hw (next_child_unique s v hv below) done
  where
    go :
        (c : Option ConfigValue)
        → next_child s v ≡ ok c
        → write_child (write_at rest w) s rest w v c ≡ ok v'
        → ((u : ConfigValue) (x : ConfigValue)
            → write_at rest w u ≡ ok x
            → next_child s v ≡ ok (some u)
            → HasUniqueKeys x)
        → HasUniqueKeys v'
    go none found h ih = elim (Bool-cases (all creatable_segment rest)) [
      | inl fine ↦
          subst HasUniqueKeys (ok_injective (rw fine at h))
            (HasUniqueKeys-put s (chain_value rest w) v (HasUniqueKeys-chain rest w hw) hv)
      | inr bad ↦ absurd (ground (arith, h))
    ]
    go (some u) found h ih = bind_ok (write_at rest w u) _ h λ x done k.
        subst HasUniqueKeys (ok_injective k) (HasUniqueKeys-put s x v (ih u x done found) hv)

has_key-erase :
    (j k : Bytes) (ms : Members) → has_key j ms ≡ false → has_key j (erase_key k ms) ≡ false
unfolding has_key
has_key-erase j k no_members h = h
has_key-erase j k (member i w ms) h = ground (arith, has_key-erase j k ms)

AreUnique-erase : (k : Bytes) (ms : Members) → AreUnique ms → AreUnique (erase_key k ms)
AreUnique-erase k no_members h = h
AreUnique-erase k (member i w ms) (new, hw, rest) = elim (Bool-cases (bytes_eq i k)) [
  | inl same ↦ rw same rest
  | inr other ↦ rw other (has_key-erase i k ms new, hw, AreUnique-erase k ms rest)
]

AllHaveUniqueKeys-erase :
    (i : ℕ) (es : Elements) → AllHaveUniqueKeys es → AllHaveUniqueKeys (erase_index i es)
AllHaveUniqueKeys-erase i no_elements h = h
AllHaveUniqueKeys-erase zero (element w es) h = h.1
AllHaveUniqueKeys-erase (suc i) (element w es) h = (h.0, AllHaveUniqueKeys-erase i es h.1)

HasUniqueKeys-erase :
    (s : PathSegment) (v : ConfigValue) → HasUniqueKeys v → HasUniqueKeys (erase_child s v)
HasUniqueKeys-erase (key k) (object ms) h = AreUnique-erase k ms h
HasUniqueKeys-erase (key k) (scalar x) h = h
HasUniqueKeys-erase (key k) (array es) h = h
HasUniqueKeys-erase (index i) (array es) h = AllHaveUniqueKeys-erase i es h
HasUniqueKeys-erase (index i) (scalar x) h = h
HasUniqueKeys-erase (index i) (object ms) h = h

pub erase_at_path_unique :
    (segments : List PathSegment) (v : ConfigValue) {v' : ConfigValue}
    → HasUniqueKeys v
    → erase_at_path segments v ≡ ok v'
    → HasUniqueKeys v'
erase_at_path_unique [] v hv e = cc
erase_at_path_unique (s ∷ []) v hv e =
    bind_ok (step_value s v) _ e
      λ u found h. subst HasUniqueKeys (ok_injective h) (HasUniqueKeys-erase s v hv)
erase_at_path_unique (s ∷ t ∷ rest) v hv e = bind_ok (step_value s v) _ e λ u found h.
    bind_ok (erase_at_path (t ∷ rest) u) _ h λ x done k. subst HasUniqueKeys (ok_injective k) (
      HasUniqueKeys-put s x v
        (erase_at_path_unique (t ∷ rest) u (step_value-IsPart s v hv found).0 done) hv)
