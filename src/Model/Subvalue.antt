-- ===== src/Model/Subvalue.antt =====
-- The values inside a value.
use config_manager.Common.{
  ℕ, zero, suc, ◌≤◌, ◌≡◌, Bytes, bytes_eq, Bool-cases, inl, inr, List, [], ◌∷◌, arith, ok,
  ok_injective, bind_ok,
}
use mathlib.Core.Path.{subst}
use config_manager.Path.{PathSegment, key, index}
use config_manager.Value.{
  ConfigValue, scalar, object, array, Members, no_members, member, Elements, no_elements, element,
}
use config_manager.Model.Tree.{nodes_in, nodes_in_members, nodes_in_elements}
use config_manager.Model.Spec.{
  get_member, get_element, step_value, value_at, HasUniqueKeys, AreUnique, AllHaveUniqueKeys,
}

-- A part of a value with `n` nodes.
abbrev pub IsPart : ℕ → ConfigValue → Type 0
IsPart n w = HasUniqueKeys w × (nodes_in w ≤ n)

get_member-IsPart :
    (k : Bytes) (ms : Members) {w : ConfigValue}
    → AreUnique ms
    → get_member k ms ≡ ok w
    → IsPart (nodes_in_members ms) w
get_member-IsPart k no_members u e = cc
get_member-IsPart k (member j v ms) {w} u e = elim (Bool-cases (bytes_eq j k)) [
  | inl same ↦ subst (IsPart _) (ok_injective (rw same at e)) (u.1, omega arith)
  | inr other ↦ let part = get_member-IsPart k ms u.2 (rw other at e) in (part.0, omega arith)
]

get_element-IsPart :
    (i : ℕ) (es : Elements) {w : ConfigValue}
    → AllHaveUniqueKeys es
    → get_element i es ≡ ok w
    → IsPart (nodes_in_elements es) w
get_element-IsPart i no_elements u e = cc
get_element-IsPart zero (element v es) u e = subst (IsPart _) (ok_injective e) (u.0, omega arith)
get_element-IsPart (suc i) (element v es) u e =
    let part = get_element-IsPart i es u.1 e in (part.0, omega arith)

pub step_value-IsPart :
    (s : PathSegment) (v : ConfigValue) {w : ConfigValue}
    → HasUniqueKeys v
    → step_value s v ≡ ok w
    → IsPart (nodes_in v) w
step_value-IsPart (key k) (object ms) u e =
    let part = get_member-IsPart k ms u e in (part.0, omega arith)
step_value-IsPart (key k) (scalar s) u e = cc
step_value-IsPart (key k) (array es) u e = cc
step_value-IsPart (index i) (array es) u e =
    let part = get_element-IsPart i es u e in (part.0, omega arith)
step_value-IsPart (index i) (scalar s) u e = cc
step_value-IsPart (index i) (object ms) u e = cc

pub value_at-IsPart :
    (v : ConfigValue) (segments : List PathSegment) {w : ConfigValue}
    → HasUniqueKeys v
    → value_at v segments ≡ ok w
    → HasUniqueKeys w × (nodes_in w ≤ nodes_in v)
value_at-IsPart v [] u e = subst (IsPart _) (ok_injective e) (u, omega arith)
value_at-IsPart v (s ∷ segments) u e =
    bind_ok (step_value s v) (λ x. value_at x segments) e
      λ x one rest.
        let first = step_value-IsPart s v u one in
        let part = value_at-IsPart x segments first.0 rest in (part.0, omega arith)
