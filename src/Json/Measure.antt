-- ===== src/Json/Measure.antt =====
-- The nodes and the depth of a value, and what a frame's container gains by one more value.
use config_manager.Common.{
  ℕ, suc, ◌+◌, ◌≤◌, ◌≡◌, refl, Bytes, bytes_eq, Bool-cases, inl, inr, if◌then◌else◌, arith, Result,
  ok, ◌>>=◌, ok_injective, [],
}
use mathlib.Core.Path.{subst}
use config_manager.Value.{
  ConfigValue, scalar, object, array, Members, no_members, member, Elements, no_elements, element,
  put_member, append_element, set_key, push, type_eq, type_of, object_type,
}
use config_manager.Model.Read.{max_tree_depth}
use config_manager.Model.Tree.{nodes_in, nodes_in_members, nodes_in_elements}
use config_manager.Json.{Frame, fill_frame}

-- The nodes below the value's own.
abbrev pub inside : ConfigValue → ℕ
inside (scalar s) = 0
inside (object ms) = nodes_in_members ms
inside (array es) = nodes_in_elements es

pub nodes_in-inside : (v : ConfigValue) → nodes_in v ≡ suc (inside v)
nodes_in-inside (scalar s) = refl
nodes_in-inside (object ms) = refl
nodes_in-inside (array es) = refl

-- A value at depth `d` has no node deeper than the limit.
abbrev mutual
  pub IsShallow : ℕ → ConfigValue → Type 0
  IsShallow d (scalar s) = d ≤ max_tree_depth
  IsShallow d (object ms) = (d ≤ max_tree_depth) × AreShallowMembers (suc d) ms
  IsShallow d (array es) = (d ≤ max_tree_depth) × AreShallowElements (suc d) es

  pub AreShallowMembers : ℕ → Members → Type 0
  AreShallowMembers d no_members = Unit {0}
  AreShallowMembers d (member k v ms) = IsShallow d v × AreShallowMembers d ms

  pub AreShallowElements : ℕ → Elements → Type 0
  AreShallowElements d no_elements = Unit {0}
  AreShallowElements d (element v es) = IsShallow d v × AreShallowElements d es

nodes_in_members-put :
    (k : Bytes) (v : ConfigValue) (ms : Members)
    → nodes_in_members (put_member k v ms) ≤ nodes_in_members ms + nodes_in v
unfolding put_member
nodes_in_members-put k v no_members = omega arith
nodes_in_members-put k v (member j u ms) = elim (Bool-cases (bytes_eq j k)) [
  | inl same ↦ rw same (omega arith)
  | inr other ↦ rw other (omega (arith, nodes_in_members-put k v ms))
]

nodes_in_elements-append :
    (v : ConfigValue) (es : Elements)
    → nodes_in_elements (append_element v es) ≤ nodes_in_elements es + nodes_in v
unfolding append_element
nodes_in_elements-append v no_elements = omega arith
nodes_in_elements-append v (element u es) = omega (arith, nodes_in_elements-append v es)

AreShallowMembers-put :
    (d : ℕ) (k : Bytes) (v : ConfigValue) (ms : Members)
    → AreShallowMembers d ms
    → IsShallow d v
    → AreShallowMembers d (put_member k v ms)
unfolding put_member
AreShallowMembers-put d k v no_members s sv = (sv, tt)
AreShallowMembers-put d k v (member j u ms) (su, s) sv = elim (Bool-cases (bytes_eq j k)) [
  | inl same ↦ rw same (sv, s)
  | inr other ↦ rw other (su, AreShallowMembers-put d k v ms s sv)
]

AreShallowElements-append :
    (d : ℕ) (v : ConfigValue) (es : Elements)
    → AreShallowElements d es
    → IsShallow d v
    → AreShallowElements d (append_element v es)
unfolding append_element
AreShallowElements-append d v no_elements s sv = (sv, tt)
AreShallowElements-append d v (element u es) (su, s) sv =
    (su, AreShallowElements-append d v es s sv)

-- What a frame over this container becomes.
abbrev Filled : ConfigValue → Bytes → ConfigValue → Result Frame
Filled v k c =
    if type_eq (type_of c) object_type
    then (do c' ← set_key k v c; ok (record { container = c'; pending_key = [] }))
    else (do c' ← push v c; ok (record { container = c'; pending_key = k }))

filled-inside :
    (v : ConfigValue) (k : Bytes) (c : ConfigValue) (g : Frame)
    → Filled v k c ≡ ok g
    → inside g.container ≤ inside c + nodes_in v
unfolding set_key push
filled-inside v k (scalar s) g h = absurd (ground (arith, h))
filled-inside v k (object ms) g h =
    subst (λ x. inside x.container ≤ nodes_in_members ms + nodes_in v) (ok_injective h)
      (nodes_in_members-put k v ms)
filled-inside v k (array es) g h =
    subst (λ x. inside x.container ≤ nodes_in_elements es + nodes_in v) (ok_injective h)
      (nodes_in_elements-append v es)

pub inside-fill_frame :
    (v : ConfigValue) (f g : Frame)
    → fill_frame v f ≡ ok g
    → inside g.container ≤ inside f.container + nodes_in v
unfolding fill_frame
inside-fill_frame v f g h = filled-inside v f.pending_key f.container g h

filled-IsShallow :
    (d : ℕ) (v : ConfigValue) (k : Bytes) (c : ConfigValue) (g : Frame)
    → Filled v k c ≡ ok g
    → IsShallow d c
    → IsShallow (suc d) v
    → IsShallow d g.container
unfolding set_key push
filled-IsShallow d v k (scalar s) g h sc sv = absurd (ground (arith, h))
filled-IsShallow d v k (object ms) g h (room, sc) sv =
    subst (λ x. IsShallow d x.container) (ok_injective h)
      (room, AreShallowMembers-put (suc d) k v ms sc sv)
filled-IsShallow d v k (array es) g h (room, sc) sv =
    subst (λ x. IsShallow d x.container) (ok_injective h)
      (room, AreShallowElements-append (suc d) v es sc sv)

pub IsShallow-fill_frame :
    (d : ℕ) (v : ConfigValue) (f g : Frame)
    → fill_frame v f ≡ ok g
    → IsShallow d f.container
    → IsShallow (suc d) v
    → IsShallow d g.container
unfolding fill_frame
IsShallow-fill_frame d v f g h s sv = filled-IsShallow d v f.pending_key f.container g h s sv
