-- ===== src/Model/Extract.antt =====
-- buildValue returns the value of the tree that the arena holds.
use config_manager.Common.{
  ℕ, zero, suc, ◌≤◌, ◌≡◌, refl, sym, ap, ◌∙◌, Bytes, bytes_eq→eq, bytes_eq_self, false, ◌||◌, arith,
  Result, ok,
}
use config_manager.Value.{
  ConfigValue, scalar, object, array, Members, no_members, member, Elements, no_elements, element,
  has_key, put_member, append_element, set_key, push, Scalar, monostate, bool, int64, double,
  string, scalar_type,
}
use config_manager.Arena.{Arena}
use config_manager.Arena.Actions.{get-ok}
use config_manager.Model.Read.{build_members, build_elements, build_value, node_value}
use config_manager.Model.Tree.{
  Tree, leaf, branches_at, items_at, Branches, no_branches, branch, Items, no_items, item, root_of,
  branch_ids, item_ids, leaf_node, value_of, members_of, elements_of, Holds, HoldsBranches,
  HoldsItems, nodes_in, nodes_in_members, nodes_in_elements,
}
use config_manager.Model.Spec.{HasUniqueKeys, AreUnique, AllHaveUniqueKeys}

abbrev append_members : Members → Members → Members
append_members no_members ms = ms
append_members (member k v ns) ms = member k v (append_members ns ms)

abbrev append_elements : Elements → Elements → Elements
append_elements no_elements es = es
append_elements (element v ns) es = element v (append_elements ns es)

append_members_assoc :
    (xs bs cs : Members)
    → append_members (append_members xs bs) cs ≡ append_members xs (append_members bs cs)
append_members_assoc no_members bs cs = refl
append_members_assoc (member k v xs) bs cs = ap (member k v) (append_members_assoc xs bs cs)

append_elements_assoc :
    (xs bs cs : Elements)
    → append_elements (append_elements xs bs) cs ≡ append_elements xs (append_elements bs cs)
append_elements_assoc no_elements bs cs = refl
append_elements_assoc (element v xs) bs cs = ap (element v) (append_elements_assoc xs bs cs)

put_member-absent :
    (k : Bytes) (v : ConfigValue) (ms : Members)
    → has_key k ms ≡ false
    → put_member k v ms ≡ append_members ms (member k v no_members)
unfolding has_key put_member
put_member-absent k v no_members h = refl
put_member-absent k v (member j w ms) h = ground (arith, put_member-absent k v ms)

append_element-end :
    (v : ConfigValue) (es : Elements)
    → append_element v es ≡ append_elements es (element v no_elements)
unfolding append_element
append_element-end v no_elements = refl
append_element-end v (element w es) = ap (element w) (append_element-end v es)

has_key-append :
    (k : Bytes) (ms ns : Members)
    → has_key k (append_members ms ns) ≡ (has_key k ms || has_key k ns)
unfolding has_key
has_key-append k no_members ns = refl
has_key-append k (member j v ms) ns = ground (arith, has_key-append k ms ns)

-- No member of the second has a name of the first.
abbrev AreAbsent : Members → Members → Type 0
AreAbsent acc no_members = Unit {0}
AreAbsent acc (member k v ms) = (has_key k acc ≡ false) × AreAbsent acc ms

AreAbsent-append :
    (acc : Members) (k : Bytes) (v : ConfigValue) (ms : Members)
    → AreAbsent acc ms
    → has_key k ms ≡ false
    → AreAbsent (append_members acc (member k v no_members)) ms
unfolding has_key
AreAbsent-append acc k v no_members h fresh = tt
AreAbsent-append acc k v (member j w ms) h fresh = (
  ground (arith, has_key-append j acc (member k v no_members), bytes_eq→eq k j, bytes_eq_self k),
  AreAbsent-append acc k v ms h.1 (ground arith),
)

AreAbsent-nil : (ms : Members) → AreAbsent no_members ms
unfolding has_key
AreAbsent-nil no_members = tt
AreAbsent-nil (member k v ms) = (refl, AreAbsent-nil ms)

-- The recursive calls return the children's values.
abbrev ReadsBranches : (ℕ → Result ConfigValue) → Branches → Type 0
ReadsBranches rec no_branches = Unit {0}
ReadsBranches rec (branch k t bs) = (rec (root_of t) ≡ ok (value_of t)) × ReadsBranches rec bs

abbrev ReadsItems : (ℕ → Result ConfigValue) → Items → Type 0
ReadsItems rec no_items = Unit {0}
ReadsItems rec (item t is) = (rec (root_of t) ≡ ok (value_of t)) × ReadsItems rec is

append_members-nil : (ms : Members) → append_members ms no_members ≡ ms
append_members-nil no_members = refl
append_members-nil (member k v ms) = ap (member k v) (append_members-nil ms)

append_elements-nil : (es : Elements) → append_elements es no_elements ≡ es
append_elements-nil no_elements = refl
append_elements-nil (element v es) = ap (element v) (append_elements-nil es)

build_members-branches :
    (rec : ℕ → Result ConfigValue) (acc : Members) (bs : Branches)
    → ReadsBranches rec bs
    → AreAbsent acc (members_of bs)
    → AreUnique (members_of bs)
    → build_members rec (object acc) (branch_ids bs)
      ≡ ok (object (append_members acc (members_of bs)))
unfolding build_members set_key
build_members-branches rec acc no_branches reads absent unique =
    ap (λ ms. ok (object ms)) (sym (append_members-nil acc))
build_members-branches rec acc (branch k t bs) (one, reads) (fresh, absent) (alone, _, unique) =
    rw (one, put_member-absent k (value_of t) acc fresh)
      (build_members-branches rec (append_members acc (member k (value_of t) no_members)) bs reads
          (AreAbsent-append acc k (value_of t) (members_of bs) absent alone) unique
        ∙ ap (λ ms. ok (object ms))
            (append_members_assoc acc (member k (value_of t) no_members) (members_of bs)))

build_elements-items :
    (rec : ℕ → Result ConfigValue) (acc : Elements) (is : Items)
    → ReadsItems rec is
    → build_elements rec (array acc) (item_ids is)
      ≡ ok (array (append_elements acc (elements_of is)))
unfolding build_elements push
build_elements-items rec acc no_items reads =
    ap (λ es. ok (array es)) (sym (append_elements-nil acc))
build_elements-items rec acc (item t is) (one, reads) =
    rw (one, append_element-end (value_of t) acc)
      (build_elements-items rec (append_elements acc (element (value_of t) no_elements)) is reads
        ∙ ap (λ es. ok (array es))
            (append_elements_assoc acc (element (value_of t) no_elements) (elements_of is)))

held_scalar-scalar :
    (rec : ℕ → Result ConfigValue) (g p : ℕ) (s : Scalar)
    → node_value rec (scalar_type s) (leaf_node g s p) ≡ ok (scalar s)
held_scalar-scalar rec g p monostate = refl
held_scalar-scalar rec g p (bool b) = refl
held_scalar-scalar rec g p (int64 z) = refl
held_scalar-scalar rec g p (double d) = refl
held_scalar-scalar rec g p (string s) = refl

mutual
  unfolding build_value

  reads :
      (fuel : ℕ) (a : Arena) (p : ℕ) (t : Tree)
      → Holds a.nodes p t
      → HasUniqueKeys (value_of t)
      → nodes_in (value_of t) ≤ fuel
      → build_value fuel a (root_of t) ≡ ok (value_of t)
  reads zero a p (leaf id g s) h unique room = absurd (omega arith)
  reads zero a p (branches_at id g bs) h unique room = absurd (omega arith)
  reads zero a p (items_at id g is) h unique room = absurd (omega arith)
  reads (suc fuel) a p (leaf id g s) h unique room =
      rw (get-ok a id h refl) (held_scalar-scalar (build_value fuel a) g p s)
  reads (suc fuel) a p (branches_at id g bs) h unique room = rw (get-ok a id h.0 refl) (
      build_members-branches (build_value fuel a) no_members bs
        (reads_below fuel a id bs h.1 unique (omega arith)) (AreAbsent-nil (members_of bs)) unique)
  reads (suc fuel) a p (items_at id g is) h unique room = rw (get-ok a id h.0 refl) (
      build_elements-items (build_value fuel a) no_elements is
        (reads_in fuel a id is h.1 unique (omega arith)))

  reads_below :
      (fuel : ℕ) (a : Arena) (p : ℕ) (bs : Branches)
      → HoldsBranches a.nodes p bs
      → AreUnique (members_of bs)
      → nodes_in_members (members_of bs) ≤ fuel
      → ReadsBranches (build_value fuel a) bs
  reads_below fuel a p no_branches h unique room = tt
  reads_below fuel a p (branch k t bs) h unique room = (
    reads fuel a p t h.0 unique.1 (omega arith),
    reads_below fuel a p bs h.1 unique.2 (omega arith),
  )

  reads_in :
      (fuel : ℕ) (a : Arena) (p : ℕ) (is : Items)
      → HoldsItems a.nodes p is
      → AllHaveUniqueKeys (elements_of is)
      → nodes_in_elements (elements_of is) ≤ fuel
      → ReadsItems (build_value fuel a) is
  reads_in fuel a p no_items h unique room = tt
  reads_in fuel a p (item t is) h unique room =
      (reads fuel a p t h.0 unique.0 (omega arith), reads_in fuel a p is h.1 unique.1 (omega arith))

-- Where the arena holds a tree whose objects have no two members of one name, buildValue with a
-- round of fuel for each of its nodes returns its value.
pub build_value-tree :
    (fuel : ℕ) (a : Arena) (p : ℕ) (t : Tree)
    → Holds a.nodes p t
    → HasUniqueKeys (value_of t)
    → nodes_in (value_of t) ≤ fuel
    → build_value fuel a (root_of t) ≡ ok (value_of t)
build_value-tree fuel a p t h unique room = reads fuel a p t h unique room
