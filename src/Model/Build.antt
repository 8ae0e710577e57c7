-- ===== src/Model/Build.antt =====
-- What building a value in the arena gives: a tree of new slots, and nothing else changed.
pub mod Slot
pub mod Child
pub mod Laws
use config_manager.Common.{
  ℕ, zero, suc, ◌+◌, ◌<◌, ◌≤◌, ◌≡◌, ◌≢◌, refl, sym, ap, ◌∙◌, Bytes, Bool, true, false, ltb, List,
  [], ◌∷◌, ◌++◌, Option, none, some, get_elem?, set, length, length-set, get_elem?-set_self,
  get_elem?-set_ne, lt-length_of_get_elem?, if◌then◌else◌, count, count-append, arith, append_assoc,
  append-nil, Result, ok,
}
use config_manager.Value.{
  ConfigValue, scalar, object, array, Members, no_members, member, Elements, no_elements, element,
  NodeType, object_type, array_type, scalar_type, Scalar, monostate,
}
use config_manager.Arena.{Arena, Node, node_id_none, write_node, new_node, allocate}
use config_manager.Arena.Slots.{IsPartition, IsPartition-write, Allocated, allocate-Allocated}
use config_manager.Arena.State.{
  Action, new, modify, with_parent, with_scalar, with_member, with_element,
}
use config_manager.Arena.Actions.{modify-ok}
use config_manager.Model.Store.{begin, build, add_members, add_elements}
use config_manager.Model.Tree.{
  Tree, leaf, branches_at, items_at, Branches, no_branches, branch, Items, no_items, item, root_of,
  branch_ids, item_ids, leaf_node, object_node, array_node, node_of, value_of, members_of,
  elements_of, ids, ids_below, ids_in, Holds, HoldsBranches, HoldsItems, nodes_in, nodes_in_members,
  nodes_in_elements, SameOn, frame, frame_below, frame_in,
}

pub IsPartition-perm :
    {a : Arena} {xs ys frees : List ℕ}
    → ((i : ℕ) → count i xs ≡ count i ys)
    → IsPartition a xs frees
    → IsPartition a ys frees
IsPartition-perm same p = record {
  chain = p.chain;
  once = λ i. rw (← same i) (p.once i);
  small = p.small;
}

-- What building a value gives: a tree of slots that nobody owned before.
pub record Built (v : ConfigValue) (parent : ℕ) (a : Arena) (owned : List ℕ)
    (out : Result (ℕ × Arena)) : Type 0 where
  pub tree : Tree
  pub arena : Arena
  pub frees : List ℕ
  pub returns : out ≡ ok (root_of tree, arena)
  pub value : value_of tree ≡ v
  pub holds : Holds arena.nodes parent tree
  pub partition : IsPartition arena (ids tree ++ owned) frees
  pub others : SameOn owned a.nodes arena.nodes
  pub grows : length arena.nodes ≤ length a.nodes + nodes_in v

-- The same of the members that are added to the object in slot `id`, which holds `n`.
pub record AddedMembers (ms : Members) (id : ℕ) (n : Node) (a : Arena) (owned : List ℕ)
    (out : Result (Unit {0} × Arena)) : Type 0 where
  pub branches : Branches
  pub arena : Arena
  pub frees : List ℕ
  pub returns : out ≡ ok (tt, arena)
  pub value : members_of branches ≡ ms
  pub node :
      get_elem? arena.nodes id ≡ some (record n { members = n.members ++ branch_ids branches })
  pub holds : HoldsBranches arena.nodes id branches
  pub partition : IsPartition arena (ids_below branches ++ owned) frees
  pub others : (i : ℕ) → count i owned ≢ 0 → i ≢ id → get_elem? arena.nodes i ≡ get_elem? a.nodes i
  pub grows : length arena.nodes ≤ length a.nodes + nodes_in_members ms

pub record AddedElements (es : Elements) (id : ℕ) (n : Node) (a : Arena) (owned : List ℕ)
    (out : Result (Unit {0} × Arena)) : Type 0 where
  pub items : Items
  pub arena : Arena
  pub frees : List ℕ
  pub returns : out ≡ ok (tt, arena)
  pub value : elements_of items ≡ es
  pub node : get_elem? arena.nodes id ≡ some (record n { elements = n.elements ++ item_ids items })
  pub holds : HoldsItems arena.nodes id items
  pub partition : IsPartition arena (ids_in items ++ owned) frees
  pub others : (i : ℕ) → count i owned ≢ 0 → i ≢ id → get_elem? arena.nodes i ≡ get_elem? a.nodes i
  pub grows : length arena.nodes ≤ length a.nodes + nodes_in_elements es
