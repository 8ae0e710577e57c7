-- ===== src/Model/Build/Laws.antt =====
-- buildFromValue, by induction on the value.
use config_manager.Common.{
  ℕ, ◌+◌, ◌≤◌, ◌≡◌, ◌≢◌, refl, ap, ◌∙◌, Bytes, true, List, [], ◌∷◌, ◌++◌, some, get_elem?, length,
  count, count-append, arith, append_assoc, append-nil,
}
use config_manager.Value.{
  ConfigValue, scalar, object, array, Members, no_members, member, Elements, no_elements, element,
  object_type, array_type,
}
use config_manager.Arena.{Arena, Node, node_id_none}
use config_manager.Arena.Slots.{IsPartition}
use config_manager.Arena.State.{with_member, with_element}
use config_manager.Model.Store.{begin, build, add_members, add_elements}
use config_manager.Model.Tree.{
  branches_at, items_at, no_branches, branch, no_items, item, root_of, branch_ids, item_ids,
  object_node, array_node, ids, ids_below, ids_in, nodes_in, nodes_in_members, nodes_in_elements,
}
use config_manager.Model.Build.Slot.{Begun, ne_of_owned, begin-Begun, build_scalar}
use config_manager.Model.Build.Child.{Linked, link-Linked, keep_child, count-regroup, count_root}
use config_manager.Model.Build.{IsPartition-perm, Built, AddedMembers, AddedElements}

module _ {parent : ℕ} {a : Arena} {owned : List ℕ} where
  finish_object :
      (ms : Members) (b : Begun object_type parent a owned (begin object_type parent a))
      → AddedMembers ms b.id
          (object_node b.generation [] parent)
          b.arena
          (b.id ∷ owned)
          (add_members ms b.id b.arena)
      → Built (object ms) parent a owned (build (object ms) parent a)
  unfolding build
  finish_object ms b m = record {
    tree = branches_at b.id b.generation m.branches;
    arena = m.arena;
    frees = m.frees;
    returns = rw (b.returns, m.returns) refl;
    value = ap object m.value;
    holds = (m.node, m.holds);
    partition = IsPartition-perm (λ i. count_root i b.id (ids_below m.branches) owned) m.partition;
    others = λ i h.
        let other = ne_of_owned i b.id owned b.fresh h in
        m.others i (ground arith) other ∙ b.others i other;
    grows = omega (arith, m.grows, b.grows);
  }

  finish_array :
      (es : Elements) (b : Begun array_type parent a owned (begin array_type parent a))
      → AddedElements es b.id
          (array_node b.generation [] parent)
          b.arena
          (b.id ∷ owned)
          (add_elements es b.id b.arena)
      → Built (array es) parent a owned (build (array es) parent a)
  unfolding build
  finish_array es b m = record {
    tree = items_at b.id b.generation m.items;
    arena = m.arena;
    frees = m.frees;
    returns = rw (b.returns, m.returns) refl;
    value = ap array m.value;
    holds = (m.node, m.holds);
    partition = IsPartition-perm (λ i. count_root i b.id (ids_in m.items) owned) m.partition;
    others = λ i h.
        let other = ne_of_owned i b.id owned b.fresh h in
        m.others i (ground arith) other ∙ b.others i other;
    grows = omega (arith, m.grows, b.grows);
  }

module _ {id : ℕ} {n : Node} {a : Arena} {owned : List ℕ} (mine : count id owned ≢ 0) where
  finish_member :
      (k : Bytes) (v : ConfigValue) (ms : Members) (b : Built v id a owned (build v id a))
      (l : Linked id (with_member k (root_of b.tree)) n a owned b.tree b.arena)
      → AddedMembers ms id
          (with_member k (root_of b.tree) n)
          l.arena
          (ids b.tree ++ owned)
          (add_members ms id l.arena)
      → AddedMembers (member k v ms) id n a owned (add_members (member k v ms) id a)
  unfolding build
  finish_member k v ms b l m = record {
    branches = branch k b.tree m.branches;
    arena = m.arena;
    frees = m.frees;
    returns = rw (b.returns, l.returns, m.returns) refl;
    value = λ j. member k (b.value j) (m.value j);
    node =
        m.node
        ∙ ap (λ xs. some (record n { members = xs }))
            (append_assoc n.members ((k, root_of b.tree) ∷ []) (branch_ids m.branches));
    holds = (
      keep_child id b.tree owned l.arena.nodes m.arena.nodes l.partition mine m.others l.holds,
      m.holds,
    );
    partition =
        IsPartition-perm (λ i. count-regroup i (ids b.tree) (ids_below m.branches) owned)
          m.partition;
    others = λ i h other.
        m.others i (ground (arith, count-append i (ids b.tree) owned)) other ∙ l.others i h other;
    grows = omega (arith, m.grows, l.same_length, b.grows);
  }

  finish_element :
      (v : ConfigValue) (es : Elements) (b : Built v id a owned (build v id a))
      (l : Linked id (with_element (root_of b.tree)) n a owned b.tree b.arena)
      → AddedElements es id
          (with_element (root_of b.tree) n)
          l.arena
          (ids b.tree ++ owned)
          (add_elements es id l.arena)
      → AddedElements (element v es) id n a owned (add_elements (element v es) id a)
  unfolding build
  finish_element v es b l m = record {
    items = item b.tree m.items;
    arena = m.arena;
    frees = m.frees;
    returns = rw (b.returns, l.returns, m.returns) refl;
    value = λ j. element (b.value j) (m.value j);
    node =
        m.node
        ∙ ap (λ xs. some (record n { elements = xs }))
            (append_assoc n.elements (root_of b.tree ∷ []) (item_ids m.items));
    holds = (
      keep_child id b.tree owned l.arena.nodes m.arena.nodes l.partition mine m.others l.holds,
      m.holds,
    );
    partition =
        IsPartition-perm (λ i. count-regroup i (ids b.tree) (ids_in m.items) owned) m.partition;
    others = λ i h other.
        m.others i (ground (arith, count-append i (ids b.tree) owned)) other ∙ l.others i h other;
    grows = omega (arith, m.grows, l.same_length, b.grows);
  }

mutual
  unfolding build

  built :
      (v : ConfigValue) (parent : ℕ) (a : Arena) (owned frees : List ℕ)
      → IsPartition a owned frees
      → length a.nodes + nodes_in v ≤ node_id_none
      → Built v parent a owned (build v parent a)
  built (scalar s) parent a owned frees p room = build_scalar s parent a owned frees p (omega arith)
  built (object ms) parent a owned frees p room =
      let b = begin-Begun object_type parent a owned frees p (omega arith) in
      finish_object ms b (
        add_members-Added ms b.id (object_node b.generation [] parent) b.arena (b.id ∷ owned)
          b.frees b.partition b.holds refl (ground arith) (omega (arith, b.grows)))
  built (array es) parent a owned frees p room =
      let b = begin-Begun array_type parent a owned frees p (omega arith) in
      finish_array es b (
        add_elements-Added es b.id (array_node b.generation [] parent) b.arena (b.id ∷ owned)
          b.frees b.partition b.holds refl (ground arith) (omega (arith, b.grows)))

  add_members-Added :
      (ms : Members) (id : ℕ) (n : Node) (a : Arena) (owned frees : List ℕ)
      → IsPartition a owned frees
      → get_elem? a.nodes id ≡ some n
      → n.alive ≡ true
      → count id owned ≢ 0
      → length a.nodes + nodes_in_members ms ≤ node_id_none
      → AddedMembers ms id n a owned (add_members ms id a)
  add_members-Added no_members id n a owned frees p en live mine room = record {
    branches = no_branches;
    arena = a;
    frees = frees;
    returns = refl;
    value = refl;
    node = rw (append-nil n.members) en;
    holds = tt;
    partition = p;
    others = λ i h other. refl;
    grows = omega arith;
  }
  add_members-Added (member k v ms) id n a owned frees p en live mine room =
      let b = built v id a owned frees p (omega arith) in
      let l = link-Linked id (with_member k (root_of b.tree)) n b en live mine in
      finish_member mine k v ms b l (
        add_members-Added ms id (with_member k (root_of b.tree) n) l.arena (ids b.tree ++ owned)
          l.frees l.partition l.node live (ground (arith, count-append id (ids b.tree) owned))
          (omega (arith, b.grows, l.same_length)))

  add_elements-Added :
      (es : Elements) (id : ℕ) (n : Node) (a : Arena) (owned frees : List ℕ)
      → IsPartition a owned frees
      → get_elem? a.nodes id ≡ some n
      → n.alive ≡ true
      → count id owned ≢ 0
      → length a.nodes + nodes_in_elements es ≤ node_id_none
      → AddedElements es id n a owned (add_elements es id a)
  add_elements-Added no_elements id n a owned frees p en live mine room = record {
    items = no_items;
    arena = a;
    frees = frees;
    returns = refl;
    value = refl;
    node = rw (append-nil n.elements) en;
    holds = tt;
    partition = p;
    others = λ i h other. refl;
    grows = omega arith;
  }
  add_elements-Added (element v es) id n a owned frees p en live mine room =
      let b = built v id a owned frees p (omega arith) in
      let l = link-Linked id (with_element (root_of b.tree)) n b en live mine in
      finish_element mine v es b l (
        add_elements-Added es id (with_element (root_of b.tree) n) l.arena (ids b.tree ++ owned)
          l.frees l.partition l.node live (ground (arith, count-append id (ids b.tree) owned))
          (omega (arith, b.grows, l.same_length)))

-- Into an arena whose slots are owned or free, with room for the value's nodes, buildFromValue puts
-- a tree of slots that nobody owned before: it holds exactly the value, under the parent given. The
-- slots are still partitioned, those of the tree now owned too, and no slot that was owned before
-- has changed.
pub build-Built :
    (v : ConfigValue) (parent : ℕ) (a : Arena) (owned frees : List ℕ)
    → IsPartition a owned frees
    → length a.nodes + nodes_in v ≤ node_id_none
    → Built v parent a owned (build v parent a)
build-Built v parent a owned frees p room = built v parent a owned frees p room
