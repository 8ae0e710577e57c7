-- ===== src/Model/Assign.antt =====
-- assignContents. Here the children of the target are freed; Model/Assign/Adopt has the loops that give
-- children a new parent, and Model/Assign/Contents the whole.
pub mod Adopt
pub mod Laws
pub mod Contents
use config_manager.Common.{
  ℕ, suc, ◌≤◌, ◌≡◌, ◌≢◌, refl, sym, ap, ◌∙◌, true, List, [], ◌∷◌, ◌++◌, some, get_elem?, length,
  length-set, map, count, count-append, arith, ok,
}
use config_manager.Arena.{Arena, Node, write_node}
use config_manager.Arena.Slots.{IsPartition, IsPartition-write}
use config_manager.Arena.State.{with_parent, without_children}
use config_manager.Arena.Actions.{load-ok, modify-ok}
use config_manager.Model.Store.{for_each, free_children, free_subtree, adopt}
use config_manager.Model.Tree.{
  Tree, leaf, branches_at, items_at, Branches, no_branches, branch, Items, no_items, item, root_of,
  branch_ids, item_ids, leaf_node, object_node, array_node, node_of, value_of, ids, ids_below,
  ids_in, Holds, HoldsBranches, HoldsItems, SameOn, frame, frame_below, frame_in, nodes_in,
}
use config_manager.Model.Resolve.{Holds-root, node_alive}
use config_manager.Model.Build.{IsPartition-perm}
use config_manager.Model.Build.Slot.{write_self, write_other}
use config_manager.Model.Release.{
  ne_of_head, Freed, Freed-nothing, Cleared, clear-Cleared, both_loops, no_elements_left,
  count-swap, count_assoc, frees_below, frees_in,
}

-- A node whose children have been freed.
pub record Childless (fuel id : ℕ) (n : Node) (a : Arena) (owned : List ℕ) : Type 0 where
  pub arena : Arena
  pub frees : List ℕ
  pub returns : free_children (free_subtree fuel) id a ≡ ok (tt, arena)
  pub partition : IsPartition arena (id ∷ owned) frees
  pub node : get_elem? arena.nodes id ≡ some (without_children n)
  pub others : SameOn owned a.nodes arena.nodes
  pub same_length : length arena.nodes ≡ length a.nodes

finish_children :
    (fuel id : ℕ) (n : Node) (a : Arena) (xs owned : List ℕ)
    → get_elem? a.nodes id ≡ some n
    → n.alive ≡ true
    → (c : Cleared id n a (xs ++ owned)) → Freed c.arena (id ∷ owned) (both_loops fuel n c.arena)
    → Childless fuel id n a owned
unfolding free_children
finish_children fuel id n a xs owned en live c m = record {
  arena = m.arena;
  frees = m.frees;
  returns = rw (load-ok a id en live, c.returns, m.returns) refl;
  partition = m.partition;
  node = m.others id (ground arith) ∙ c.node;
  others = λ i h. m.others i (ground arith) ∙ c.others i (ground (arith, count-append i xs owned));
  same_length = m.same_length ∙ c.same_length;
}

pub free_children-Childless :
    (fuel : ℕ) (a : Arena) (p : ℕ) (t : Tree) (owned frees : List ℕ)
    → Holds a.nodes p t
    → IsPartition a (ids t ++ owned) frees
    → nodes_in (value_of t) ≤ suc fuel
    → Childless fuel (root_of t) (node_of t p) a owned
unfolding for_each
free_children-Childless fuel a p (leaf id g s) owned frees h part room =
    let c = clear-Cleared id (leaf_node g s p) a owned frees part h refl in
    finish_children fuel id (leaf_node g s p) a [] owned h refl c
      (Freed-nothing c.arena (id ∷ owned) c.frees c.partition)
free_children-Childless fuel a p (branches_at id g bs) owned frees h part room =
    let n : Node = object_node g (branch_ids bs) p in
    let c = clear-Cleared id n a (ids_below bs ++ owned) frees part h.0 refl in
    finish_children fuel id n a (ids_below bs) owned h.0 refl c (
      no_elements_left fuel c.arena (id ∷ owned) (map (λ m. m.1) (branch_ids bs)) (
        frees_below fuel c.arena id bs (id ∷ owned) c.frees
          (frame_below a.nodes c.arena.nodes id bs
            (λ i k. c.others i (ground (arith, count-append i (ids_below bs) owned))) h.1)
          (IsPartition-perm (λ i. count-swap i id (ids_below bs) owned) c.partition)
          (omega (arith, room))))
free_children-Childless fuel a p (items_at id g is) owned frees h part room =
    let n : Node = array_node g (item_ids is) p in
    let c = clear-Cleared id n a (ids_in is ++ owned) frees part h.0 refl in
    finish_children fuel id n a (ids_in is) owned h.0 refl c (
      frees_in fuel c.arena id is (id ∷ owned) c.frees
        (frame_in a.nodes c.arena.nodes id is
          (λ i k. c.others i (ground (arith, count-append i (ids_in is) owned))) h.1)
        (IsPartition-perm (λ i. count-swap i id (ids_in is) owned) c.partition)
        (omega (arith, room)))
