-- ===== src/Model/Release.antt =====
-- freeSubtree gives back exactly the slots of the tree, and changes no other owned slot.
use config_manager.Common.{
  ℕ, zero, suc, ◌≤◌, ◌≡◌, ◌≢◌, refl, ap, ◌∙◌, true, List, [], ◌∷◌, ◌++◌, some, get_elem?, length,
  length-set, map, count, count-append, arith, append_assoc, Result, ok,
}
use config_manager.Arena.{Arena, Node, write_node}
use config_manager.Arena.Slots.{IsPartition, IsPartition-write, release-Released}
use config_manager.Arena.State.{Action, ◌>>◌, free, modify, without_children}
use config_manager.Arena.Actions.{load-ok, modify-ok}
use config_manager.Model.Store.{for_each, free_subtree}
use config_manager.Model.Tree.{
  Tree, leaf, branches_at, items_at, Branches, no_branches, branch, Items, no_items, item, root_of,
  branch_ids, item_ids, leaf_node, object_node, array_node, value_of, members_of, elements_of, ids,
  ids_below, ids_in, Holds, HoldsBranches, HoldsItems, nodes_in, nodes_in_members,
  nodes_in_elements, SameOn, frame_below, frame_in,
}
use config_manager.Model.Build.{IsPartition-perm}
use config_manager.Model.Build.Slot.{write_self, write_other}

pub record Freed (a : Arena) (owned : List ℕ) (out : Result (Unit {0} × Arena)) : Type 0 where
  pub arena : Arena
  pub frees : List ℕ
  pub returns : out ≡ ok (tt, arena)
  pub partition : IsPartition arena owned frees
  pub others : SameOn owned a.nodes arena.nodes
  pub same_length : length arena.nodes ≡ length a.nodes

pub Freed-nothing :
    (a : Arena) (owned frees : List ℕ) → IsPartition a owned frees → Freed a owned (ok (tt, a))
Freed-nothing a owned frees p = record {
  arena = a;
  frees = frees;
  returns = refl;
  partition = p;
  others = λ i h. refl;
  same_length = refl;
}

-- The node's own slot, after its children are gone.
pub release-own :
    (a : Arena) (owned frees : List ℕ) (id : ℕ) (n : Node)
    → IsPartition a (id ∷ owned) frees
    → get_elem? a.nodes id ≡ some n
    → n.alive ≡ true
    → Freed a owned (free id a)
unfolding free
release-own a owned frees id n p en live =
    let r = release-Released a owned frees id n p en live in
    record {
      arena = r.arena;
      frees = id ∷ frees;
      returns = rw r.returns refl;
      partition = r.partition;
      others = λ i h. r.others i (λ e. h (ground (arith, p.once id)));
      same_length = r.same_length;
    }

-- A slot that is counted once already is not among the others.
pub ne_of_head :
    {a : Arena} {frees : List ℕ} (i id : ℕ) (xs : List ℕ)
    → IsPartition a (id ∷ xs) frees
    → count i xs ≢ 0
    → i ≢ id
ne_of_head i id xs p h e = h (ground (arith, p.once id))

-- Clearing a node's lists leaves the slots owned with it, and the other nodes.
pub record Cleared (id : ℕ) (n : Node) (a : Arena) (others_owned : List ℕ) : Type 0 where
  pub arena : Arena
  pub frees : List ℕ
  pub returns : modify id without_children a ≡ ok (tt, arena)
  pub partition : IsPartition arena (id ∷ others_owned) frees
  pub node : get_elem? arena.nodes id ≡ some (without_children n)
  pub others : SameOn others_owned a.nodes arena.nodes
  pub same_length : length arena.nodes ≡ length a.nodes

pub clear-Cleared :
    (id : ℕ) (n : Node) (a : Arena) (xs frees : List ℕ)
    → IsPartition a (id ∷ xs) frees
    → get_elem? a.nodes id ≡ some n
    → n.alive ≡ true
    → Cleared id n a xs
clear-Cleared id n a xs frees p en live = record {
  arena = write_node id (without_children n) a;
  frees = frees;
  returns = modify-ok a id en live without_children;
  partition = IsPartition-write id (without_children n) p (ground arith);
  node = write_self a id n (without_children n) en;
  others = λ i h. write_other a id (without_children n) i (ne_of_head i id xs p h);
  same_length = length-set a.nodes id (without_children n);
}

-- The two loops over a node's children.
abbrev pub both_loops : ℕ → Node → Action (Unit {0})
both_loops fuel n =
    for_each (free_subtree fuel) (map (λ m. m.1) n.members)
    >> for_each (free_subtree fuel) n.elements

-- From the children freed to the whole subtree freed.
finish_free :
    (fuel id : ℕ) (n : Node) (a : Arena) (xs owned : List ℕ)
    → get_elem? a.nodes id ≡ some n
    → n.alive ≡ true
    → (c : Cleared id n a (xs ++ owned)) → Freed c.arena (id ∷ owned) (both_loops fuel n c.arena)
    → Freed a owned (free_subtree (suc fuel) id a)
unfolding free_subtree
finish_free fuel id n a xs owned en live c m =
    let node : get_elem? m.arena.nodes id ≡ some (without_children n) =
      m.others id (ground arith) ∙ c.node in
    let r = release-own m.arena owned m.frees id (without_children n) m.partition node live in
    record {
      arena = r.arena;
      frees = r.frees;
      returns = rw (load-ok a id en live, c.returns, m.returns, r.returns) refl;
      partition = r.partition;
      others = λ i h.
          r.others i h
          ∙ m.others i (ground arith)
          ∙ c.others i (ground (arith, count-append i xs owned));
      same_length = r.same_length ∙ m.same_length ∙ c.same_length;
    }

pub no_elements_left :
    (fuel : ℕ) (a : Arena) (owned ms : List ℕ)
    → Freed a owned (for_each (free_subtree fuel) ms a)
    → Freed a owned ((for_each (free_subtree fuel) ms >> for_each (free_subtree fuel) []) a)
unfolding for_each
no_elements_left fuel a owned ms m = record {
  arena = m.arena;
  frees = m.frees;
  returns = rw m.returns refl;
  partition = m.partition;
  others = m.others;
  same_length = m.same_length;
}

-- One child freed, and then the others.
free_next :
    (fuel x : ℕ) (xs : List ℕ) (a : Arena) (rest owned : List ℕ)
    → (one : Freed a (rest ++ owned) (free_subtree fuel x a))
    → Freed one.arena owned (for_each (free_subtree fuel) xs one.arena)
    → Freed a owned (for_each (free_subtree fuel) (x ∷ xs) a)
unfolding for_each
free_next fuel x xs a rest owned one others = record {
  arena = others.arena;
  frees = others.frees;
  returns = rw (one.returns, others.returns) refl;
  partition = others.partition;
  others = λ i h. others.others i h ∙ one.others i (ground (arith, count-append i rest owned));
  same_length = others.same_length ∙ one.same_length;
}

pub count-swap :
    (i id : ℕ) (xs owned : List ℕ) → count i (id ∷ (xs ++ owned)) ≡ count i (xs ++ (id ∷ owned))
count-swap i id xs owned = omega (arith, count-append i xs owned, count-append i xs (id ∷ owned))

pub count_assoc :
    (i : ℕ) (xs ys zs : List ℕ) → count i ((xs ++ ys) ++ zs) ≡ count i (xs ++ (ys ++ zs))
count_assoc i xs ys zs = ap (count i) (append_assoc xs ys zs)

mutual
  unfolding for_each

  frees_tree :
      (fuel : ℕ) (a : Arena) (p : ℕ) (t : Tree) (owned frees : List ℕ)
      → Holds a.nodes p t
      → IsPartition a (ids t ++ owned) frees
      → nodes_in (value_of t) ≤ fuel
      → Freed a owned (free_subtree fuel (root_of t) a)
  frees_tree zero a p (leaf id g s) owned frees h part room = absurd (omega arith)
  frees_tree zero a p (branches_at id g bs) owned frees h part room = absurd (omega arith)
  frees_tree zero a p (items_at id g is) owned frees h part room = absurd (omega arith)
  frees_tree (suc fuel) a p (leaf id g s) owned frees h part room =
      let c = clear-Cleared id (leaf_node g s p) a owned frees part h refl in
      finish_free fuel id (leaf_node g s p) a [] owned h refl c
        (Freed-nothing c.arena (id ∷ owned) c.frees c.partition)
  frees_tree (suc fuel) a p (branches_at id g bs) owned frees h part room =
      let n : Node = object_node g (branch_ids bs) p in
      let c = clear-Cleared id n a (ids_below bs ++ owned) frees part h.0 refl in
      finish_free fuel id n a (ids_below bs) owned h.0 refl c (
        no_elements_left fuel c.arena (id ∷ owned) (map (λ m. m.1) (branch_ids bs)) (
          frees_below fuel c.arena id bs (id ∷ owned) c.frees
            (frame_below a.nodes c.arena.nodes id bs
              (λ i k. c.others i (ground (arith, count-append i (ids_below bs) owned))) h.1)
            (IsPartition-perm (λ i. count-swap i id (ids_below bs) owned) c.partition)
            (omega arith)))
  frees_tree (suc fuel) a p (items_at id g is) owned frees h part room =
      let n : Node = array_node g (item_ids is) p in
      let c = clear-Cleared id n a (ids_in is ++ owned) frees part h.0 refl in
      finish_free fuel id n a (ids_in is) owned h.0 refl c (
        frees_in fuel c.arena id is (id ∷ owned) c.frees
          (frame_in a.nodes c.arena.nodes id is
            (λ i k. c.others i (ground (arith, count-append i (ids_in is) owned))) h.1)
          (IsPartition-perm (λ i. count-swap i id (ids_in is) owned) c.partition) (omega arith))

  pub frees_below :
      (fuel : ℕ) (a : Arena) (p : ℕ) (bs : Branches) (owned frees : List ℕ)
      → HoldsBranches a.nodes p bs
      → IsPartition a (ids_below bs ++ owned) frees
      → nodes_in_members (members_of bs) ≤ fuel
      → Freed a owned (for_each (free_subtree fuel) (map (λ m. m.1) (branch_ids bs)) a)
  frees_below fuel a p no_branches owned frees h part room = Freed-nothing a owned frees part
  frees_below fuel a p (branch k t bs) owned frees h part room =
      let one =
        frees_tree fuel a p t (ids_below bs ++ owned) frees h.0
          (IsPartition-perm (λ i. count_assoc i (ids t) (ids_below bs) owned) part) (omega arith) in
      free_next fuel (root_of t) (map (λ m. m.1) (branch_ids bs)) a (ids_below bs) owned one (
        frees_below fuel one.arena p bs owned one.frees
          (frame_below a.nodes one.arena.nodes p bs
            (λ i k. one.others i (ground (arith, count-append i (ids_below bs) owned))) h.1)
          one.partition (omega arith))

  pub frees_in :
      (fuel : ℕ) (a : Arena) (p : ℕ) (is : Items) (owned frees : List ℕ)
      → HoldsItems a.nodes p is
      → IsPartition a (ids_in is ++ owned) frees
      → nodes_in_elements (elements_of is) ≤ fuel
      → Freed a owned (for_each (free_subtree fuel) (item_ids is) a)
  frees_in fuel a p no_items owned frees h part room = Freed-nothing a owned frees part
  frees_in fuel a p (item t is) owned frees h part room =
      let one =
        frees_tree fuel a p t (ids_in is ++ owned) frees h.0
          (IsPartition-perm (λ i. count_assoc i (ids t) (ids_in is) owned) part) (omega arith) in
      free_next fuel (root_of t) (item_ids is) a (ids_in is) owned one (
        frees_in fuel one.arena p is owned one.frees
          (frame_in a.nodes one.arena.nodes p is
            (λ i k. one.others i (ground (arith, count-append i (ids_in is) owned))) h.1)
          one.partition (omega arith))

-- Where the arena holds a tree and the slots are partitioned into its own, the others that are owned
-- and the free ones, freeSubtree with a round of fuel for each node of the tree succeeds: the tree's
-- slots are free then, the others are still owned, and none of them has changed.
pub free_subtree-Freed :
    (fuel : ℕ) (a : Arena) (p : ℕ) (t : Tree) (owned frees : List ℕ)
    → Holds a.nodes p t
    → IsPartition a (ids t ++ owned) frees
    → nodes_in (value_of t) ≤ fuel
    → Freed a owned (free_subtree fuel (root_of t) a)
free_subtree-Freed fuel a p t owned frees h part room =
    frees_tree fuel a p t owned frees h part room
