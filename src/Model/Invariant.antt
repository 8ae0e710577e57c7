-- ===== src/Model/Invariant.antt =====
-- A well-formed model: its arena holds one tree under its root, every other slot is free, and no
-- object has two members of one name.

use config_manager.Common.{
  ℕ, zero, suc, ◌+◌, ◌≤◌, ◌≡◌, refl, ap, ltb, if◌then◌else◌, ◌==◌, List, [], ◌∷◌, count, length,
  length-append, arith,
}
use config_manager.Value.{ConfigValue}
use config_manager.Arena.{Arena, node_id_none}
use config_manager.Arena.Slots.{IsPartition}
use config_manager.Model.{ConfigModel}
use config_manager.Model.Tree.{
  Tree, leaf, branches_at, items_at, Branches, no_branches, branch, Items, no_items, item, root_of,
  value_of, members_of, elements_of, ids, ids_below, ids_in, Holds, nodes_in, nodes_in_members,
  nodes_in_elements,
}
use config_manager.Model.Spec.{HasUniqueKeys}

-- The arena of `m` holds a tree of the value `v`.
pub record IsModel (m : ConfigModel) (v : ConfigValue) : Type 0 where
  pub tree : Tree
  pub frees : List ℕ
  pub at_root : m.root_id ≡ root_of tree
  pub value : value_of tree ≡ v
  pub holds : Holds m.arena.nodes node_id_none tree
  pub partition : IsPartition m.arena (ids tree) frees
  pub unique : HasUniqueKeys v

-- Counting slots: a list in which every number below `n` stands at most once, and no other, has at
-- most `n` entries.
without : ℕ → List ℕ → List ℕ
without n [] = []
without n (x ∷ xs) = if x == n then without n xs else x ∷ without n xs

length-without : (n : ℕ) (xs : List ℕ) → length xs ≡ count n xs + length (without n xs)
unfolding without
length-without n [] = omega arith
length-without n (x ∷ xs) = ground (arith, length-without n xs)

count-without :
    (n i : ℕ) (xs : List ℕ) → count i (without n xs) ≡ (if i == n then 0 else count i xs)
unfolding without
count-without n i [] = ground arith
count-without n i (x ∷ xs) = ground (arith, count-without n i xs)

length-le_of_count :
    (n : ℕ) (xs : List ℕ) → ((i : ℕ) → count i xs ≤ (if ltb i n then 1 else 0)) → length xs ≤ n
length-le_of_count zero [] h = omega arith
length-le_of_count zero (x ∷ xs) h = absurd (ground (arith, h x))
length-le_of_count (suc n) xs h =
    let rest : length (without n xs) ≤ n =
      length-le_of_count n (without n xs) (λ i. ground (arith, h i, count-without n i xs)) in
    ground (arith, h n, length-without n xs)

mutual
  nodes-ids : (t : Tree) → nodes_in (value_of t) ≡ length (ids t)
  nodes-ids (leaf id g s) = refl
  nodes-ids (branches_at id g bs) = ap suc (nodes-ids_below bs)
  nodes-ids (items_at id g is) = ap suc (nodes-ids_in is)

  nodes-ids_below : (bs : Branches) → nodes_in_members (members_of bs) ≡ length (ids_below bs)
  nodes-ids_below no_branches = refl
  nodes-ids_below (branch k t bs) =
      omega (arith, nodes-ids t, nodes-ids_below bs, length-append {0} (ids t) (ids_below bs))

  nodes-ids_in : (is : Items) → nodes_in_elements (elements_of is) ≡ length (ids_in is)
  nodes-ids_in no_items = refl
  nodes-ids_in (item t is) =
      omega (arith, nodes-ids t, nodes-ids_in is, length-append {0} (ids t) (ids_in is))

-- A tree has no more nodes than the arena has slots.
pub nodes-le-length :
    (a : Arena) (t : Tree) (owned frees : List ℕ)
    → IsPartition a owned frees
    → ((i : ℕ) → count i (ids t) ≤ count i owned)
    → nodes_in (value_of t) ≤ length a.nodes
nodes-le-length a t owned frees p sub =
    rw (nodes-ids t)
      (length-le_of_count (length a.nodes) (ids t) (λ i. ground (arith, p.once i, sub i)))
