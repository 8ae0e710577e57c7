-- ===== src/Model/Edit/Tree.antt =====
-- The steps of an edit on the tree that an arena holds: a child put in its place or added.
use config_manager.Common.{
  ℕ, zero, suc, ◌≡◌, refl, bytes_eq, Bytes, Bool-cases, inl, inr, if◌then◌else◌, Option, none, some,
  List, [], ◌++◌, Result, ok, err, fault, out_of_fuel, invalid_type, node_not_found,
}
use config_manager.Path.{PathSegment, key, index}
use config_manager.Value.{ConfigValue, put_member}
use config_manager.Model.Tree.{
  Tree, leaf, branches_at, items_at, Branches, no_branches, branch, Items, no_items, item, root_of,
  value_of, members_of, elements_of, ids, ids_below, ids_in,
}
use config_manager.Model.Edit.{next_member, next_element, next_child, put_element, put_child}
use config_manager.Model.Assign.Laws.{generation_of}

abbrev pub next_branch : Bytes → Branches → Option Tree
next_branch k no_branches = none
next_branch k (branch j t bs) = if bytes_eq j k then some t else next_branch k bs

abbrev pub next_item : ℕ → Items → Result (Option Tree)
next_item zero no_items = ok none
next_item (suc i) no_items = err node_not_found
next_item zero (item t is) = ok (some t)
next_item (suc i) (item t is) = next_item i is

abbrev pub next_tree : PathSegment → Tree → Result (Option Tree)
next_tree (key k) (branches_at id g bs) = ok (next_branch k bs)
next_tree (key k) (leaf _ _ _) = err invalid_type
next_tree (key k) (items_at _ _ _) = err invalid_type
next_tree (index i) (items_at id g is) = next_item i is
next_tree (index i) (leaf _ _ _) = err invalid_type
next_tree (index i) (branches_at _ _ _) = err invalid_type

abbrev pub put_branch : Bytes → Tree → Branches → Branches
put_branch k u no_branches = branch k u no_branches
put_branch k u (branch j t bs) =
    if bytes_eq j k then branch j u bs else branch j t (put_branch k u bs)

abbrev pub put_item : ℕ → Tree → Items → Items
put_item i u no_items = item u no_items
put_item zero u (item t is) = item u is
put_item (suc i) u (item t is) = item t (put_item i u is)

abbrev pub put_tree : PathSegment → Tree → Tree → Tree
put_tree (key k) u (branches_at id g bs) = branches_at id g (put_branch k u bs)
put_tree (key k) u (leaf id g s) = leaf id g s
put_tree (key k) u (items_at id g is) = items_at id g is
put_tree (index i) u (items_at id g is) = items_at id g (put_item i u is)
put_tree (index i) u (leaf id g s) = leaf id g s
put_tree (index i) u (branches_at id g bs) = branches_at id g bs

-- The slots of the other children.
abbrev pub beside_branch : Bytes → Branches → List ℕ
beside_branch k no_branches = []
beside_branch k (branch j t bs) = if bytes_eq j k then ids_below bs else ids t ++ beside_branch k bs

abbrev pub beside_item : ℕ → Items → List ℕ
beside_item i no_items = []
beside_item zero (item t is) = ids_in is
beside_item (suc i) (item t is) = ids t ++ beside_item i is

abbrev pub siblings : PathSegment → Tree → List ℕ
siblings (key k) (branches_at id g bs) = beside_branch k bs
siblings (key k) (leaf _ _ _) = []
siblings (key k) (items_at id g is) = ids_in is
siblings (index i) (items_at id g is) = beside_item i is
siblings (index i) (leaf _ _ _) = []
siblings (index i) (branches_at id g bs) = ids_below bs

pub root_of-put : (s : PathSegment) (u t : Tree) → root_of (put_tree s u t) ≡ root_of t
root_of-put (key k) u (leaf id g x) = refl
root_of-put (key k) u (branches_at id g bs) = refl
root_of-put (key k) u (items_at id g is) = refl
root_of-put (index i) u (leaf id g x) = refl
root_of-put (index i) u (branches_at id g bs) = refl
root_of-put (index i) u (items_at id g is) = refl

pub generation_of-put :
    (s : PathSegment) (u t : Tree) → generation_of (put_tree s u t) ≡ generation_of t
generation_of-put (key k) u (leaf id g x) = refl
generation_of-put (key k) u (branches_at id g bs) = refl
generation_of-put (key k) u (items_at id g is) = refl
generation_of-put (index i) u (leaf id g x) = refl
generation_of-put (index i) u (branches_at id g bs) = refl
generation_of-put (index i) u (items_at id g is) = refl

members_of-put :
    (k : Bytes) (u : Tree) (bs : Branches)
    → members_of (put_branch k u bs) ≡ put_member k (value_of u) (members_of bs)
unfolding put_member
members_of-put k u no_branches = refl
members_of-put k u (branch j t bs) = elim (Bool-cases (bytes_eq j k)) [
  | inl same ↦ rw same refl
  | inr other ↦ rw (other, members_of-put k u bs) refl
]

elements_of-put :
    (i : ℕ) (u : Tree) (is : Items)
    → elements_of (put_item i u is) ≡ put_element i (value_of u) (elements_of is)
elements_of-put i u no_items = refl
elements_of-put zero u (item t is) = refl
elements_of-put (suc i) u (item t is) = rw (elements_of-put i u is) refl

pub value_of-put :
    (s : PathSegment) (u t : Tree)
    → value_of (put_tree s u t) ≡ put_child s (value_of u) (value_of t)
value_of-put (key k) u (leaf id g x) = refl
value_of-put (key k) u (branches_at id g bs) = rw (members_of-put k u bs) refl
value_of-put (key k) u (items_at id g is) = refl
value_of-put (index i) u (leaf id g x) = refl
value_of-put (index i) u (branches_at id g bs) = refl
value_of-put (index i) u (items_at id g is) = rw (elements_of-put i u is) refl

-- The value of what a segment leads to.
abbrev pub value_next : Result (Option Tree) → Result (Option ConfigValue)
value_next (ok (some u)) = ok (some (value_of u))
value_next (ok none) = ok none
value_next (err e) = err e
value_next fault = fault
value_next out_of_fuel = out_of_fuel

next_branch-member :
    (k : Bytes) (bs : Branches)
    → value_next (ok (next_branch k bs)) ≡ ok (next_member k (members_of bs))
next_branch-member k no_branches = refl
next_branch-member k (branch j t bs) = elim (Bool-cases (bytes_eq j k)) [
  | inl same ↦ rw same refl
  | inr other ↦ rw other (next_branch-member k bs)
]

next_item-element :
    (i : ℕ) (is : Items) → value_next (next_item i is) ≡ next_element i (elements_of is)
next_item-element zero no_items = refl
next_item-element (suc i) no_items = refl
next_item-element zero (item t is) = refl
next_item-element (suc i) (item t is) = next_item-element i is

pub next_tree-child :
    (s : PathSegment) (t : Tree) → value_next (next_tree s t) ≡ next_child s (value_of t)
next_tree-child (key k) (leaf id g x) = refl
next_tree-child (key k) (branches_at id g bs) = next_branch-member k bs
next_tree-child (key k) (items_at id g is) = refl
next_tree-child (index i) (leaf id g x) = refl
next_tree-child (index i) (branches_at id g bs) = refl
next_tree-child (index i) (items_at id g is) = next_item-element i is
