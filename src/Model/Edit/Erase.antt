-- ===== src/Model/Edit/Erase.antt =====
-- A tree without one of its children, and the node that the child is unlinked from.
use mathlib.Core.Path.{subst}
use config_manager.Common.{
  ==_iff, ℕ, zero, suc, ◌+◌, ◌≤◌, ◌≡◌, ◌≢◌, refl, ap, ◌==◌, bytes_eq, Bytes, true, false,
  Bool-cases, inl, inr, if◌then◌else◌, some, List, ◌∷◌, ◌++◌, get_elem?, count, count-append, arith,
  ok, ok_injective,
}
use config_manager.Path.{PathSegment, key, index}
use config_manager.Arena.{Arena, Node}
use config_manager.Arena.Slots.{IsPartition}
use config_manager.Model.{unlink, erase_member, erase_at}
use config_manager.Model.Tree.{
  Tree, leaf, branches_at, items_at, Branches, no_branches, branch, Items, no_items, item, root_of,
  branch_ids, item_ids, node_of, value_of, members_of, elements_of, ids, ids_below, ids_in, Holds,
  HoldsBranches, HoldsItems, SameOn, frame, frame_below, frame_in,
}
use config_manager.Model.Resolve.{step_tree, find_branch, find_item}
use config_manager.Model.Assign.Adopt.{root-in-ids}
use config_manager.Model.Assign.Laws.{generation_of}
use config_manager.Model.Edit.{erase_key, erase_index, erase_child}
use config_manager.Model.Edit.Tree.{
  next_branch, next_item, next_tree, siblings, beside_branch, beside_item,
}
use config_manager.Model.Edit.Place.{ids-next_branch}

pub erase_branch : Bytes → Branches → Branches
erase_branch k no_branches = no_branches
erase_branch k (branch j t bs) = if bytes_eq j k then bs else branch j t (erase_branch k bs)

pub erase_item : ℕ → Items → Items
erase_item i no_items = no_items
erase_item zero (item t is) = is
erase_item (suc i) (item t is) = item t (erase_item i is)

abbrev pub erase_tree : PathSegment → Tree → Tree
erase_tree (key k) (branches_at id g bs) = branches_at id g (erase_branch k bs)
erase_tree (key k) (leaf id g s) = leaf id g s
erase_tree (key k) (items_at id g is) = items_at id g is
erase_tree (index i) (items_at id g is) = items_at id g (erase_item i is)
erase_tree (index i) (leaf id g s) = leaf id g s
erase_tree (index i) (branches_at id g bs) = branches_at id g bs

next_branch-found :
    (k : Bytes) (bs : Branches) {u : Tree} → find_branch k bs ≡ ok u → next_branch k bs ≡ some u
next_branch-found k no_branches e = cc
next_branch-found k (branch j t bs) e = elim (Bool-cases (bytes_eq j k)) [
  | inl same ↦ rw same (ap some (ok_injective (rw same at e)))
  | inr other ↦ rw other (next_branch-found k bs (rw other at e))
]

next_item-found :
    (i : ℕ) (is : Items) {u : Tree} → find_item i is ≡ ok u → next_item i is ≡ ok (some u)
next_item-found i no_items e = cc
next_item-found zero (item t is) e = ap (λ x. ok (some x)) (ok_injective e)
next_item-found (suc i) (item t is) e = next_item-found i is e

pub next_tree-found :
    (s : PathSegment) (t : Tree) {u : Tree} → step_tree s t ≡ ok u → next_tree s t ≡ ok (some u)
next_tree-found (key k) (leaf id g x) e = cc
next_tree-found (key k) (branches_at id g bs) e = ap ok (next_branch-found k bs e)
next_tree-found (key k) (items_at id g is) e = cc
next_tree-found (index i) (leaf id g x) e = cc
next_tree-found (index i) (branches_at id g bs) e = cc
next_tree-found (index i) (items_at id g is) e = next_item-found i is e

members_of-erase :
    (k : Bytes) (bs : Branches) → members_of (erase_branch k bs) ≡ erase_key k (members_of bs)
unfolding erase_branch
members_of-erase k no_branches = refl
members_of-erase k (branch j t bs) = elim (Bool-cases (bytes_eq j k)) [
  | inl same ↦ rw same refl
  | inr other ↦ rw (other, members_of-erase k bs) refl
]

elements_of-erase :
    (i : ℕ) (is : Items) → elements_of (erase_item i is) ≡ erase_index i (elements_of is)
unfolding erase_item
elements_of-erase i no_items = refl
elements_of-erase zero (item t is) = refl
elements_of-erase (suc i) (item t is) = rw (elements_of-erase i is) refl

pub value_of-erase :
    (s : PathSegment) (t : Tree) → value_of (erase_tree s t) ≡ erase_child s (value_of t)
value_of-erase (key k) (leaf id g x) = refl
value_of-erase (key k) (branches_at id g bs) = rw (members_of-erase k bs) refl
value_of-erase (key k) (items_at id g is) = refl
value_of-erase (index i) (leaf id g x) = refl
value_of-erase (index i) (branches_at id g bs) = refl
value_of-erase (index i) (items_at id g is) = rw (elements_of-erase i is) refl

ids-erase_branch : (k : Bytes) (bs : Branches) → ids_below (erase_branch k bs) ≡ beside_branch k bs
unfolding erase_branch
ids-erase_branch k no_branches = refl
ids-erase_branch k (branch j t bs) = elim (Bool-cases (bytes_eq j k)) [
  | inl same ↦ rw same refl
  | inr other ↦ rw (other, ids-erase_branch k bs) refl
]

ids-erase_item : (i : ℕ) (is : Items) → ids_in (erase_item i is) ≡ beside_item i is
unfolding erase_item
ids-erase_item i no_items = refl
ids-erase_item zero (item t is) = refl
ids-erase_item (suc i) (item t is) = rw (ids-erase_item i is) refl

pub ids-erase :
    (s : PathSegment) (t : Tree) {u : Tree}
    → step_tree s t ≡ ok u
    → ids (erase_tree s t) ≡ root_of t ∷ siblings s t
ids-erase (key k) (leaf id g x) e = cc
ids-erase (key k) (branches_at id g bs) e = rw (ids-erase_branch k bs) refl
ids-erase (key k) (items_at id g is) e = cc
ids-erase (index i) (leaf id g x) e = cc
ids-erase (index i) (branches_at id g bs) e = cc
ids-erase (index i) (items_at id g is) e = rw (ids-erase_item i is) refl

pub root_of-erase : (s : PathSegment) (t : Tree) → root_of (erase_tree s t) ≡ root_of t
root_of-erase (key k) (leaf id g x) = refl
root_of-erase (key k) (branches_at id g bs) = refl
root_of-erase (key k) (items_at id g is) = refl
root_of-erase (index i) (leaf id g x) = refl
root_of-erase (index i) (branches_at id g bs) = refl
root_of-erase (index i) (items_at id g is) = refl

pub generation_of-erase :
    (s : PathSegment) (t : Tree) → generation_of (erase_tree s t) ≡ generation_of t
generation_of-erase (key k) (leaf id g x) = refl
generation_of-erase (key k) (branches_at id g bs) = refl
generation_of-erase (key k) (items_at id g is) = refl
generation_of-erase (index i) (leaf id g x) = refl
generation_of-erase (index i) (branches_at id g bs) = refl
generation_of-erase (index i) (items_at id g is) = refl

found-in-ids :
    (k : Bytes) (bs : Branches) {u : Tree}
    → find_branch k bs ≡ ok u
    → count (root_of u) (ids_below bs) ≢ 0
found-in-ids k bs {u} e =
    let there = rw (next_branch-found k bs e) at (ids-next_branch (root_of u) k bs) in
    ground (arith, there, root-in-ids u)

-- Erasing by the child's id is erasing by its key: no other member has that id.
erase_member-branch :
    (k : Bytes) (u : Tree) (bs : Branches)
    → ((i : ℕ) → count i (ids_below bs) ≤ 1)
    → find_branch k bs ≡ ok u
    → erase_member (root_of u) (branch_ids bs) ≡ branch_ids (erase_branch k bs)
unfolding erase_member erase_branch
erase_member-branch k u no_branches once e = cc
erase_member-branch k u (branch j t bs) once e = elim (Bool-cases (bytes_eq j k)) [
  | inl same ↦
      let this : (root_of t == root_of u) ≡ true =
        ground (arith, ap root_of (ok_injective (rw same at e))) in
      rw (same, this) refl
  | inr other ↦
      let later = rw other at e in
      let away : (root_of t == root_of u) ≡ false = elim (Bool-cases (root_of t == root_of u)) [
        | inl equal ↦
            let owns : count (root_of u) (ids t) ≢ 0 =
              subst (λ i. count i (ids t) ≢ 0) ((==_iff _ _).0 equal) (root-in-ids t) in
            absurd (
              ground (
                arith,
                once (root_of u),
                count-append (root_of u) (ids t) (ids_below bs),
                owns,
                found-in-ids k bs later,
              ))
        | inr distinct ↦ distinct
      ] in
      rw
        (
          other,
          away,
          erase_member-branch k u bs
              (λ i. omega (arith, once i, count-append i (ids t) (ids_below bs))) later,
        )
        refl
]

erase_at-item : (i : ℕ) (is : Items) → erase_at i (item_ids is) ≡ item_ids (erase_item i is)
unfolding erase_at erase_item
erase_at-item i no_items = refl
erase_at-item zero (item t is) = refl
erase_at-item (suc i) (item t is) = rw (erase_at-item i is) refl

pub unlink-erase :
    (s : PathSegment) (t : Tree) (p : ℕ) {u : Tree}
    → ((i : ℕ) → count i (ids t) ≤ 1)
    → step_tree s t ≡ ok u
    → unlink s (root_of u) (node_of t p) ≡ node_of (erase_tree s t) p
unfolding unlink
unlink-erase (key k) (leaf id g x) p once e = cc
unlink-erase (key k) (branches_at id g bs) p {u} once e =
    rw (erase_member-branch k u bs (λ i. omega (arith, once i)) e) refl
unlink-erase (key k) (items_at id g is) p once e = cc
unlink-erase (index i) (leaf id g x) p once e = cc
unlink-erase (index i) (branches_at id g bs) p once e = cc
unlink-erase (index i) (items_at id g is) p once e = rw (erase_at-item i is) refl

-- The children that are left, in an arena where the parent's slot has been written.
holds_erase_branch :
    (ns ms : List Node) (p : ℕ) (k : Bytes) (bs : Branches)
    → SameOn (beside_branch k bs) ns ms
    → HoldsBranches ns p bs
    → HoldsBranches ms p (erase_branch k bs)
unfolding erase_branch
holds_erase_branch ns ms p k no_branches same h = tt
holds_erase_branch ns ms p k (branch j t bs) same h = elim (Bool-cases (bytes_eq j k)) [
  | inl here ↦ rw here (frame_below ns ms p bs (λ i n. same i (rw here n)) h.1)
  | inr other ↦ rw other (
    frame ns ms p t
        (λ i n. same i (rw other (ground (arith, n, count-append i (ids t) (beside_branch k bs)))))
        h.0,
    holds_erase_branch ns ms p k bs
        (λ i n. same i (rw other (ground (arith, n, count-append i (ids t) (beside_branch k bs)))))
        h.1,
  )
]

holds_erase_item :
    (ns ms : List Node) (p j : ℕ) (is : Items)
    → SameOn (beside_item j is) ns ms
    → HoldsItems ns p is
    → HoldsItems ms p (erase_item j is)
unfolding erase_item
holds_erase_item ns ms p j no_items same h = tt
holds_erase_item ns ms p zero (item t is) same h = frame_in ns ms p is same h.1
holds_erase_item ns ms p (suc j) (item t is) same h = (
  frame ns ms p t (λ i n. same i (ground (arith, count-append i (ids t) (beside_item j is)))) h.0,
  holds_erase_item ns ms p j is
      (λ i n. same i (ground (arith, count-append i (ids t) (beside_item j is)))) h.1,
)

pub Holds-erase :
    (ns ms : List Node) (p : ℕ) (s : PathSegment) (t : Tree) {u : Tree}
    → step_tree s t ≡ ok u
    → Holds ns p t
    → get_elem? ms (root_of t) ≡ some (node_of (erase_tree s t) p)
    → SameOn (siblings s t) ns ms
    → Holds ms p (erase_tree s t)
Holds-erase ns ms p (key k) (leaf id g x) e h here same = cc
Holds-erase ns ms p (key k) (branches_at id g bs) e h here same =
    (here, holds_erase_branch ns ms id k bs same h.1)
Holds-erase ns ms p (key k) (items_at id g is) e h here same = cc
Holds-erase ns ms p (index i) (leaf id g x) e h here same = cc
Holds-erase ns ms p (index i) (branches_at id g bs) e h here same = cc
Holds-erase ns ms p (index i) (items_at id g is) e h here same =
    (here, holds_erase_item ns ms id i is same h.1)

pub ne_parent :
    {a : Arena} {frees : List ℕ} (i r : ℕ) (xs ys : List ℕ)
    → IsPartition a (xs ++ (r ∷ ys)) frees
    → count i xs + count i ys ≢ 0
    → i ≢ r
ne_parent i r xs ys p k e = k (ground (arith, e, p.once i, count-append i xs (r ∷ ys)))

pub node_parent : (t : Tree) (p : ℕ) → (node_of t p).parent ≡ p
node_parent (leaf id g x) p = refl
node_parent (branches_at id g bs) p = refl
node_parent (items_at id g is) p = refl
