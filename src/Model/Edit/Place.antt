-- ===== src/Model/Edit/Place.antt =====
-- A child put in its place in a tree: which slots the tree then owns, and that the arena holds it.
use mathlib.Core.Path.{subst}
use config_manager.Common.{
  ℕ, zero, suc, ◌+◌, ◌≡◌, refl, ◌∙◌, bytes_eq, Bytes, Bool-cases, inl, inr, Option, none, some,
  List, [], ◌∷◌, ◌++◌, get_elem?, count, count-append, arith, ok, ok_injective,
}
use config_manager.Path.{PathSegment, key, index}
use config_manager.Arena.{Node}
use config_manager.Model.Store.{link}
use config_manager.Model.Tree.{
  Tree, leaf, branches_at, items_at, Branches, no_branches, branch, Items, no_items, item, root_of,
  branch_ids, item_ids, node_of, ids, ids_below, ids_in, Holds, HoldsBranches, HoldsItems, SameOn,
  frame, frame_below, frame_in,
}
use config_manager.Model.Edit.Tree.{
  next_branch, next_item, next_tree, put_branch, put_item, put_tree, beside_branch, beside_item,
  siblings,
}

abbrev pub next_ids : Option Tree → List ℕ
next_ids none = []
next_ids (some u) = ids u

pub some_injective : {t u : Tree} → some t ≡ some u → t ≡ u
some_injective e = cc

pub ids-next_branch :
    (i : ℕ) (k : Bytes) (bs : Branches)
    → count i (ids_below bs) ≡ count i (next_ids (next_branch k bs)) + count i (beside_branch k bs)
ids-next_branch i k no_branches = omega arith
ids-next_branch i k (branch j t bs) = elim (Bool-cases (bytes_eq j k)) [
  | inl same ↦ rw same (count-append i (ids t) (ids_below bs))
  | inr other ↦ rw other (
      omega (
        arith,
        count-append i (ids t) (ids_below bs),
        ids-next_branch i k bs,
        count-append i (ids t) (beside_branch k bs),
      ))
]

ids-next_item :
    (i j : ℕ) (is : Items) {c : Option Tree}
    → next_item j is ≡ ok c
    → count i (ids_in is) ≡ count i (next_ids c) + count i (beside_item j is)
ids-next_item i zero no_items {c} e =
    subst (λ x. 0 ≡ count i (next_ids x) + 0) (ok_injective e) (omega arith)
ids-next_item i (suc j) no_items e = cc
ids-next_item i zero (item t is) {c} e =
    subst (λ x. count i (ids t ++ ids_in is) ≡ count i (next_ids x) + count i (ids_in is))
      (ok_injective e) (count-append i (ids t) (ids_in is))
ids-next_item i (suc j) (item t is) e = omega (
  arith,
  count-append i (ids t) (ids_in is),
  ids-next_item i j is e,
  count-append i (ids t) (beside_item j is),
)

-- A tree owns the slots of what the segment leads to, its root's, and those of the other children.
pub ids-next :
    (i : ℕ) (s : PathSegment) (t : Tree) {c : Option Tree}
    → next_tree s t ≡ ok c
    → count i (ids t) ≡ count i (next_ids c ++ (root_of t ∷ siblings s t))
ids-next i (key k) (leaf id g x) e = cc
ids-next i (key k) (branches_at id g bs) {c} e =
    subst (λ x. count i (id ∷ ids_below bs) ≡ count i (next_ids x ++ (id ∷ beside_branch k bs)))
      (ok_injective e)
      (omega (
        arith,
        ids-next_branch i k bs,
        count-append i (next_ids (next_branch k bs)) (id ∷ beside_branch k bs),
      ))
ids-next i (key k) (items_at id g is) e = cc
ids-next i (index j) (leaf id g x) e = cc
ids-next i (index j) (branches_at id g bs) e = cc
ids-next i (index j) (items_at id g is) {c} e =
    omega (arith, ids-next_item i j is e, count-append i (next_ids c) (id ∷ beside_item j is))

ids-put_branch :
    (i : ℕ) (k : Bytes) (u : Tree) (bs : Branches)
    → count i (ids_below (put_branch k u bs)) ≡ count i (ids u) + count i (beside_branch k bs)
ids-put_branch i k u no_branches = count-append i (ids u) []
ids-put_branch i k u (branch j t bs) = elim (Bool-cases (bytes_eq j k)) [
  | inl same ↦ rw same (count-append i (ids u) (ids_below bs))
  | inr other ↦ rw other (
      omega (
        arith,
        count-append i (ids t) (ids_below (put_branch k u bs)),
        ids-put_branch i k u bs,
        count-append i (ids t) (beside_branch k bs),
      ))
]

ids-put_item :
    (i j : ℕ) (u : Tree) (is : Items)
    → count i (ids_in (put_item j u is)) ≡ count i (ids u) + count i (beside_item j is)
ids-put_item i zero u no_items = count-append i (ids u) []
ids-put_item i (suc j) u no_items = count-append i (ids u) []
ids-put_item i zero u (item t is) = count-append i (ids u) (ids_in is)
ids-put_item i (suc j) u (item t is) = omega (
  arith,
  count-append i (ids t) (ids_in (put_item j u is)),
  ids-put_item i j u is,
  count-append i (ids t) (beside_item j is),
)

pub ids-put :
    (i : ℕ) (s : PathSegment) (u t : Tree) {c : Option Tree}
    → next_tree s t ≡ ok c
    → count i (ids (put_tree s u t)) ≡ count i (ids u ++ (root_of t ∷ siblings s t))
ids-put i (key k) u (leaf id g x) e = cc
ids-put i (key k) u (branches_at id g bs) e =
    omega (arith, ids-put_branch i k u bs, count-append i (ids u) (id ∷ beside_branch k bs))
ids-put i (key k) u (items_at id g is) e = cc
ids-put i (index j) u (leaf id g x) e = cc
ids-put i (index j) u (branches_at id g bs) e = cc
ids-put i (index j) u (items_at id g is) e =
    omega (arith, ids-put_item i j u is, count-append i (ids u) (id ∷ beside_item j is))

-- The children of the new tree: the child that is put, and the others as they were.
module _ (ns ms : List Node) (p : ℕ) (u : Tree) (put : Holds ms p u) where
  holds_put_branch :
      (k : Bytes) (bs : Branches)
      → SameOn (beside_branch k bs) ns ms
      → HoldsBranches ns p bs
      → HoldsBranches ms p (put_branch k u bs)
  holds_put_branch k no_branches same h = (put, tt)
  holds_put_branch k (branch j t bs) same h = elim (Bool-cases (bytes_eq j k)) [
    | inl here ↦ rw here (put, frame_below ns ms p bs (λ i n. same i (rw here n)) h.1)
    | inr other ↦ rw other (
      frame ns ms p t
          (λ i n.
            same i (rw other (ground (arith, n, count-append i (ids t) (beside_branch k bs)))))
          h.0,
      holds_put_branch k bs
          (λ i n.
            same i (rw other (ground (arith, n, count-append i (ids t) (beside_branch k bs)))))
          h.1,
    )
  ]

  holds_put_item :
      (j : ℕ) (is : Items)
      → SameOn (beside_item j is) ns ms
      → HoldsItems ns p is
      → HoldsItems ms p (put_item j u is)
  holds_put_item zero no_items same h = (put, tt)
  holds_put_item (suc j) no_items same h = (put, tt)
  holds_put_item zero (item t is) same h = (put, frame_in ns ms p is same h.1)
  holds_put_item (suc j) (item t is) same h = (
    frame ns ms p t (λ i n. same i (ground (arith, count-append i (ids t) (beside_item j is)))) h.0,
    holds_put_item j is (λ i n. same i (ground (arith, count-append i (ids t) (beside_item j is))))
        h.1,
  )

-- A child with the root of the old one leaves the parent's slot as it is.
ids-replace_branch :
    (k : Bytes) (u v : Tree) (bs : Branches)
    → next_branch k bs ≡ some u
    → root_of v ≡ root_of u
    → branch_ids (put_branch k v bs) ≡ branch_ids bs
ids-replace_branch k u v no_branches e r = cc
ids-replace_branch k u v (branch j t bs) e r = elim (Bool-cases (bytes_eq j k)) [
  | inl same ↦ rw (same, r, some_injective (rw same at e)) refl
  | inr other ↦ rw (other, ids-replace_branch k u v bs (rw other at e) r) refl
]

ids-replace_item :
    (j : ℕ) (u v : Tree) (is : Items)
    → next_item j is ≡ ok (some u)
    → root_of v ≡ root_of u
    → item_ids (put_item j v is) ≡ item_ids is
ids-replace_item zero u v no_items e r = cc
ids-replace_item (suc j) u v no_items e r = cc
ids-replace_item zero u v (item t is) e r = rw (r, some_injective (ok_injective e)) refl
ids-replace_item (suc j) u v (item t is) e r = rw (ids-replace_item j u v is e r) refl

pub Holds-replace :
    (ns ms : List Node) (p : ℕ) (s : PathSegment) (u v t : Tree)
    → next_tree s t ≡ ok (some u)
    → root_of v ≡ root_of u
    → Holds ns p t
    → SameOn (root_of t ∷ siblings s t) ns ms
    → Holds ms (root_of t) v
    → Holds ms p (put_tree s v t)
Holds-replace ns ms p (key k) u v (leaf id g x) e r h same put = cc
Holds-replace ns ms p (key k) u v (items_at id g is) e r h same put = cc
Holds-replace ns ms p (key k) u v (branches_at id g bs) e r h same put = (
  rw (ids-replace_branch k u v bs (ok_injective e) r) (same id (ground arith) ∙ h.0),
  holds_put_branch ns ms id v put k bs (λ i n. same i (ground arith)) h.1,
)
Holds-replace ns ms p (index j) u v (leaf id g x) e r h same put = cc
Holds-replace ns ms p (index j) u v (branches_at id g bs) e r h same put = cc
Holds-replace ns ms p (index j) u v (items_at id g is) e r h same put = (
  rw (ids-replace_item j u v is e r) (same id (ground arith) ∙ h.0),
  holds_put_item ns ms id v put j is (λ i n. same i (ground arith)) h.1,
)

-- A child that was not there is linked at the end.
ids-add_branch :
    (k : Bytes) (v : Tree) (bs : Branches)
    → next_branch k bs ≡ none
    → branch_ids (put_branch k v bs) ≡ branch_ids bs ++ (k, root_of v) ∷ []
ids-add_branch k v no_branches e = refl
ids-add_branch k v (branch j t bs) e = elim (Bool-cases (bytes_eq j k)) [
  | inl same ↦ absurd (ground (arith, e))
  | inr other ↦ rw (other, ids-add_branch k v bs (rw other at e)) refl
]

ids-add_item :
    (j : ℕ) (v : Tree) (is : Items)
    → next_item j is ≡ ok none
    → item_ids (put_item j v is) ≡ item_ids is ++ root_of v ∷ []
ids-add_item zero v no_items e = refl
ids-add_item (suc j) v no_items e = cc
ids-add_item zero v (item t is) e = cc
ids-add_item (suc j) v (item t is) e = rw (ids-add_item j v is e) refl

pub Holds-add :
    (ns ms : List Node) (p : ℕ) (s : PathSegment) (v t : Tree)
    → next_tree s t ≡ ok none
    → Holds ns p t
    → get_elem? ms (root_of t) ≡ some (link s (root_of v) (node_of t p))
    → SameOn (siblings s t) ns ms
    → Holds ms (root_of t) v
    → Holds ms p (put_tree s v t)
Holds-add ns ms p (key k) v (leaf id g x) e h here same put = cc
Holds-add ns ms p (key k) v (items_at id g is) e h here same put = cc
Holds-add ns ms p (key k) v (branches_at id g bs) e h here same put = (
  rw (ids-add_branch k v bs (ok_injective e)) here,
  holds_put_branch ns ms id v put k bs same h.1,
)
Holds-add ns ms p (index j) v (leaf id g x) e h here same put = cc
Holds-add ns ms p (index j) v (branches_at id g bs) e h here same put = cc
Holds-add ns ms p (index j) v (items_at id g is) e h here same put =
    (rw (ids-add_item j v is e) here, holds_put_item ns ms id v put j is same h.1)
