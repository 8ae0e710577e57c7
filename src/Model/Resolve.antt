-- ===== src/Model/Resolve.antt =====
-- `resolve` follows a path through the tree that the arena holds.
use config_manager.Common.{
  ℕ, zero, suc, ◌≤◌, ◌≡◌, refl, ◌∙◌, Bytes, bytes_eq, true, false, ◌==◌, Bool-cases, inl, inr, List,
  [], ◌∷◌, some, get_elem?, if◌then◌else◌, arith, Result, ok, err, fault, out_of_fuel, ◌>>=◌,
  invalid_type, node_not_found, length, lt-length_of_get_elem?, bind_ok, ok_injective,
}
use mathlib.Core.Path.{subst}
use config_manager.Path.{PathSegment, key, index}
use config_manager.Value.{ConfigValue, monostate, bool, int64, double, string}
use config_manager.Arena.{Arena, Node, node_id_none}
use config_manager.Arena.Actions.{get-ok}
use config_manager.Model.Read.{find_member, step_child, resolve, or_not_found}
use config_manager.Model.Tree.{
  Tree, leaf, branches_at, items_at, Branches, no_branches, branch, Items, no_items, item, root_of,
  branch_ids, item_ids, node_of, value_of, members_of, elements_of, Holds, HoldsBranches,
  HoldsItems,
}
use config_manager.Model.Spec.{get_member, get_element, step_value, value_at}

abbrev pub find_branch : Bytes → Branches → Result Tree
find_branch k no_branches = err node_not_found
find_branch k (branch j t bs) = if bytes_eq j k then ok t else find_branch k bs

abbrev pub find_item : ℕ → Items → Result Tree
find_item i no_items = err node_not_found
find_item zero (item t is) = ok t
find_item (suc i) (item t is) = find_item i is

abbrev pub step_tree : PathSegment → Tree → Result Tree
step_tree (key k) (branches_at id g bs) = find_branch k bs
step_tree (key k) (leaf _ _ _) = err invalid_type
step_tree (key k) (items_at _ _ _) = err invalid_type
step_tree (index i) (items_at id g is) = find_item i is
step_tree (index i) (leaf _ _ _) = err invalid_type
step_tree (index i) (branches_at _ _ _) = err invalid_type

abbrev pub lookup : Tree → List PathSegment → Result Tree
lookup t [] = ok t
lookup t (s ∷ segments) = do u ← step_tree s t; lookup u segments

abbrev pub roots : Result Tree → Result ℕ
roots r = r >>= λ t. ok (root_of t)

abbrev pub values : Result Tree → Result ConfigValue
values r = r >>= λ t. ok (value_of t)

pub Holds-root :
    (ns : List Node) (p : ℕ) (t : Tree)
    → Holds ns p t
    → get_elem? ns (root_of t) ≡ some (node_of t p)
Holds-root ns p (leaf id g s) h = h
Holds-root ns p (branches_at id g bs) h = h.0
Holds-root ns p (items_at id g is) h = h.0

pub node_alive : (t : Tree) (p : ℕ) → (node_of t p).alive ≡ true
node_alive (leaf id g s) p = refl
node_alive (branches_at id g bs) p = refl
node_alive (items_at id g is) p = refl

-- The node_id_none of a missing member is no slot.
pub root-ne-none :
    (ns : List Node) (p : ℕ) (t : Tree)
    → length ns ≤ node_id_none
    → Holds ns p t
    → (root_of t == node_id_none) ≡ false
root-ne-none ns p t small h =
    ground (arith, lt-length_of_get_elem? ns (root_of t) (Holds-root ns p t h))

abbrev found_member : ℕ → Result ℕ
found_member id = if id == node_id_none then err node_not_found else ok id

find_member-branch :
    (ns : List Node) (p : ℕ) (k : Bytes) (bs : Branches)
    → length ns ≤ node_id_none
    → HoldsBranches ns p bs
    → found_member (find_member (branch_ids bs) k) ≡ roots (find_branch k bs)
unfolding find_member
find_member-branch ns p k no_branches small h = refl
find_member-branch ns p k (branch j t bs) small h = elim (Bool-cases (bytes_eq j k)) [
  | inl same ↦ rw (same, root-ne-none ns p t small h.0) refl
  | inr other ↦ rw other (find_member-branch ns p k bs small h.1)
]

get_elem?-item :
    (i : ℕ) (is : Items) → or_not_found (get_elem? (item_ids is) i) ≡ roots (find_item i is)
get_elem?-item i no_items = refl
get_elem?-item zero (item t is) = refl
get_elem?-item (suc i) (item t is) = get_elem?-item i is

pub step_child-tree :
    (ns : List Node) (p : ℕ) (s : PathSegment) (t : Tree)
    → length ns ≤ node_id_none
    → Holds ns p t
    → step_child s (node_of t p) ≡ roots (step_tree s t)
unfolding step_child
step_child-tree ns p (key k) (leaf id g monostate) small h = refl
step_child-tree ns p (key k) (leaf id g (bool _)) small h = refl
step_child-tree ns p (key k) (leaf id g (int64 _)) small h = refl
step_child-tree ns p (key k) (leaf id g (double _)) small h = refl
step_child-tree ns p (key k) (leaf id g (string _)) small h = refl
step_child-tree ns p (key k) (branches_at id g bs) small h = find_member-branch ns id k bs small h.1
step_child-tree ns p (key k) (items_at id g is) small h = refl
step_child-tree ns p (index i) (leaf id g monostate) small h = refl
step_child-tree ns p (index i) (leaf id g (bool _)) small h = refl
step_child-tree ns p (index i) (leaf id g (int64 _)) small h = refl
step_child-tree ns p (index i) (leaf id g (double _)) small h = refl
step_child-tree ns p (index i) (leaf id g (string _)) small h = refl
step_child-tree ns p (index i) (branches_at id g bs) small h = refl
step_child-tree ns p (index i) (items_at id g is) small h = get_elem?-item i is

Holds-branch :
    (ns : List Node) (p : ℕ) (k : Bytes) (bs : Branches) {u : Tree}
    → HoldsBranches ns p bs
    → find_branch k bs ≡ ok u
    → Holds ns p u
Holds-branch ns p k no_branches h e = cc
Holds-branch ns p k (branch j t bs) {u} h e = elim (Bool-cases (bytes_eq j k)) [
  | inl same ↦ subst (Holds ns p) (ok_injective (rw same at e)) h.0
  | inr other ↦ Holds-branch ns p k bs h.1 (rw other at e)
]

Holds-item :
    (ns : List Node) (p i : ℕ) (is : Items) {u : Tree}
    → HoldsItems ns p is
    → find_item i is ≡ ok u
    → Holds ns p u
Holds-item ns p i no_items h e = cc
Holds-item ns p zero (item t is) h e = subst (Holds ns p) (ok_injective e) h.0
Holds-item ns p (suc i) (item t is) h e = Holds-item ns p i is h.1 e

-- A child stands under its parent's slot.
pub Holds-step :
    (ns : List Node) (p : ℕ) (s : PathSegment) (t : Tree) {u : Tree}
    → Holds ns p t
    → step_tree s t ≡ ok u
    → Holds ns (root_of t) u
Holds-step ns p (key k) (branches_at id g bs) h e = Holds-branch ns id k bs h.1 e
Holds-step ns p (key k) (leaf id g s) h e = cc
Holds-step ns p (key k) (items_at id g is) h e = cc
Holds-step ns p (index i) (items_at id g is) h e = Holds-item ns id i is h.1 e
Holds-step ns p (index i) (leaf id g s) h e = cc
Holds-step ns p (index i) (branches_at id g bs) h e = cc

roots-bind :
    (m : Result Tree) (f : ℕ → Result ℕ) (g : Tree → Result Tree)
    → ((u : Tree) → m ≡ ok u → f (root_of u) ≡ roots (g u))
    → (roots m >>= f) ≡ roots (m >>= g)
roots-bind (ok u) f g h = h u refl
roots-bind (err e) f g h = refl
roots-bind fault f g h = refl
roots-bind out_of_fuel f g h = refl

pub resolve-lookup :
    (a : Arena) (p : ℕ) (t : Tree) (segments : List PathSegment)
    → length a.nodes ≤ node_id_none
    → Holds a.nodes p t
    → resolve a (root_of t) segments ≡ roots (lookup t segments)
unfolding resolve
resolve-lookup a p t [] small h = refl
resolve-lookup a p t (s ∷ segments) small h =
    rw
      (
        get-ok a (root_of t) (Holds-root a.nodes p t h) (node_alive t p),
        step_child-tree a.nodes p s t small h,
      )
      (roots-bind (step_tree s t) (λ c. resolve a c segments) (λ u. lookup u segments)
        (λ u e. resolve-lookup a (root_of t) u segments small (Holds-step a.nodes p s t h e)))

-- The subtree that a path leads to is held by the arena too.
pub Holds-lookup :
    (ns : List Node) (p : ℕ) (t : Tree) (segments : List PathSegment) {u : Tree}
    → Holds ns p t
    → lookup t segments ≡ ok u
    → (q : ℕ) × Holds ns q u
Holds-lookup ns p t [] h e = (p, subst (Holds ns p) (ok_injective e) h)
Holds-lookup ns p t (s ∷ segments) h e =
    bind_ok (step_tree s t) (λ u. lookup u segments) e
      λ u one rest. Holds-lookup ns (root_of t) u segments (Holds-step ns p s t h one) rest

values-branch :
    (k : Bytes) (bs : Branches) → values (find_branch k bs) ≡ get_member k (members_of bs)
values-branch k no_branches = refl
values-branch k (branch j t bs) = elim (Bool-cases (bytes_eq j k)) [
  | inl same ↦ rw same refl
  | inr other ↦ rw other (values-branch k bs)
]

values-item : (i : ℕ) (is : Items) → values (find_item i is) ≡ get_element i (elements_of is)
values-item i no_items = refl
values-item zero (item t is) = refl
values-item (suc i) (item t is) = values-item i is

pub values-step : (s : PathSegment) (t : Tree) → values (step_tree s t) ≡ step_value s (value_of t)
values-step (key k) (branches_at id g bs) = values-branch k bs
values-step (key k) (leaf id g s) = refl
values-step (key k) (items_at id g is) = refl
values-step (index i) (items_at id g is) = values-item i is
values-step (index i) (leaf id g s) = refl
values-step (index i) (branches_at id g bs) = refl

values-bind :
    (m : Result Tree) (g : Tree → Result Tree) (f : ConfigValue → Result ConfigValue)
    → ((u : Tree) → values (g u) ≡ f (value_of u))
    → values (m >>= g) ≡ (values m >>= f)
values-bind (ok u) g f h = h u
values-bind (err e) g f h = refl
values-bind fault g f h = refl
values-bind out_of_fuel g f h = refl

pub values-lookup :
    (t : Tree) (segments : List PathSegment)
    → values (lookup t segments) ≡ value_at (value_of t) segments
values-lookup t [] = refl
values-lookup t (s ∷ segments) =
    values-bind (step_tree s t) (λ u. lookup u segments) (λ v. value_at v segments)
      (λ u. values-lookup u segments)
    ∙ rw (values-step s t) refl
