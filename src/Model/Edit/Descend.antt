-- ===== src/Model/Edit/Descend.antt =====
-- An edit of a child is an edit of the tree.
use config_manager.Common.{zero, suc, bytes_eq, Bytes, Bool-cases, inl, inr, ok_injective}
use config_manager.Arena.{Node}
use config_manager.Path.{key, index}
use config_manager.Model.Tree.{
  leaf, branches_at, items_at, Branches, no_branches, branch, Items, no_items, item,
}
use config_manager.Model.Edit.Tree.{next_branch, next_item}
use config_manager.Model.Edit.Place.{some_injective}
use config_manager.Model.Resolve.{find_branch, find_item, step_tree, Holds-step}
use config_manager.Common.{
  ℕ, ◌≡◌, ap, ◌∙◌, some, List, ◌∷◌, ◌++◌, count, count-append, arith, Result, ok,
}
use config_manager.Path.{PathSegment}
use config_manager.Value.{ConfigValue}
use config_manager.Arena.{Arena}
use config_manager.Model.Tree.{Tree, root_of, value_of, ids, Holds}
use config_manager.Model.Build.{IsPartition-perm}
use config_manager.Model.Assign.Contents.{Assigned}
use config_manager.Model.Edit.{put_child}
use config_manager.Model.Edit.Tree.{
  next_tree, put_tree, siblings, value_of-put, root_of-put, generation_of-put,
}
use config_manager.Model.Edit.Place.{ids-next, Holds-replace}
use config_manager.Model.Edit.Chain.{count_closed}

pub descend :
    (s : PathSegment) (t u : Tree) (v : ConfigValue) (p : ℕ) (a : Arena) (owned : List ℕ)
    (out : Result (Unit {0} × Arena))
    → next_tree s t ≡ ok (some u)
    → Holds a.nodes p t
    → Assigned v (root_of t) a u (root_of t ∷ (siblings s t ++ owned)) out
    → Assigned (put_child s v (value_of t)) p a t owned out
descend s t u v p a owned out e h r = record {
  tree = put_tree s r.tree t;
  arena = r.arena;
  frees = r.frees;
  returns = r.returns;
  value = value_of-put s r.tree t ∙ ap (λ x. put_child s x (value_of t)) r.value;
  same_root = root_of-put s r.tree t;
  same_generation = generation_of-put s r.tree t;
  holds =
      Holds-replace a.nodes r.arena.nodes p s u r.tree t e r.same_root h
        (λ i k. r.others i (ground (arith, count-append i (siblings s t) owned))) r.holds;
  partition = IsPartition-perm (λ i. count_closed i r.tree s t owned e) r.partition;
  others = λ i k. r.others i (ground (arith, count-append i (siblings s t) owned));
}

-- The slots of a child, of the parent, and of the others around it.
pub count_inside :
    (i : ℕ) (u : Tree) (s : PathSegment) (t : Tree) (owned : List ℕ)
    → next_tree s t ≡ ok (some u)
    → count i (ids t ++ owned) ≡ count i (ids u ++ (root_of t ∷ (siblings s t ++ owned)))
count_inside i u s t owned e = omega (
  arith,
  ids-next i s t e,
  count-append i (ids t) owned,
  count-append i (ids u) (root_of t ∷ siblings s t),
  count-append i (ids u) (root_of t ∷ (siblings s t ++ owned)),
  count-append i (siblings s t) owned,
)

find_branch-next :
    (k : Bytes) (bs : Branches) {u : Tree} → next_branch k bs ≡ some u → find_branch k bs ≡ ok u
find_branch-next k no_branches e = cc
find_branch-next k (branch j t bs) e = elim (Bool-cases (bytes_eq j k)) [
  | inl same ↦ rw same (ap ok (some_injective (rw same at e)))
  | inr other ↦ rw other (find_branch-next k bs (rw other at e))
]

find_item-next :
    (i : ℕ) (is : Items) {u : Tree} → next_item i is ≡ ok (some u) → find_item i is ≡ ok u
find_item-next zero no_items e = cc
find_item-next (suc i) no_items e = cc
find_item-next zero (item t is) e = ap ok (some_injective (ok_injective e))
find_item-next (suc i) (item t is) e = find_item-next i is e

pub step_tree-next :
    (s : PathSegment) (t : Tree) {u : Tree} → next_tree s t ≡ ok (some u) → step_tree s t ≡ ok u
step_tree-next (key k) (leaf id g x) e = cc
step_tree-next (key k) (branches_at id g bs) e = find_branch-next k bs (ok_injective e)
step_tree-next (key k) (items_at id g is) e = cc
step_tree-next (index i) (leaf id g x) e = cc
step_tree-next (index i) (branches_at id g bs) e = cc
step_tree-next (index i) (items_at id g is) e = find_item-next i is e

pub Holds-next :
    (ns : List Node) (p : ℕ) (s : PathSegment) (t : Tree) {u : Tree}
    → Holds ns p t
    → next_tree s t ≡ ok (some u)
    → Holds ns (root_of t) u
Holds-next ns p s t h e = Holds-step ns p s t h (step_tree-next s t e)
