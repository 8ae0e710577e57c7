-- ===== src/Model/Assign/Adopt.antt =====
-- The loops of assignContents that give the children of a node a new parent.
use config_manager.Common.{
  ℕ, ◌≡◌, ◌≢◌, refl, sym, ap, ◌∙◌, List, ◌++◌, length, length-set, map, count, count-append, arith,
  ok,
}
use config_manager.Arena.{Arena, write_node}
use config_manager.Arena.Slots.{IsPartition, IsPartition-write}
use config_manager.Arena.State.{with_parent}
use config_manager.Arena.Actions.{modify-ok}
use config_manager.Model.Store.{for_each, adopt}
use config_manager.Model.Tree.{
  Tree, leaf, branches_at, items_at, Branches, no_branches, branch, Items, no_items, item, root_of,
  branch_ids, item_ids, node_of, ids, ids_below, ids_in, Holds, HoldsBranches, HoldsItems, SameOn,
  frame, frame_below, frame_in,
}
use config_manager.Model.Resolve.{Holds-root, node_alive}
use config_manager.Model.Build.{IsPartition-perm}
use config_manager.Model.Build.Slot.{write_self, write_other}
use config_manager.Model.Release.{ne_of_head, count_assoc}

-- A tree whose root is written with another parent stands under that parent.
pub reparent :
    (a : Arena) (q p : ℕ) (t : Tree) (owned frees : List ℕ)
    → Holds a.nodes q t
    → IsPartition a (ids t ++ owned) frees
    → Holds (write_node (root_of t) (node_of t p) a).nodes p t
reparent a q p (leaf id g s) owned frees h part = write_self a id _ _ h
reparent a q p (branches_at id g bs) owned frees h part = (
  write_self a id _ _ h.0,
  frame_below a.nodes _ id bs
      (λ i k. write_other a id _ i (
        ne_of_head i id (ids_below bs ++ owned) part
          (ground (arith, count-append i (ids_below bs) owned))))
      h.1,
)
reparent a q p (items_at id g is) owned frees h part = (
  write_self a id _ _ h.0,
  frame_in a.nodes _ id is
      (λ i k. write_other a id _ i (
        ne_of_head i id (ids_in is ++ owned) part
          (ground (arith, count-append i (ids_in is) owned))))
      h.1,
)

with_parent-node_of : (t : Tree) (q p : ℕ) → with_parent p (node_of t q) ≡ node_of t p
with_parent-node_of (leaf id g s) q p = refl
with_parent-node_of (branches_at id g bs) q p = refl
with_parent-node_of (items_at id g is) q p = refl

pub root-in-ids : (t : Tree) → count (root_of t) (ids t) ≢ 0
root-in-ids (leaf id g s) = ground arith
root-in-ids (branches_at id g bs) = ground arith
root-in-ids (items_at id g is) = ground arith

pub ne_root :
    {a : Arena} {frees : List ℕ} (t : Tree) (xs : List ℕ) (i : ℕ)
    → IsPartition a (ids t ++ xs) frees
    → count i xs ≢ 0
    → i ≢ root_of t
ne_root t xs i p h e =
    let owns : count i (ids t) ≢ 0 = rw e (root-in-ids t) in
    absurd (ground (arith, p.once i, count-append i (ids t) xs))

pub adopt-returns :
    (a : Arena) (q p : ℕ) (t : Tree)
    → Holds a.nodes q t
    → adopt p (root_of t) a ≡ ok (tt, write_node (root_of t) (node_of t p) a)
adopt-returns a q p t h =
    modify-ok a (root_of t) (Holds-root a.nodes q t h) (node_alive t q) (with_parent p)
    ∙ ap (λ n. ok (tt, write_node (root_of t) n a)) (with_parent-node_of t q p)

count_rotate : (i : ℕ) (xs ys zs : List ℕ) → count i ((xs ++ ys) ++ zs) ≡ count i (ys ++ (xs ++ zs))
count_rotate i xs ys zs = omega (
  arith,
  count-append i (xs ++ ys) zs,
  count-append i xs ys,
  count-append i ys (xs ++ zs),
  count-append i xs zs,
)

pub record AdoptedBranches (p : ℕ) (bs : Branches) (a : Arena) (owned frees : List ℕ) : Type 0 where
  pub arena : Arena
  pub returns : for_each (adopt p) (map (λ m. m.1) (branch_ids bs)) a ≡ ok (tt, arena)
  pub holds : HoldsBranches arena.nodes p bs
  pub partition : IsPartition arena (ids_below bs ++ owned) frees
  pub others : SameOn owned a.nodes arena.nodes
  pub same_length : length arena.nodes ≡ length a.nodes

pub adopts_below :
    (q p : ℕ) (bs : Branches) (a : Arena) (owned frees : List ℕ)
    → HoldsBranches a.nodes q bs
    → IsPartition a (ids_below bs ++ owned) frees
    → AdoptedBranches p bs a owned frees
unfolding for_each
adopts_below q p no_branches a owned frees h part = record {
  arena = a;
  returns = refl;
  holds = tt;
  partition = part;
  others = λ i k. refl;
  same_length = refl;
}
adopts_below q p (branch k t bs) a owned frees h part =
    let xs : List ℕ = ids_below bs ++ owned in
    let here = IsPartition-perm (λ i. count_assoc i (ids t) (ids_below bs) owned) part in
    let b : Arena = write_node (root_of t) (node_of t p) a in
    let same : SameOn xs a.nodes b.nodes =
      λ i m. write_other a (root_of t) (node_of t p) i (ne_root t xs i here m) in
    let rest =
      adopts_below q p bs b (ids t ++ owned) frees
        (frame_below a.nodes b.nodes q bs
          (λ i m. same i (ground (arith, count-append i (ids_below bs) owned))) h.1)
        (IsPartition-perm (λ i. count_rotate i (ids t) (ids_below bs) owned)
          (IsPartition-write (root_of t) (node_of t p) part (
            ground (
              arith,
              root-in-ids t,
              count-append (root_of t) (ids t ++ ids_below bs) owned,
              count-append (root_of t) (ids t) (ids_below bs),
            )))) in
    record {
      arena = rest.arena;
      returns = rw (adopt-returns a q p t h.0) rest.returns;
      holds = (
        frame b.nodes rest.arena.nodes p t
            (λ i m. rest.others i (ground (arith, count-append i (ids t) owned)))
            (reparent a q p t xs frees h.0 here),
        rest.holds,
      );
      partition =
          IsPartition-perm (λ i. sym (count_rotate i (ids t) (ids_below bs) owned)) rest.partition;
      others = λ i m.
          rest.others i (ground (arith, count-append i (ids t) owned))
          ∙ same i (ground (arith, count-append i (ids_below bs) owned));
      same_length = rest.same_length ∙ length-set a.nodes (root_of t) (node_of t p);
    }

pub record AdoptedItems (p : ℕ) (is : Items) (a : Arena) (owned frees : List ℕ) : Type 0 where
  pub arena : Arena
  pub returns : for_each (adopt p) (item_ids is) a ≡ ok (tt, arena)
  pub holds : HoldsItems arena.nodes p is
  pub partition : IsPartition arena (ids_in is ++ owned) frees
  pub others : SameOn owned a.nodes arena.nodes
  pub same_length : length arena.nodes ≡ length a.nodes

pub adopts_in :
    (q p : ℕ) (is : Items) (a : Arena) (owned frees : List ℕ)
    → HoldsItems a.nodes q is
    → IsPartition a (ids_in is ++ owned) frees
    → AdoptedItems p is a owned frees
unfolding for_each
adopts_in q p no_items a owned frees h part = record {
  arena = a;
  returns = refl;
  holds = tt;
  partition = part;
  others = λ i k. refl;
  same_length = refl;
}
adopts_in q p (item t is) a owned frees h part =
    let xs : List ℕ = ids_in is ++ owned in
    let here = IsPartition-perm (λ i. count_assoc i (ids t) (ids_in is) owned) part in
    let b : Arena = write_node (root_of t) (node_of t p) a in
    let same : SameOn xs a.nodes b.nodes =
      λ i m. write_other a (root_of t) (node_of t p) i (ne_root t xs i here m) in
    let rest =
      adopts_in q p is b (ids t ++ owned) frees
        (frame_in a.nodes b.nodes q is
          (λ i m. same i (ground (arith, count-append i (ids_in is) owned))) h.1)
        (IsPartition-perm (λ i. count_rotate i (ids t) (ids_in is) owned)
          (IsPartition-write (root_of t) (node_of t p) part (
            ground (
              arith,
              root-in-ids t,
              count-append (root_of t) (ids t ++ ids_in is) owned,
              count-append (root_of t) (ids t) (ids_in is),
            )))) in
    record {
      arena = rest.arena;
      returns = rw (adopt-returns a q p t h.0) rest.returns;
      holds = (
        frame b.nodes rest.arena.nodes p t
            (λ i m. rest.others i (ground (arith, count-append i (ids t) owned)))
            (reparent a q p t xs frees h.0 here),
        rest.holds,
      );
      partition =
          IsPartition-perm (λ i. sym (count_rotate i (ids t) (ids_in is) owned)) rest.partition;
      others = λ i m.
          rest.others i (ground (arith, count-append i (ids t) owned))
          ∙ same i (ground (arith, count-append i (ids_in is) owned));
      same_length = rest.same_length ∙ length-set a.nodes (root_of t) (node_of t p);
    }
