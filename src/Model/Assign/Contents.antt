-- ===== src/Model/Assign/Contents.antt =====
-- assignContents as a whole: the target's slot keeps its place and generation, and stands for the new
-- value under its old parent.
use config_manager.Common.{
  ℕ, suc, ◌+◌, ◌≤◌, ◌≡◌, sym, ap, ◌∙◌, List, ◌∷◌, ◌++◌, some, get_elem?, length, map, count,
  count-append, arith, Result, ok,
}
use config_manager.Value.{ConfigValue, type_of}
use config_manager.Arena.{Arena, Node, write_node, node_id_none}
use config_manager.Arena.Slots.{IsPartition, IsPartition-write}
use config_manager.Arena.State.{Action, ◌>>=◌, ◌>>◌, load, modify, without_children, free}
use config_manager.Arena.Actions.{load-ok, modify-ok}
use config_manager.Model.Store.{for_each, adopt, assign_contents}
use config_manager.Model.Tree.{
  Tree, root_of, node_of, value_of, ids, Holds, SameOn, frame, nodes_in,
}
use config_manager.Model.Resolve.{Holds-root, node_alive}
use config_manager.Model.Build.{IsPartition-perm}
use config_manager.Model.Build.Slot.{write_self, write_other}
use config_manager.Model.Build.Laws.{build-Built}
use config_manager.Model.Release.{ne_of_head, release-own}
use config_manager.Model.Assign.{free_children-Childless}
use config_manager.Model.Assign.Laws.{
  generation_of, transplant, below, HoldsBelow, move_contents, ids-transplant, ids-below,
  value_of-transplant, root_of-transplant, generation_of-transplant, Holds-below,
  HoldsBelow-transplant, frame_children, move_contents-transplant, type_eq_self, node_type,
  adopts_children,
}

pub record Assigned (v : ConfigValue) (p : ℕ) (a : Arena) (t : Tree) (owned : List ℕ)
    (out : Result (Unit {0} × Arena)) : Type 0 where
  pub tree : Tree
  pub arena : Arena
  pub frees : List ℕ
  pub returns : out ≡ ok (tt, arena)
  pub value : value_of tree ≡ v
  pub same_root : root_of tree ≡ root_of t
  pub same_generation : generation_of tree ≡ generation_of t
  pub holds : Holds arena.nodes p tree
  pub partition : IsPartition arena (ids tree ++ owned) frees
  pub others : SameOn owned a.nodes arena.nodes

-- The contents of the tree `u` moved into the slot of `t`, which has no children left.
record Moved (p : ℕ) (t u : Tree) (a : Arena) (owned : List ℕ) : Type 0 where
  arena : Arena
  frees : List ℕ
  returns : free (root_of u) a ≡ ok (tt, arena)
  holds : Holds arena.nodes p (transplant (root_of t) (generation_of t) u)
  partition : IsPartition arena (ids (transplant (root_of t) (generation_of t) u) ++ owned) frees
  others : SameOn owned a.nodes arena.nodes

count_first :
    (i r s : ℕ) (xs ys : List ℕ) → count i (xs ++ (s ∷ r ∷ ys)) ≡ count i (s ∷ ((r ∷ xs) ++ ys))
count_first i r s xs ys = omega (arith, count-append i xs (s ∷ r ∷ ys), count-append i xs ys)

-- The last step: the slot of the tree that was built is given back.
release_built :
    (p : ℕ) (t u : Tree) (a : Arena) (owned frees : List ℕ)
    → get_elem? a.nodes (root_of u) ≡ some (node_of u node_id_none)
    → get_elem? a.nodes (root_of t) ≡ some (node_of (transplant (root_of t) (generation_of t) u) p)
    → HoldsBelow a.nodes (root_of t) u
    → IsPartition a (below u ++ (root_of u ∷ root_of t ∷ owned)) frees
    → Moved p t u a owned
release_built p t u a owned frees built target h part =
    let xs : List ℕ = (root_of t ∷ below u) ++ owned in
    let r =
      release-own a xs frees (root_of u) (node_of u node_id_none)
        (IsPartition-perm (λ i. count_first i (root_of t) (root_of u) (below u) owned) part) built
        (node_alive u node_id_none) in
    record {
      arena = r.arena;
      frees = r.frees;
      returns = r.returns;
      holds =
          HoldsBelow-transplant r.arena.nodes p (root_of t) (generation_of t) u
            (r.others (root_of t) (ground arith) ∙ target)
            (frame_children a.nodes r.arena.nodes (root_of t) u
              (λ i k. r.others i (ground (arith, count-append i (below u) owned))) h);
      partition = rw (ids-transplant (root_of t) (generation_of t) u) r.partition;
      others = λ i k. r.others i (ground (arith, count-append i (below u) owned));
    }

count-below :
    (i r : ℕ) (u : Tree) (owned : List ℕ)
    → count i (r ∷ (ids u ++ owned)) ≡ count i (below u ++ (root_of u ∷ r ∷ owned))
count-below i r u owned = rw (ids-below u) (
    omega (arith, count-append i (below u) (root_of u ∷ r ∷ owned), count-append i (below u) owned))

count-exchange :
    (i : ℕ) (xs ys zs : List ℕ) → count i (xs ++ (ys ++ zs)) ≡ count i (ys ++ (xs ++ zs))
count-exchange i xs ys zs = omega (
  arith,
  count-append i xs (ys ++ zs),
  count-append i ys zs,
  count-append i ys (xs ++ zs),
  count-append i xs zs,
)

-- What assignContents does once the target has no children.
abbrev refill : ℕ → ℕ → Action (Unit {0})
refill target built = load built >>= λ b.
    modify target (move_contents b)
    >> (for_each (adopt target) (map (λ m. m.1) b.members)
        >> (for_each (adopt target) b.elements >> free built))

record Refilled (p : ℕ) (t u : Tree) (a : Arena) (owned : List ℕ) : Type 0 where
  arena : Arena
  frees : List ℕ
  returns : refill (root_of t) (root_of u) a ≡ ok (tt, arena)
  holds : Holds arena.nodes p (transplant (root_of t) (generation_of t) u)
  partition : IsPartition arena (ids (transplant (root_of t) (generation_of t) u) ++ owned) frees
  others : SameOn owned a.nodes arena.nodes

refill-Refilled :
    (p : ℕ) (t u : Tree) (a : Arena) (owned frees : List ℕ)
    → get_elem? a.nodes (root_of t) ≡ some (without_children (node_of t p))
    → Holds a.nodes node_id_none u
    → IsPartition a (root_of t ∷ (ids u ++ owned)) frees
    → type_of (value_of t) ≡ type_of (value_of u)
    → Refilled p t u a owned
refill-Refilled p t u a owned frees target built part same =
    let n : Node = node_of (transplant (root_of t) (generation_of t) u) p in
    let d : Arena = write_node (root_of t) n a in
    let away : SameOn (ids u ++ owned) a.nodes d.nodes =
      λ i k. write_other a (root_of t) n i (ne_of_head i (root_of t) (ids u ++ owned) part k) in
    let built' : Holds d.nodes node_id_none u =
      frame a.nodes d.nodes node_id_none u
        (λ i k. away i (ground (arith, count-append i (ids u) owned))) built in
    let e =
      adopts_children (root_of u) node_id_none (root_of t) u d (root_of u ∷ root_of t ∷ owned) frees
        (Holds-below d.nodes node_id_none u built')
        (IsPartition-perm (λ i. count-below i (root_of t) u owned)
          (IsPartition-write (root_of t) n part (ground arith))) in
    let m =
      release_built p t u e.arena owned frees
        (e.others (root_of u) (ground arith) ∙ Holds-root d.nodes node_id_none u built')
        (e.others (root_of t) (ground arith) ∙ write_self a (root_of t) _ n target) e.holds
        e.partition in
    record {
      arena = m.arena;
      frees = m.frees;
      returns =
          rw
            (
              load-ok a (root_of u) (Holds-root a.nodes node_id_none u built)
                  (node_alive u node_id_none),
              modify-ok a (root_of t) target (node_alive t p)
                  (move_contents (node_of u node_id_none)),
              move_contents-transplant t u p node_id_none same,
              e.returns (free (root_of u)),
            )
            m.returns;
      holds = m.holds;
      partition = m.partition;
      others = λ i k.
          m.others i k
          ∙ e.others i (ground arith)
          ∙ away i (ground (arith, count-append i (ids u) owned));
    }

-- Where the arena holds the target's tree, the slots are partitioned, there is room for the new value
-- and it has the type of the old one, assignContents succeeds: the target's slot, in its place and of
-- its generation, is the root of a tree of exactly the new value under the old parent, the slots are
-- partitioned again, and no other owned slot has changed.
pub assign_contents-Assigned :
    (fuel : ℕ) (v : ConfigValue) (p : ℕ) (a : Arena) (t : Tree) (owned frees : List ℕ)
    → Holds a.nodes p t
    → IsPartition a (ids t ++ owned) frees
    → type_of (value_of t) ≡ type_of v
    → nodes_in (value_of t) ≤ suc fuel
    → length a.nodes + nodes_in v ≤ node_id_none
    → Assigned v p a t owned (assign_contents fuel (root_of t) v a)
unfolding assign_contents
assign_contents-Assigned fuel v p a t owned frees h part same room₁ room₂ =
    let b = build-Built v node_id_none a (ids t ++ owned) frees part room₂ in
    let c =
      free_children-Childless fuel b.arena p t (ids b.tree ++ owned) b.frees
        (frame a.nodes b.arena.nodes p t
          (λ i k. b.others i (ground (arith, count-append i (ids t) owned))) h)
        (IsPartition-perm (λ i. count-exchange i (ids b.tree) (ids t) owned) b.partition) room₁ in
    let r =
      refill-Refilled p t b.tree c.arena owned c.frees c.node
        (frame b.arena.nodes c.arena.nodes node_id_none b.tree
          (λ i k. c.others i (ground (arith, count-append i (ids b.tree) owned))) b.holds)
        c.partition (same ∙ ap type_of (sym b.value)) in
    record {
      tree = transplant (root_of t) (generation_of t) b.tree;
      arena = r.arena;
      frees = r.frees;
      returns =
          rw
            (
              load-ok a (root_of t) (Holds-root a.nodes p t h) (node_alive t p),
              node_type t p,
              same,
              type_eq_self (type_of v),
              b.returns,
              c.returns,
            )
            r.returns;
      value = value_of-transplant (root_of t) (generation_of t) b.tree ∙ b.value;
      same_root = root_of-transplant (root_of t) (generation_of t) b.tree;
      same_generation = generation_of-transplant (root_of t) (generation_of t) b.tree;
      holds = r.holds;
      partition = r.partition;
      others = λ i k.
          r.others i k
          ∙ c.others i (ground (arith, count-append i (ids b.tree) owned))
          ∙ b.others i (ground (arith, count-append i (ids t) owned));
    }
