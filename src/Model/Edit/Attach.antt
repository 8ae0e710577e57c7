-- ===== src/Model/Edit/Attach.antt =====
-- A detached tree is linked under a node: the last steps of applyWrite, and each step of its chain.
use config_manager.Common.{
  ℕ, ◌≡◌, ◌≢◌, ◌∙◌, true, List, ◌∷◌, ◌++◌, some, get_elem?, length, length-set, count, count-append,
  arith, ok,
}
use config_manager.Path.{PathSegment}
use config_manager.Arena.{Arena, Node, write_node}
use config_manager.Arena.Slots.{IsPartition, IsPartition-write}
use config_manager.Arena.State.{modify, with_parent}
use config_manager.Arena.Actions.{modify-ok}
use config_manager.Model.Store.{link}
use config_manager.Model.Tree.{Tree, root_of, node_of, ids, Holds, SameOn, frame}
use config_manager.Model.Build.Slot.{write_self, write_other}
use config_manager.Model.Assign.Adopt.{reparent, adopt-returns, ne_root, root-in-ids}

pub record Attached (s : PathSegment) (id : ℕ) (n : Node) (u : Tree) (a : Arena)
    (owned frees : List ℕ) : Type 0 where
  pub middle : Arena
  pub arena : Arena
  pub adopts : modify (root_of u) (with_parent id) a ≡ ok (tt, middle)
  pub links : modify id (link s (root_of u)) middle ≡ ok (tt, arena)
  pub holds : Holds arena.nodes id u
  pub node : get_elem? arena.nodes id ≡ some (link s (root_of u) n)
  pub partition : IsPartition arena (ids u ++ (id ∷ owned)) frees
  pub others : SameOn owned a.nodes arena.nodes
  pub same_length : length arena.nodes ≡ length a.nodes

pub attach-Attached :
    (s : PathSegment) (id : ℕ) (n : Node) (q : ℕ) (u : Tree) (a : Arena) (owned frees : List ℕ)
    → get_elem? a.nodes id ≡ some n
    → n.alive ≡ true
    → Holds a.nodes q u
    → IsPartition a (ids u ++ (id ∷ owned)) frees
    → Attached s id n u a owned frees
attach-Attached s id n q u a owned frees en live h part =
    let m : Node = node_of u id in
    let b : Arena = write_node (root_of u) m a in
    let l : Node = link s (root_of u) n in
    let c : Arena = write_node id l b in
    let same : SameOn (id ∷ owned) a.nodes b.nodes =
      λ i k. write_other a (root_of u) m i (ne_root u (id ∷ owned) i part k) in
    let en' : get_elem? b.nodes id ≡ some n = same id (ground arith) ∙ en in
    let away : (i : ℕ) → count i (ids u ++ owned) ≢ 0 → get_elem? c.nodes i ≡ get_elem? b.nodes i =
      λ i k. write_other b id l i (λ e. k (
        ground (
          arith,
          part.once id,
          count-append id (ids u) (id ∷ owned),
          count-append id (ids u) owned,
          e,
        ))) in
    let partb =
      IsPartition-write (root_of u) m part
        (ground (arith, root-in-ids u, count-append (root_of u) (ids u) (id ∷ owned))) in
    record {
      middle = b;
      arena = c;
      adopts = adopt-returns a q id u h;
      links = modify-ok b id en' live (link s (root_of u));
      holds =
          frame b.nodes c.nodes id u (λ i k. away i (ground (arith, count-append i (ids u) owned)))
            (reparent a q id u (id ∷ owned) frees h part);
      node = write_self b id n l en';
      partition =
          IsPartition-write id l partb (ground (arith, count-append id (ids u) (id ∷ owned)));
      others = λ i k. away i (ground (arith, count-append i (ids u) owned)) ∙ same i (ground arith);
      same_length = length-set b.nodes id l ∙ length-set a.nodes (root_of u) m;
    }
