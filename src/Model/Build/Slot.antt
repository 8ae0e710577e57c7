-- ===== src/Model/Build/Slot.antt =====
-- The slot of a value's root: it is made and given its parent; a scalar is stored in it.
use config_manager.Common.{
  ℕ, ◌+◌, ◌<◌, ◌≤◌, ◌≡◌, ◌≢◌, refl, sym, ◌∙◌, List, ◌∷◌, some, get_elem?, length, length-set,
  get_elem?-set_self, get_elem?-set_ne, lt-length_of_get_elem?, count, arith, Result, ok,
}
use config_manager.Value.{scalar, NodeType, scalar_type, Scalar}
use config_manager.Arena.{Arena, Node, node_id_none, write_node, new_node}
use config_manager.Arena.Slots.{IsPartition, IsPartition-write, allocate-Allocated}
use config_manager.Arena.State.{new, with_parent, with_scalar}
use config_manager.Arena.Actions.{modify-ok}
use config_manager.Model.Store.{begin, build}
use config_manager.Model.Tree.{leaf, leaf_node}
use config_manager.Model.Build.{Built}

-- A slot made and given its parent.
pub record Begun (t : NodeType) (parent : ℕ) (a : Arena) (owned : List ℕ) (out : Result (ℕ × Arena))
    : Type 0 where
  pub id : ℕ
  pub arena : Arena
  pub generation : ℕ
  pub frees : List ℕ
  pub returns : out ≡ ok (id, arena)
  pub partition : IsPartition arena (id ∷ owned) frees
  pub fresh : count id owned ≡ 0
  pub holds :
      get_elem? arena.nodes id
      ≡ some (record (new_node t) { generation = generation; parent = parent })
  pub others : (i : ℕ) → i ≢ id → get_elem? arena.nodes i ≡ get_elem? a.nodes i
  pub grows : length arena.nodes ≤ length a.nodes + 1

pub ne_of_owned : (i id : ℕ) (owned : List ℕ) → count id owned ≡ 0 → count i owned ≢ 0 → i ≢ id
ne_of_owned i id owned fresh h e = h (rw e fresh)

-- A write to a slot shows there, and nowhere else.
pub write_self :
    (a : Arena) (id : ℕ) (n m : Node)
    → get_elem? a.nodes id ≡ some n
    → get_elem? (write_node id m a).nodes id ≡ some m
write_self a id n m e = get_elem?-set_self a.nodes id m (lt-length_of_get_elem? a.nodes id e)

pub write_other :
    (a : Arena) (id : ℕ) (m : Node) (i : ℕ)
    → i ≢ id
    → get_elem? (write_node id m a).nodes i ≡ get_elem? a.nodes i
write_other a id m i h = get_elem?-set_ne a.nodes m (λ (e : id ≡ i). h (sym e))

pub begin-Begun :
    (t : NodeType) (parent : ℕ) (a : Arena) (owned frees : List ℕ)
    → IsPartition a owned frees
    → length a.nodes < node_id_none
    → Begun t parent a owned (begin t parent a)
unfolding begin new
begin-Begun t parent a owned frees p room =
    let al = allocate-Allocated t a owned frees p room in
    let made : Node = record (new_node t) { generation = al.generation } in
    record {
      id = al.id;
      arena = write_node al.id (with_parent parent made) al.arena;
      generation = al.generation;
      frees = al.frees;
      returns = rw (al.returns, modify-ok al.arena al.id al.holds refl (with_parent parent)) refl;
      partition = IsPartition-write al.id _ al.partition (ground arith);
      fresh = al.fresh;
      holds = write_self al.arena al.id made _ al.holds;
      others = λ i h. write_other al.arena al.id _ i h ∙ al.others i h;
      grows = rw (length-set al.arena.nodes al.id _) al.grows;
    }

pub build_scalar :
    (s : Scalar) (parent : ℕ) (a : Arena) (owned frees : List ℕ)
    → IsPartition a owned frees
    → length a.nodes < node_id_none
    → Built (scalar s) parent a owned (build (scalar s) parent a)
unfolding build
build_scalar s parent a owned frees p room =
    let b = begin-Begun (scalar_type s) parent a owned frees p room in
    record {
      tree = leaf b.id b.generation s;
      arena = write_node b.id (leaf_node b.generation s parent) b.arena;
      frees = b.frees;
      returns = rw (b.returns, modify-ok b.arena b.id b.holds refl (with_scalar s)) refl;
      value = refl;
      holds = write_self b.arena b.id _ _ b.holds;
      partition = IsPartition-write b.id _ b.partition (ground arith);
      others = λ i h.
          let other = ne_of_owned i b.id owned b.fresh h in
          write_other b.arena b.id _ i other ∙ b.others i other;
      grows = rw (length-set b.arena.nodes b.id _) b.grows;
    }
