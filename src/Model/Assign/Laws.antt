-- ===== src/Model/Assign/Laws.antt =====
-- The parts of assignContents: a tree whose root moves into another slot, with its children.
use config_manager.Common.{
  ◌==◌, ==_iff, sym, if◌then◌else◌, ℕ, ◌≡◌, refl, ap, ◌∙◌, true, List, [], ◌∷◌, ◌++◌, some,
  get_elem?, length, map,
}
use config_manager.Value.{
  NodeType, null_type, bool_type, int_type, double_type, string_type, object_type, array_type,
  type_of, type_eq, tag,
}
use config_manager.Arena.{Arena, Node}
use config_manager.Arena.Slots.{IsPartition}
use config_manager.Arena.State.{Action, ◌>>◌, without_children}
use config_manager.Model.Store.{for_each, adopt}
use config_manager.Model.Tree.{
  Tree, leaf, branches_at, items_at, root_of, node_of, value_of, ids, ids_below, ids_in, Holds,
  HoldsBranches, HoldsItems, SameOn, frame_below, frame_in,
}
use config_manager.Model.Assign.Adopt.{adopts_below, adopts_in}

abbrev pub generation_of : Tree → ℕ
generation_of (leaf id g s) = g
generation_of (branches_at id g bs) = g
generation_of (items_at id g is) = g

-- The tree with its root in another slot.
abbrev pub transplant : ℕ → ℕ → Tree → Tree
transplant id g (leaf _ _ s) = leaf id g s
transplant id g (branches_at _ _ bs) = branches_at id g bs
transplant id g (items_at _ _ is) = items_at id g is

abbrev pub below : Tree → List ℕ
below (leaf _ _ _) = []
below (branches_at _ _ bs) = ids_below bs
below (items_at _ _ is) = ids_in is

abbrev pub HoldsBelow : List Node → ℕ → Tree → Type 0
HoldsBelow ns p (leaf _ _ _) = Unit {0}
HoldsBelow ns p (branches_at _ _ bs) = HoldsBranches ns p bs
HoldsBelow ns p (items_at _ _ is) = HoldsItems ns p is

pub ids-transplant : (id g : ℕ) (u : Tree) → ids (transplant id g u) ≡ id ∷ below u
ids-transplant id g (leaf _ _ s) = refl
ids-transplant id g (branches_at _ _ bs) = refl
ids-transplant id g (items_at _ _ is) = refl

pub ids-below : (u : Tree) → ids u ≡ root_of u ∷ below u
ids-below (leaf _ _ s) = refl
ids-below (branches_at _ _ bs) = refl
ids-below (items_at _ _ is) = refl

pub value_of-transplant : (id g : ℕ) (u : Tree) → value_of (transplant id g u) ≡ value_of u
value_of-transplant id g (leaf _ _ s) = refl
value_of-transplant id g (branches_at _ _ bs) = refl
value_of-transplant id g (items_at _ _ is) = refl

pub root_of-transplant : (id g : ℕ) (u : Tree) → root_of (transplant id g u) ≡ id
root_of-transplant id g (leaf _ _ s) = refl
root_of-transplant id g (branches_at _ _ bs) = refl
root_of-transplant id g (items_at _ _ is) = refl

pub generation_of-transplant : (id g : ℕ) (u : Tree) → generation_of (transplant id g u) ≡ g
generation_of-transplant id g (leaf _ _ s) = refl
generation_of-transplant id g (branches_at _ _ bs) = refl
generation_of-transplant id g (items_at _ _ is) = refl

pub Holds-below : (ns : List Node) (p : ℕ) (u : Tree) → Holds ns p u → HoldsBelow ns (root_of u) u
Holds-below ns p (leaf _ _ s) h = tt
Holds-below ns p (branches_at _ _ bs) h = h.1
Holds-below ns p (items_at _ _ is) h = h.1

pub HoldsBelow-transplant :
    (ns : List Node) (p id g : ℕ) (u : Tree)
    → get_elem? ns id ≡ some (node_of (transplant id g u) p)
    → HoldsBelow ns id u
    → Holds ns p (transplant id g u)
HoldsBelow-transplant ns p id g (leaf _ _ s) e h = e
HoldsBelow-transplant ns p id g (branches_at _ _ bs) e h = (e, h)
HoldsBelow-transplant ns p id g (items_at _ _ is) e h = (e, h)

pub frame_children :
    (ns ms : List Node) (p : ℕ) (u : Tree)
    → SameOn (below u) ns ms
    → HoldsBelow ns p u
    → HoldsBelow ms p u
frame_children ns ms p (leaf _ _ s) same h = tt
frame_children ns ms p (branches_at _ _ bs) same h = frame_below ns ms p bs same h
frame_children ns ms p (items_at _ _ is) same h = frame_in ns ms p is same h

-- The contents of one node moved into another.
abbrev pub move_contents : Node → Node → Node
move_contents b t = record t { scalar = b.scalar; members = b.members; elements = b.elements }

abbrev filled : NodeType → ℕ → ℕ → Node → Node
filled ty g p b = record b { type = ty; parent = p; generation = g; alive = true }

move_contents-filled :
    (t : Tree) (p : ℕ) (b : Node)
    → move_contents b (without_children (node_of t p))
      ≡ filled (type_of (value_of t)) (generation_of t) p b
move_contents-filled (leaf id g s) p b = refl
move_contents-filled (branches_at id g bs) p b = refl
move_contents-filled (items_at id g is) p b = refl

filled-transplant :
    (u : Tree) (q p id g : ℕ)
    → filled (type_of (value_of u)) g p (node_of u q) ≡ node_of (transplant id g u) p
filled-transplant (leaf _ _ s) q p id g = refl
filled-transplant (branches_at _ _ bs) q p id g = refl
filled-transplant (items_at _ _ is) q p id g = refl

pub move_contents-transplant :
    (t u : Tree) (p q : ℕ)
    → type_of (value_of t) ≡ type_of (value_of u)
    → move_contents (node_of u q) (without_children (node_of t p))
      ≡ node_of (transplant (root_of t) (generation_of t) u) p
move_contents-transplant t u p q e =
    move_contents-filled t p (node_of u q)
    ∙ ap (λ ty. filled ty (generation_of t) p (node_of u q)) e
    ∙ filled-transplant u q p (root_of t) (generation_of t)

pub type_eq_self : (t : NodeType) → type_eq t t ≡ true
type_eq_self null_type = refl
type_eq_self bool_type = refl
type_eq_self int_type = refl
type_eq_self double_type = refl
type_eq_self string_type = refl
type_eq_self object_type = refl
type_eq_self array_type = refl

untag : ℕ → NodeType
untag n =
    if n == 0
    then null_type
    else if n == 1
    then bool_type
    else if n == 2
    then int_type
    else if n == 3
    then double_type
    else if n == 4
    then string_type
    else if n == 5
    then object_type
    else array_type

untag-tag : (t : NodeType) → untag (tag t) ≡ t
unfolding untag
untag-tag null_type = refl
untag-tag bool_type = refl
untag-tag int_type = refl
untag-tag double_type = refl
untag-tag string_type = refl
untag-tag object_type = refl
untag-tag array_type = refl

pub type_eq→eq : (t u : NodeType) → type_eq t u ≡ true → t ≡ u
type_eq→eq t u h = sym (untag-tag t) ∙ ap untag ((==_iff (tag t) (tag u)).0 h) ∙ untag-tag u

pub node_type : (t : Tree) (p : ℕ) → (node_of t p).type ≡ type_of (value_of t)
node_type (leaf id g s) p = refl
node_type (branches_at id g bs) p = refl
node_type (items_at id g is) p = refl

-- Both loops that give a node's children a new parent, and what follows them.
pub record AdoptedChildren (p : ℕ) (u : Tree) (n : Node) (a : Arena) (owned frees : List ℕ)
    : Type 0 where
  pub arena : Arena
  pub returns :
      (k : Action (Unit {0}))
      → (for_each (adopt p) (map (λ m. m.1) n.members) >> (for_each (adopt p) n.elements >> k)) a
        ≡ k arena
  pub holds : HoldsBelow arena.nodes p u
  pub partition : IsPartition arena (below u ++ owned) frees
  pub others : SameOn owned a.nodes arena.nodes
  pub same_length : length arena.nodes ≡ length a.nodes

pub adopts_children :
    (q r p : ℕ) (u : Tree) (a : Arena) (owned frees : List ℕ)
    → HoldsBelow a.nodes q u
    → IsPartition a (below u ++ owned) frees
    → AdoptedChildren p u (node_of u r) a owned frees
unfolding for_each
adopts_children q r p (leaf id g s) a owned frees h part = record {
  arena = a;
  returns = λ k. refl;
  holds = tt;
  partition = part;
  others = λ i m. refl;
  same_length = refl;
}
adopts_children q r p (branches_at id g bs) a owned frees h part =
    let all = adopts_below q p bs a owned frees h part in
    record {
      arena = all.arena;
      returns = λ k. rw all.returns refl;
      holds = all.holds;
      partition = all.partition;
      others = all.others;
      same_length = all.same_length;
    }
adopts_children q r p (items_at id g is) a owned frees h part =
    let all = adopts_in q p is a owned frees h part in
    record {
      arena = all.arena;
      returns = λ k. rw all.returns refl;
      holds = all.holds;
      partition = all.partition;
      others = all.others;
      same_length = all.same_length;
    }
