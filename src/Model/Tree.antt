-- ===== src/Model/Tree.antt =====
-- The trees that a model's arena stands for: each node with its slot and generation. `Holds` says
-- that the slots contain the tree, `ids` which slots it owns, `value_of` which value it is.
use config_manager.Common.{
  ℕ, suc, ◌+◌, ◌≡◌, ◌≢◌, ◌∙◌, Bytes, true, List, [], ◌∷◌, ◌++◌, some, get_elem?, count,
  count-append, arith,
}
use config_manager.Value.{
  ConfigValue, scalar, object, array, Members, no_members, member, Elements, no_elements, element,
  object_type, array_type, scalar_type, Scalar, monostate,
}
use config_manager.Arena.{Node}

mutual
  pub data Tree : Type 0 where
    leaf : ℕ → ℕ → Scalar → Tree
    branches_at : ℕ → ℕ → Branches → Tree
    items_at : ℕ → ℕ → Items → Tree

  pub data Branches : Type 0 where
    no_branches : Branches
    branch : Bytes → Tree → Branches → Branches

  pub data Items : Type 0 where
    no_items : Items
    item : Tree → Items → Items

abbrev pub root_of : Tree → ℕ
root_of (leaf id g s) = id
root_of (branches_at id g bs) = id
root_of (items_at id g is) = id

abbrev pub branch_ids : Branches → List (Bytes × ℕ)
branch_ids no_branches = []
branch_ids (branch k t bs) = (k, root_of t) ∷ branch_ids bs

abbrev pub item_ids : Items → List ℕ
item_ids no_items = []
item_ids (item t is) = root_of t ∷ item_ids is

abbrev pub leaf_node : ℕ → Scalar → ℕ → Node
leaf_node g s p = record {
  type = scalar_type s;
  scalar = s;
  members = [];
  elements = [];
  parent = p;
  generation = g;
  alive = true;
}

abbrev pub object_node : ℕ → List (Bytes × ℕ) → ℕ → Node
object_node g ms p = record {
  type = object_type;
  scalar = monostate;
  members = ms;
  elements = [];
  parent = p;
  generation = g;
  alive = true;
}

abbrev pub array_node : ℕ → List ℕ → ℕ → Node
array_node g es p = record {
  type = array_type;
  scalar = monostate;
  members = [];
  elements = es;
  parent = p;
  generation = g;
  alive = true;
}

-- What the slot of a tree's root contains.
abbrev pub node_of : Tree → ℕ → Node
node_of (leaf id g s) p = leaf_node g s p
node_of (branches_at id g bs) p = object_node g (branch_ids bs) p
node_of (items_at id g is) p = array_node g (item_ids is) p

abbrev mutual
  pub value_of : Tree → ConfigValue
  value_of (leaf id g s) = scalar s
  value_of (branches_at id g bs) = object (members_of bs)
  value_of (items_at id g is) = array (elements_of is)

  pub members_of : Branches → Members
  members_of no_branches = no_members
  members_of (branch k t bs) = member k (value_of t) (members_of bs)

  pub elements_of : Items → Elements
  elements_of no_items = no_elements
  elements_of (item t is) = element (value_of t) (elements_of is)

abbrev mutual
  pub ids : Tree → List ℕ
  ids (leaf id g s) = id ∷ []
  ids (branches_at id g bs) = id ∷ ids_below bs
  ids (items_at id g is) = id ∷ ids_in is

  pub ids_below : Branches → List ℕ
  ids_below no_branches = []
  ids_below (branch k t bs) = ids t ++ ids_below bs

  pub ids_in : Items → List ℕ
  ids_in no_items = []
  ids_in (item t is) = ids t ++ ids_in is

abbrev mutual
  pub Holds : List Node → ℕ → Tree → Type 0
  Holds ns p (leaf id g s) = get_elem? ns id ≡ some (leaf_node g s p)
  Holds ns p (branches_at id g bs) =
      (get_elem? ns id ≡ some (object_node g (branch_ids bs) p)) × HoldsBranches ns id bs
  Holds ns p (items_at id g is) =
      (get_elem? ns id ≡ some (array_node g (item_ids is) p)) × HoldsItems ns id is

  pub HoldsBranches : List Node → ℕ → Branches → Type 0
  HoldsBranches ns p no_branches = Unit {0}
  HoldsBranches ns p (branch k t bs) = Holds ns p t × HoldsBranches ns p bs

  pub HoldsItems : List Node → ℕ → Items → Type 0
  HoldsItems ns p no_items = Unit {0}
  HoldsItems ns p (item t is) = Holds ns p t × HoldsItems ns p is

-- The number of nodes of a value.
abbrev mutual
  pub nodes_in : ConfigValue → ℕ
  nodes_in (scalar s) = 1
  nodes_in (object ms) = suc (nodes_in_members ms)
  nodes_in (array es) = suc (nodes_in_elements es)

  pub nodes_in_members : Members → ℕ
  nodes_in_members no_members = 0
  nodes_in_members (member k v ms) = nodes_in v + nodes_in_members ms

  pub nodes_in_elements : Elements → ℕ
  nodes_in_elements no_elements = 0
  nodes_in_elements (element v es) = nodes_in v + nodes_in_elements es

-- The slots of `xs` are the same in both.
abbrev pub SameOn : List ℕ → List Node → List Node → Type 0
SameOn xs ns ms = (i : ℕ) → count i xs ≢ 0 → get_elem? ms i ≡ get_elem? ns i

mutual
  pub frame :
      (ns ms : List Node) (p : ℕ) (t : Tree) → SameOn (ids t) ns ms → Holds ns p t → Holds ms p t
  frame ns ms p (leaf id g s) same h = same id (ground arith) ∙ h
  frame ns ms p (branches_at id g bs) same h =
      (same id (ground arith) ∙ h.0, frame_below ns ms id bs (λ i hi. same i (ground arith)) h.1)
  frame ns ms p (items_at id g is) same h =
      (same id (ground arith) ∙ h.0, frame_in ns ms id is (λ i hi. same i (ground arith)) h.1)

  pub frame_below :
      (ns ms : List Node) (p : ℕ) (bs : Branches)
      → SameOn (ids_below bs) ns ms
      → HoldsBranches ns p bs
      → HoldsBranches ms p bs
  frame_below ns ms p no_branches same h = tt
  frame_below ns ms p (branch k t bs) same h = (
    frame ns ms p t (λ i hi. same i (ground (arith, count-append i (ids t) (ids_below bs)))) h.0,
    frame_below ns ms p bs (λ i hi. same i (ground (arith, count-append i (ids t) (ids_below bs))))
        h.1,
  )

  pub frame_in :
      (ns ms : List Node) (p : ℕ) (is : Items)
      → SameOn (ids_in is) ns ms
      → HoldsItems ns p is
      → HoldsItems ms p is
  frame_in ns ms p no_items same h = tt
  frame_in ns ms p (item t is) same h = (
    frame ns ms p t (λ i hi. same i (ground (arith, count-append i (ids t) (ids_in is)))) h.0,
    frame_in ns ms p is (λ i hi. same i (ground (arith, count-append i (ids t) (ids_in is)))) h.1,
  )
