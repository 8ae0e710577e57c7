-- ===== src/Json/Save/Laws.antt =====
-- The document of a node is the value of the tree that stands there.
use mathlib.Core.Path.{subst}
use config_manager.Common.{
  ℕ, zero, suc, ◌+◌, ◌≤◌, ◌≡◌, refl, ap, Bytes, Bool, true, false, ◌&&◌, if◌then◌else◌, List, [],
  ◌∷◌, length, get_elem?, some, arith, Result, ok, err, ◌>>=◌, serialization_error, ==-self,
}
use config_manager.Value.{
  ConfigValue, scalar, object, array, Members, no_members, member, Elements, no_elements, element,
  Scalar, monostate, bool, int64, double, string, scalar_type,
}
use config_manager.Arena.{Arena, matches, get}
use config_manager.Arena.Actions.{get-ok}
use config_manager.Node
use config_manager.Node.{ConfigNode, handle_to, valid, find_live}
use config_manager.Model.Tree.{
  Tree, leaf, branches_at, items_at, Branches, no_branches, branch, Items, no_items, item, root_of,
  branch_ids, item_ids, array_node, node_of, value_of, members_of, elements_of, Holds,
  HoldsBranches, HoldsItems, nodes_in, nodes_in_members, nodes_in_elements,
}
use config_manager.Json.Save.{
  is_finite, members_document, elements_document, node_document, to_json,
}

abbrev is_finite_scalar : Scalar → Bool
is_finite_scalar (double d) = is_finite d
is_finite_scalar _ = true

-- Every double of the value is finite.
abbrev mutual
  pub all_finite : ConfigValue → Bool
  all_finite (scalar s) = is_finite_scalar s
  all_finite (object ms) = all_finite_members ms
  all_finite (array es) = all_finite_elements es

  pub all_finite_members : Members → Bool
  all_finite_members no_members = true
  all_finite_members (member k v ms) = all_finite v && all_finite_members ms

  pub all_finite_elements : Elements → Bool
  all_finite_elements no_elements = true
  all_finite_elements (element v es) = all_finite v && all_finite_elements es

abbrev pub if_finite : {A : Type 0} → Bool → A → Result A
if_finite finite x = if finite then ok x else err serialization_error

-- The handle to the root of a tree.
abbrev pub handle_of : Tree → ℕ → ConfigNode
handle_of t p = handle_to (root_of t) (node_of t p)

Holds-root :
    (a : Arena) (p : ℕ) (t : Tree)
    → Holds a.nodes p t
    → get_elem? a.nodes (root_of t) ≡ some (node_of t p)
Holds-root a p (leaf id g s) h = h
Holds-root a p (branches_at id g bs) h = h.0
Holds-root a p (items_at id g is) h = h.0

valid-handle_of :
    (a : Arena) (p : ℕ) (t : Tree) → Holds a.nodes p t → valid a (handle_of t p) ≡ true
unfolding valid matches
valid-handle_of a p (leaf id g s) h = rw (h, ==-self g) refl
valid-handle_of a p (branches_at id g bs) h = rw (h.0, ==-self g) refl
valid-handle_of a p (items_at id g is) h = rw (h.0, ==-self g) refl

abbrev pub branch_handles : ℕ → Branches → List (Bytes × ConfigNode)
branch_handles p no_branches = []
branch_handles p (branch k t bs) = (k, handle_of t p) ∷ branch_handles p bs

pub handle_to-root :
    (a : Arena) (p : ℕ) (t : Tree) → Holds a.nodes p t → get (root_of t) a ≡ ok (node_of t p)
handle_to-root a p (leaf id g s) h = get-ok a id h refl
handle_to-root a p (branches_at id g bs) h = get-ok a id h.0 refl
handle_to-root a p (items_at id g is) h = get-ok a id h.0 refl

pub member_handles-branches :
    (a : Arena) (p : ℕ) (bs : Branches)
    → HoldsBranches a.nodes p bs
    → Node.member_handles a (branch_ids bs) ≡ ok (branch_handles p bs)
unfolding Node.member_handles
member_handles-branches a p no_branches h = refl
member_handles-branches a p (branch k t bs) (h, hs) =
    rw (handle_to-root a p t h, member_handles-branches a p bs hs) refl

type-handle_of :
    (a : Arena) (p : ℕ) (t : Tree)
    → Holds a.nodes p t
    → Node.type a (handle_of t p) ≡ ok (node_of t p).type
unfolding Node.type
type-handle_of a p t h = rw (valid-handle_of a p t h, handle_to-root a p t h) refl

pub find_live-handle_of :
    (a : Arena) (p : ℕ) (t : Tree)
    → Holds a.nodes p t
    → find_live a (handle_of t p) ≡ ok (node_of t p)
unfolding find_live
find_live-handle_of a p t h = rw (valid-handle_of a p t h) (handle_to-root a p t h)

both_finite :
    {A B C : Type 0} (b d : Bool) (x : A) (y : B) (f : A → B → C)
    → (if_finite b x >>= λ u. if_finite d y >>= λ v. ok (f u v)) ≡ if_finite (b && d) (f x y)
both_finite true true x y f = refl
both_finite true false x y f = refl
both_finite false d x y f = refl

pub map_finite :
    {A B : Type 0} (b : Bool) (x : A) (f : A → B)
    → (if_finite b x >>= λ u. ok (f u)) ≡ if_finite b (f x)
map_finite true x f = refl
map_finite false x f = refl

at-item :
    (a : Arena) (p i : ℕ) (whole : Tree) (t : Tree) (ns : List ℕ)
    → find_live a (handle_of whole p) ≡ ok (array_node (handle_of whole p).generation ns p)
    → get_elem? ns i ≡ some (root_of t)
    → Holds a.nodes (root_of whole) t
    → Node.at a (handle_of whole p) i ≡ ok (handle_of t (root_of whole))
unfolding Node.at
at-item a p i whole t ns live there h = rw (live, there, handle_to-root a (root_of whole) t h) refl

-- The recursive calls return the children's documents.
abbrev DocumentsIn : (ConfigNode → Result ConfigValue) → ℕ → Items → Type 0
DocumentsIn rec p no_items = Unit {0}
DocumentsIn rec p (item t is) =
    (rec (handle_of t p) ≡ if_finite (all_finite (value_of t)) (value_of t)) × DocumentsIn rec p is

elements_document-items :
    (rec : ConfigNode → Result ConfigValue) (a : Arena) (p : ℕ) (whole : Tree) (ns : List ℕ) (i : ℕ)
    (is : Items)
    → find_live a (handle_of whole p) ≡ ok (array_node (handle_of whole p).generation ns p)
    → ((j : ℕ) → get_elem? ns (i + j) ≡ get_elem? (item_ids is) j)
    → HoldsItems a.nodes (root_of whole) is
    → DocumentsIn rec (root_of whole) is
    → elements_document rec a (handle_of whole p) (length (item_ids is)) i
      ≡ if_finite (all_finite_elements (elements_of is)) (elements_of is)
unfolding elements_document
elements_document-items rec a p whole ns i no_items live there h docs = refl
elements_document-items rec a p whole ns i (item t is) live there (h, hs) (one, docs) =
    rw
      (
        at-item a p i whole t ns live
            (subst (λ k. get_elem? ns k ≡ some (root_of t)) (omega arith) (there 0)) h,
        one,
        elements_document-items rec a p whole ns (suc i) is live
            (λ j.
              subst (λ k. get_elem? ns k ≡ get_elem? (item_ids is) j) (omega arith) (there (suc j)))
            hs docs,
      )
      (both_finite (all_finite (value_of t)) (all_finite_elements (elements_of is)) (value_of t)
        (elements_of is) element)

leaf_document :
    (rec : ConfigNode → Result ConfigValue) (a : Arena) (p id g : ℕ) (s : Scalar)
    → Holds a.nodes p (leaf id g s)
    → node_document rec a (handle_of (leaf id g s) p) (scalar_type s)
      ≡ if_finite (is_finite_scalar s) (scalar s)
unfolding node_document Node.scalar_value
leaf_document rec a p id g monostate h = rw (find_live-handle_of a p (leaf id g monostate) h) refl
leaf_document rec a p id g (bool b) h = rw (find_live-handle_of a p (leaf id g (bool b)) h) refl
leaf_document rec a p id g (int64 z) h = rw (find_live-handle_of a p (leaf id g (int64 z)) h) refl
leaf_document rec a p id g (double d) h = rw (find_live-handle_of a p (leaf id g (double d)) h) refl
leaf_document rec a p id g (string s) h = rw (find_live-handle_of a p (leaf id g (string s)) h) refl

mutual
  unfolding to_json node_document members_document Node.members Node.size Node.scalar_value

  documents :
      (fuel : ℕ) (a : Arena) (p : ℕ) (t : Tree)
      → Holds a.nodes p t
      → nodes_in (value_of t) ≤ fuel
      → to_json fuel a (handle_of t p) ≡ if_finite (all_finite (value_of t)) (value_of t)
  documents zero a p (leaf id g s) h room = absurd (omega arith)
  documents zero a p (branches_at id g bs) h room = absurd (omega arith)
  documents zero a p (items_at id g is) h room = absurd (omega arith)
  documents (suc fuel) a p (leaf id g s) h room =
      rw (type-handle_of a p (leaf id g s) h) (leaf_document (to_json fuel a) a p id g s h)
  documents (suc fuel) a p (branches_at id g bs) h room =
      rw
        (
          type-handle_of a p (branches_at id g bs) h,
          find_live-handle_of a p (branches_at id g bs) h,
          member_handles-branches a id bs h.1,
          documents_below fuel a id bs h.1 (omega arith),
        )
        (map_finite (all_finite_members (members_of bs)) (members_of bs) object)
  documents (suc fuel) a p (items_at id g is) h room =
      rw
        (
          type-handle_of a p (items_at id g is) h,
          valid-handle_of a p (items_at id g is) h,
          handle_to-root a p (items_at id g is) h,
          elements_document-items (to_json fuel a) a p (items_at id g is) (item_ids is) 0 is
              (find_live-handle_of a p (items_at id g is) h)
              (λ j. ap (get_elem? (item_ids is)) (omega arith)) h.1
              (documents_in fuel a id is h.1 (omega arith)),
        )
        (map_finite (all_finite_elements (elements_of is)) (elements_of is) array)

  pub documents_below :
      (fuel : ℕ) (a : Arena) (p : ℕ) (bs : Branches)
      → HoldsBranches a.nodes p bs
      → nodes_in_members (members_of bs) ≤ fuel
      → members_document (to_json fuel a) (branch_handles p bs)
        ≡ if_finite (all_finite_members (members_of bs)) (members_of bs)
  documents_below fuel a p no_branches h room = refl
  documents_below fuel a p (branch k t bs) (h, hs) room =
      rw (documents fuel a p t h (omega arith), documents_below fuel a p bs hs (omega arith))
        (both_finite (all_finite (value_of t)) (all_finite_members (members_of bs)) (value_of t)
          (members_of bs) (member k))

  documents_in :
      (fuel : ℕ) (a : Arena) (p : ℕ) (is : Items)
      → HoldsItems a.nodes p is
      → nodes_in_elements (elements_of is) ≤ fuel
      → DocumentsIn (to_json fuel a) p is
  documents_in fuel a p no_items h room = tt
  documents_in fuel a p (item t is) (h, hs) room =
      (documents fuel a p t h (omega arith), documents_in fuel a p is hs (omega arith))

-- With a round of fuel for each node, `toJson` of the root of a tree that the arena holds is the
-- document of its value, or SerializationError where a double in it is not finite.
pub to_json-value_of :
    (fuel : ℕ) (a : Arena) (p : ℕ) (t : Tree)
    → Holds a.nodes p t
    → nodes_in (value_of t) ≤ fuel
    → to_json fuel a (handle_of t p) ≡ if_finite (all_finite (value_of t)) (value_of t)
to_json-value_of fuel a p t h room = documents fuel a p t h room
