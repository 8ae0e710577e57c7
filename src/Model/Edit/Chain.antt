-- ===== src/Model/Edit/Chain.antt =====
-- The chain of new containers that applyWrite builds, and its link to the existing tree.
use config_manager.Common.{
  ℕ, suc, ◌+◌, ◌≤◌, ◌≡◌, refl, ap, ◌∙◌, List, [], ◌∷◌, ◌++◌, Option, none, some, get_elem?, length,
  count, count-append, arith, ok,
}
use config_manager.Path.{PathSegment, key, index}
use config_manager.Value.{ConfigValue}
use config_manager.Arena.{Arena, Node, node_id_none, new_node}
use config_manager.Arena.Slots.{IsPartition, allocate-Allocated}
use config_manager.Arena.State.{new}
use config_manager.Model.Store.{link, container_type, build_chain}
use config_manager.Model.Plan.{join}
use config_manager.Model.Tree.{
  Tree, branches_at, items_at, no_branches, branch, no_items, item, root_of, node_of, value_of, ids,
  Holds, SameOn, frame, nodes_in,
}
use config_manager.Model.Resolve.{Holds-root, node_alive}
use config_manager.Model.Build.{IsPartition-perm, Built}
use config_manager.Model.Build.Laws.{build-Built}
use config_manager.Model.Assign.Contents.{Assigned}
use config_manager.Model.Edit.Attach.{attach-Attached}
use config_manager.Model.Edit.{chain_value, put_child}
use config_manager.Model.Edit.Tree.{
  next_tree, put_tree, siblings, value_of-put, root_of-put, generation_of-put,
}
use config_manager.Model.Edit.Place.{ids-next, ids-put, Holds-add}

-- A new container with one child.
abbrev wrap : PathSegment → ℕ → ℕ → Tree → Tree
wrap (key k) id g u = branches_at id g (branch k u no_branches)
wrap (index i) id g u = items_at id g (item u no_items)

root_of-wrap : (s : PathSegment) (id g : ℕ) (u : Tree) → root_of (wrap s id g u) ≡ id
root_of-wrap (key k) id g u = refl
root_of-wrap (index i) id g u = refl

value_of-wrap :
    (s : PathSegment) (rest : List PathSegment) (w : ConfigValue) (id g : ℕ) (u : Tree)
    → value_of u ≡ chain_value rest w
    → value_of (wrap s id g u) ≡ chain_value (s ∷ rest) w
value_of-wrap (key k) rest w id g u e = rw e refl
value_of-wrap (index i) rest w id g u e = rw e refl

pub nodes_in-chain :
    (s : PathSegment) (rest : List PathSegment) (w : ConfigValue)
    → nodes_in (chain_value (s ∷ rest) w) ≡ suc (nodes_in (chain_value rest w))
nodes_in-chain (key k) rest w = omega arith
nodes_in-chain (index i) rest w = omega arith

ids-wrap :
    (i : ℕ) (s : PathSegment) (id g : ℕ) (u : Tree) (owned : List ℕ)
    → count i (ids u ++ (id ∷ owned)) ≡ count i (ids (wrap s id g u) ++ owned)
ids-wrap i (key k) id g u owned = omega (
  arith,
  count-append i (ids u) (id ∷ owned),
  count-append i (ids u ++ []) owned,
  count-append i (ids u) [],
)
ids-wrap i (index j) id g u owned = omega (
  arith,
  count-append i (ids u) (id ∷ owned),
  count-append i (ids u ++ []) owned,
  count-append i (ids u) [],
)

Holds-wrap :
    (ns : List Node) (s : PathSegment) (id g : ℕ) (u : Tree)
    → get_elem? ns id
      ≡ some (link s (root_of u) (record (new_node (container_type s)) { generation = g }))
    → Holds ns id u
    → Holds ns node_id_none (wrap s id g u)
Holds-wrap ns (key k) id g u e h = (e, (h, tt))
Holds-wrap ns (index i) id g u e h = (e, (h, tt))

count_behind :
    (i id : ℕ) (xs owned : List ℕ) → count i (id ∷ (xs ++ owned)) ≡ count i (xs ++ (id ∷ owned))
count_behind i id xs owned = omega (arith, count-append i xs owned, count-append i xs (id ∷ owned))

-- The chain of new containers above a value, as a detached tree.
pub build_chain-Built :
    (segments : List PathSegment) (w : ConfigValue) (a : Arena) (owned frees : List ℕ)
    → IsPartition a owned frees
    → length a.nodes + nodes_in (chain_value segments w) ≤ node_id_none
    → Built (chain_value segments w) node_id_none a owned (build_chain segments w a)
unfolding build_chain new
build_chain-Built [] w a owned frees part room = build-Built w node_id_none a owned frees part room
build_chain-Built (s ∷ rest) w a owned frees part room =
    let longer = nodes_in-chain s rest w in
    let b = build_chain-Built rest w a owned frees part (omega (arith, room, longer)) in
    let al =
      allocate-Allocated (container_type s) b.arena (ids b.tree ++ owned) b.frees b.partition
        (omega (arith, room, longer, b.grows)) in
    let away : SameOn (ids b.tree ++ owned) b.arena.nodes al.arena.nodes =
      λ i k. al.others i (λ e. k (rw e al.fresh)) in
    let at =
      attach-Attached s al.id (record (new_node (container_type s)) { generation = al.generation })
        node_id_none b.tree al.arena owned al.frees al.holds refl
        (frame b.arena.nodes al.arena.nodes node_id_none b.tree
          (λ i k. away i (ground (arith, count-append i (ids b.tree) owned))) b.holds)
        (IsPartition-perm (λ i. count_behind i al.id (ids b.tree) owned) al.partition) in
    record {
      tree = wrap s al.id al.generation b.tree;
      arena = at.arena;
      frees = al.frees;
      returns =
          rw (b.returns, al.returns, at.adopts, at.links, root_of-wrap s al.id al.generation b.tree)
            refl;
      value = value_of-wrap s rest w al.id al.generation b.tree b.value;
      holds = Holds-wrap at.arena.nodes s al.id al.generation b.tree at.node at.holds;
      partition =
          IsPartition-perm (λ i. ids-wrap i s al.id al.generation b.tree owned) at.partition;
      others = λ i k.
          at.others i k ∙ away i (ground (arith, count-append i (ids b.tree) owned)) ∙ b.others i k;
      grows = omega (arith, longer, at.same_length, al.grows, b.grows);
    }

pub count_open :
    (i : ℕ) (xs : List ℕ) (s : PathSegment) (t : Tree) (owned : List ℕ)
    → next_tree s t ≡ ok none
    → count i (xs ++ (ids t ++ owned)) ≡ count i (xs ++ (root_of t ∷ (siblings s t ++ owned)))
count_open i xs s t owned e = omega (
  arith,
  ids-next i s t e,
  count-append i xs (ids t ++ owned),
  count-append i (ids t) owned,
  count-append i xs (root_of t ∷ (siblings s t ++ owned)),
  count-append i (siblings s t) owned,
)

-- The slots of a child and those around it are the slots of the tree with that child, and the others.
pub count_closed :
    (i : ℕ) (u : Tree) (s : PathSegment) (t : Tree) (owned : List ℕ) {c : Option Tree}
    → next_tree s t ≡ ok c
    → count i (ids u ++ (root_of t ∷ (siblings s t ++ owned)))
      ≡ count i (ids (put_tree s u t) ++ owned)
count_closed i u s t owned e = omega (
  arith,
  ids-put i s u t e,
  count-append i (ids u) (root_of t ∷ siblings s t),
  count-append i (ids u) (root_of t ∷ (siblings s t ++ owned)),
  count-append i (siblings s t) owned,
  count-append i (ids (put_tree s u t)) owned,
)

-- The chain is linked where the existing tree has a place for it.
pub join-Assigned :
    (s : PathSegment) (rest : List PathSegment) (w : ConfigValue) (p : ℕ) (a : Arena) (t : Tree)
    (owned frees : List ℕ)
    → next_tree s t ≡ ok none
    → Holds a.nodes p t
    → IsPartition a (ids t ++ owned) frees
    → length a.nodes + nodes_in (chain_value rest w) ≤ node_id_none
    → Assigned
        (put_child s (chain_value rest w) (value_of t))
        p
        a
        t
        owned
        (join (root_of t) (s ∷ rest) w a)
unfolding join
join-Assigned s rest w p a t owned frees place h part room =
    let b = build_chain-Built rest w a (ids t ++ owned) frees part room in
    let held : Holds b.arena.nodes p t =
      frame a.nodes b.arena.nodes p t
        (λ i k. b.others i (ground (arith, count-append i (ids t) owned))) h in
    let at =
      attach-Attached s (root_of t) (node_of t p) node_id_none b.tree b.arena
        (siblings s t ++ owned) b.frees (Holds-root b.arena.nodes p t held) (node_alive t p) b.holds
        (IsPartition-perm (λ i. count_open i (ids b.tree) s t owned place) b.partition) in
    record {
      tree = put_tree s b.tree t;
      arena = at.arena;
      frees = b.frees;
      returns = rw (b.returns, at.adopts, at.links) refl;
      value = value_of-put s b.tree t ∙ ap (λ x. put_child s x (value_of t)) b.value;
      same_root = root_of-put s b.tree t;
      same_generation = generation_of-put s b.tree t;
      holds =
          Holds-add b.arena.nodes at.arena.nodes p s b.tree t place held at.node
            (λ i k. at.others i (ground (arith, count-append i (siblings s t) owned))) at.holds;
      partition = IsPartition-perm (λ i. count_closed i b.tree s t owned place) at.partition;
      others = λ i k.
          at.others i (ground (arith, count-append i (siblings s t) owned))
          ∙ b.others i (ground (arith, count-append i (ids t) owned));
    }
