-- ===== src/Model/Edit/Write.antt =====
-- planWrite and applyWrite together are the write of the specification.
use config_manager.Common.{
  ℕ, zero, suc, ◌+◌, ◌≤◌, ◌≡◌, refl, sym, ap, ◌∙◌, ◌==◌, bytes_eq, Bytes, false, Bool-cases, ==_iff,
  inl, inr, all, Option, none, some, List, [], ◌∷◌, ◌++◌, get_elem?, length, count-append, arith,
  Result, ok, err, fault, out_of_fuel, ◌>>=◌,
}
use config_manager.Path.{PathSegment, key, index}
use config_manager.Value.{ConfigValue, type_of, type_eq, monostate, bool, int64, double, string}
use config_manager.Arena.{Arena, Node, node_id_none}
use config_manager.Arena.Slots.{IsPartition}
use config_manager.Arena.Actions.{get-ok}
use config_manager.Model.Read.{find_member}
use config_manager.Model.Plan
use config_manager.Model.Plan.{
  WritePlan, plan_at, Next, existing, created, creatable_segment, plan_step, plan_child, plan_write,
  drop, apply_write,
}
use config_manager.Model.Tree.{
  Tree, leaf, branches_at, items_at, Branches, no_branches, branch, Items, no_items, item, root_of,
  branch_ids, item_ids, node_of, value_of, ids, Holds, HoldsBranches, nodes_in,
}
use config_manager.Model.Resolve.{Holds-root, node_alive, root-ne-none}
use config_manager.Model.Build.{IsPartition-perm}
use config_manager.Model.Build.{IsPartition-perm}
use config_manager.Model.Invariant.{nodes-le-length}
use config_manager.Model.Assign.Laws.{node_type, type_eq→eq}
use config_manager.Model.Edit.Descend.{descend, count_inside, Holds-next}
use config_manager.Model.Assign.Contents.{Assigned, assign_contents-Assigned}
use config_manager.Model.Edit.{put_child, chain_value, write_child, write_at}
use config_manager.Model.Edit.Tree.{
  next_branch, next_item, next_tree, siblings, value_next, next_tree-child,
}
use config_manager.Model.Edit.Chain.{join-Assigned, nodes_in-chain}

abbrev next_of : Option Tree → Next
next_of none = created
next_of (some u) = existing (root_of u)

abbrev nexts : Result (Option Tree) → Result Next
nexts r = r >>= λ c. ok (next_of c)

next_member-branch :
    (ns : List Node) (p : ℕ) (k : Bytes) (bs : Branches)
    → length ns ≤ node_id_none
    → HoldsBranches ns p bs
    → Plan.next_member (find_member (branch_ids bs) k) ≡ next_of (next_branch k bs)
unfolding find_member
next_member-branch ns p k no_branches small h = refl
next_member-branch ns p k (branch j t bs) small h = elim (Bool-cases (bytes_eq j k)) [
  | inl same ↦ rw (same, root-ne-none ns p t small h.0) refl
  | inr other ↦ rw other (next_member-branch ns p k bs small h.1)
]

next_element-suc :
    (i id : ℕ) (es : List ℕ) (e : Option ℕ)
    → Plan.next_element (suc i) (id ∷ es) e ≡ Plan.next_element i es e
next_element-suc i id es none = ground arith
next_element-suc i id es (some x) = refl

next_element-item :
    (i : ℕ) (is : Items)
    → Plan.next_element i (item_ids is) (get_elem? (item_ids is) i) ≡ nexts (next_item i is)
next_element-item zero no_items = refl
next_element-item (suc i) no_items = ground arith
next_element-item zero (item t is) = refl
next_element-item (suc i) (item t is) =
    next_element-suc i (root_of t) (item_ids is) (get_elem? (item_ids is) i)
    ∙ next_element-item i is

plan_step-next :
    (ns : List Node) (p : ℕ) (s : PathSegment) (t : Tree)
    → length ns ≤ node_id_none
    → Holds ns p t
    → plan_step s (node_of t p) ≡ nexts (next_tree s t)
unfolding plan_step
plan_step-next ns p (key k) (leaf id g monostate) small h = refl
plan_step-next ns p (key k) (leaf id g (bool _)) small h = refl
plan_step-next ns p (key k) (leaf id g (int64 _)) small h = refl
plan_step-next ns p (key k) (leaf id g (double _)) small h = refl
plan_step-next ns p (key k) (leaf id g (string _)) small h = refl
plan_step-next ns p (key k) (branches_at id g bs) small h =
    ap ok (next_member-branch ns id k bs small h.1)
plan_step-next ns p (key k) (items_at id g is) small h = refl
plan_step-next ns p (index i) (leaf id g monostate) small h = refl
plan_step-next ns p (index i) (leaf id g (bool _)) small h = refl
plan_step-next ns p (index i) (leaf id g (int64 _)) small h = refl
plan_step-next ns p (index i) (leaf id g (double _)) small h = refl
plan_step-next ns p (index i) (leaf id g (string _)) small h = refl
plan_step-next ns p (index i) (branches_at id g bs) small h = refl
plan_step-next ns p (index i) (items_at id g is) small h = next_element-item i is

drop-suc :
    (i : ℕ) (path : List PathSegment) (s : PathSegment) (rest : List PathSegment)
    → drop i path ≡ s ∷ rest
    → drop (suc i) path ≡ rest
drop-suc zero [] s rest e = cc
drop-suc zero (x ∷ xs) s rest e = cc
drop-suc (suc i) [] s rest e = cc
drop-suc (suc i) (x ∷ xs) s rest e = drop-suc i xs s rest e

drop-add :
    (i : ℕ) (path : List PathSegment) (s : PathSegment) (rest : List PathSegment)
    → drop i path ≡ s ∷ rest
    → drop (i + 1) path ≡ rest
drop-add i path s rest e =
    let next : i + 1 ≡ suc i = omega arith in rw next (drop-suc i path s rest e)

nodes_in-chain_value :
    (rest : List PathSegment) (w : ConfigValue)
    → nodes_in (chain_value rest w) ≡ length rest + nodes_in w
nodes_in-chain_value [] w = omega arith
nodes_in-chain_value (s ∷ rest) w =
    omega (arith, nodes_in-chain s rest w, nodes_in-chain_value rest w)

-- A plan and the write that it stands for, against the value or the error of the specification.
module _ (fuel : ℕ) (w : ConfigValue) (path : List PathSegment) where
  abbrev pub Outcome : Result ConfigValue → ℕ → Arena → Tree → List ℕ → Result WritePlan → Type 0
  Outcome (ok v) p a t owned planned =
      (plan : WritePlan) × (planned ≡ ok plan)
      × Assigned v p a t owned (apply_write fuel plan path w a)
  Outcome (err e) p a t owned planned = planned ≡ err e
  Outcome fault p a t owned planned = planned ≡ fault
  Outcome out_of_fuel p a t owned planned = planned ≡ out_of_fuel

  -- The target is there: it is replaced if it has the type.
  replace-Outcome :
      (i p : ℕ) (a : Arena) (t : Tree) (owned frees : List ℕ)
      → length path ≡ i
      → Holds a.nodes p t
      → IsPartition a (ids t ++ owned) frees
      → length a.nodes ≤ fuel
      → length a.nodes + nodes_in w ≤ node_id_none
      → Outcome
          (write_at [] w (value_of t))
          p
          a
          t
          owned
          (Plan.final_plan (type_of w) (root_of t) i (node_of t p))
  unfolding apply_write
  replace-Outcome i p a t owned frees len h part enough room =
      elim (Bool-cases (type_eq (type_of (value_of t)) (type_of w))) [
        | inl same ↦
            rw (same, node_type t p, same)
              (
                plan_at (root_of t) i,
                refl,
                rw ((==_iff i (length path)).1 (sym len)) (
                    assign_contents-Assigned fuel w p a t owned frees h part (type_eq→eq _ _ same)
                      (omega (
                        arith,
                        nodes-le-length a t (ids t ++ owned) frees part
                            (λ j. omega (arith, count-append j (ids t) owned)),
                        enough,
                      ))
                      room),
              )
        | inr other ↦ rw (other, node_type t p, other) refl
      ]

  -- A place for a child: the chain is made if every further segment can be created.
  join-Outcome :
      (i p : ℕ) (a : Arena) (t : Tree) (owned frees : List ℕ) (s : PathSegment)
      (rest : List PathSegment)
      → drop i path ≡ s ∷ rest
      → length path ≡ i + suc (length rest)
      → next_tree s t ≡ ok none
      → Holds a.nodes p t
      → IsPartition a (ids t ++ owned) frees
      → length a.nodes + (length path + nodes_in w) ≤ node_id_none
      → Outcome
          (write_child (write_at rest w) s rest w (value_of t) none)
          p
          a
          t
          owned
          (Plan.check_creatable rest i (root_of t))
  unfolding apply_write Plan.check_creatable
  join-Outcome i p a t owned frees s rest at len place h part room =
      elim (Bool-cases (all creatable_segment rest)) [
        | inl fine ↦
            let early : (i == length path) ≡ false = ground (arith, len) in
            rw fine (
              plan_at (root_of t) i,
              refl,
              rw (early, at)
                  (join-Assigned s rest w p a t owned frees place h part
                    (omega (arith, room, len, nodes_in-chain_value rest w))),
            )
        | inr bad ↦ rw bad refl
      ]

  -- A write below a child is a write of the tree.
  lift-Outcome :
      (r : Result ConfigValue) (s : PathSegment) (t u : Tree) (p : ℕ) (a : Arena) (owned : List ℕ)
      (planned : Result WritePlan)
      → next_tree s t ≡ ok (some u)
      → Holds a.nodes p t
      → Outcome r (root_of t) a u (root_of t ∷ (siblings s t ++ owned)) planned
      → Outcome (r >>= λ x. ok (put_child s x (value_of t))) p a t owned planned
  lift-Outcome (ok v) s t u p a owned planned e h (plan, found, done) =
      (plan, found, descend s t u v p a owned _ e h done)
  lift-Outcome (err c) s t u p a owned planned e h o = o
  lift-Outcome fault s t u p a owned planned e h o = o
  lift-Outcome out_of_fuel s t u p a owned planned e h o = o

  pub plan_child-Outcome :
      (rest : List PathSegment) (i p : ℕ) (a : Arena) (t : Tree) (owned frees : List ℕ)
      → drop i path ≡ rest
      → length path ≡ i + length rest
      → Holds a.nodes p t
      → IsPartition a (ids t ++ owned) frees
      → length a.nodes ≤ fuel
      → length a.nodes + (length path + nodes_in w) ≤ node_id_none
      → Outcome
          (write_at rest w (value_of t))
          p
          a
          t
          owned
          (plan_child (λ c. plan_write a c i rest (type_of w)) a i (type_of w) (root_of t) rest)
  unfolding plan_write
  plan_child-Outcome [] i p a t owned frees at len h part enough room =
      rw (get-ok a (root_of t) (Holds-root a.nodes p t h) (node_alive t p)) (
        replace-Outcome i p a t owned frees (omega (arith, len)) h part enough
          (omega (arith, room)))
  plan_child-Outcome (s ∷ rest) i p a t owned frees at len h part enough room =
      rw
        (
          get-ok a (root_of t) (Holds-root a.nodes p t h) (node_alive t p),
          plan_step-next a.nodes p s t part.small h,
          ← next_tree-child s t,
        )
        (go (next_tree s t) refl λ u e.
          plan_child-Outcome rest (i + 1) (root_of t) a u (root_of t ∷ (siblings s t ++ owned))
            frees (drop-add i path s rest at) (omega (arith, len)) (Holds-next a.nodes p s t h e)
            (IsPartition-perm (λ j. count_inside j u s t owned e) part) enough room)
    where
      go :
          (c : Result (Option Tree))
          → next_tree s t ≡ c
          → ((u : Tree)
              → next_tree s t ≡ ok (some u)
              → Outcome
                  (write_at rest w (value_of u))
                  (root_of t)
                  a
                  u
                  (root_of t ∷ (siblings s t ++ owned))
                  (plan_child
                    (λ child. plan_write a child (i + 1) rest (type_of w))
                    a
                    (i + 1)
                    (type_of w)
                    (root_of u)
                    rest))
          → Outcome
              (value_next c >>= λ x. write_child (write_at rest w) s rest w (value_of t) x)
              p
              a
              t
              owned
              (nexts c >>= λ n.
                Plan.plan_next
                  (λ child. plan_write a child (i + 1) rest (type_of w))
                  a
                  i
                  (root_of t)
                  (type_of w)
                  rest
                  n)
      go (ok none) e ih = join-Outcome i p a t owned frees s rest at len e h part room
      go (ok (some u)) e ih =
          lift-Outcome (write_at rest w (value_of u)) s t u p a owned _ e h (ih u e)
      go (err c) e ih = refl
      go fault e ih = refl
      go out_of_fuel e ih = refl
