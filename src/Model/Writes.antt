-- ===== src/Model/Writes.antt =====
-- `set` and `remove` on a well-formed model: the value that it holds afterwards, or the error, with
-- the model as it was.
use config_manager.Common.{
  ℕ, ◌+◌, ◌≤◌, ◌≡◌, ◌≢◌, refl, sym, ◌∙◌, Bytes, List, [], ◌∷◌, ◌++◌, append-nil, length, arith,
  Result, ok, err, fault, out_of_fuel, ◌>>=◌, ◌>>◌,
}
use mathlib.Core.Path.{subst}
use config_manager.Path.{PathSegment, key, parse}
use config_manager.Path.Grammar.{PathText, last, more}
use config_manager.Path.Laws.{parse_iff}
use config_manager.Value.{ConfigValue, scalar, object, array, type_of}
use config_manager.Arena.{Arena, node_id_none}
use config_manager.Arena.Slots.{IsPartition}
use config_manager.Model.{ConfigModel, enough, set, remove, remove_at, last_or, commit}
use config_manager.Model.Read.{max_tree_depth, validate_tree, resolve}
use config_manager.Model.Plan.{plan_write, apply_write, WritePlan}
use config_manager.Model.Tree.{root_of, value_of, ids, nodes_in}
use config_manager.Model.Spec.{HasUniqueKeys}
use config_manager.Model.Invariant.{IsModel}
use config_manager.Model.Assign.Contents.{Assigned}
use config_manager.Model.Edit.{write_at, erase_at_path}
use config_manager.Model.Edit.Write.{Outcome, plan_child-Outcome}
use config_manager.Model.Edit.Removal.{Removal, resolve-Removal}
use config_manager.Model.Edit.Unique.{write_at_unique, erase_at_path_unique}

-- What a write does to the model, against the value or the error that it should give.
abbrev pub Commits : ConfigModel → Result ConfigValue → Result (Unit {0}) × ConfigModel → Type 0
Commits m (ok v) out = (m' : ConfigModel) × (out ≡ (ok tt, m')) × IsModel m' v
Commits m (err e) out = out ≡ (err e, m)
Commits m fault out = out ≡ (fault, m)
Commits m out_of_fuel out = out ≡ (out_of_fuel, m)

-- The specification of `set`.
abbrev pub set_value : ConfigValue → Bytes → ConfigValue → Result ConfigValue
set_value v path w = do
  segments ← parse path
  validate_tree w (length segments)
  write_at segments w v

-- The specification of `remove`.
abbrev pub remove_value : ConfigValue → Bytes → Result ConfigValue
remove_value v path = do segments ← parse path; erase_at_path segments v

PathText-nonempty : {t : Bytes} {segments : List PathSegment} → PathText t segments → segments ≢ []
PathText-nonempty (last k it is all ne ix e f) h = cc
PathText-nonempty (more k it r is rest all ne ix p e f) h = cc

validate_tree-depth : (w : ConfigValue) (d : ℕ) → validate_tree w d ≡ ok tt → d ≤ max_tree_depth
unfolding validate_tree
validate_tree-depth (scalar s) d h = ground arith
validate_tree-depth (object ms) d h = ground arith
validate_tree-depth (array es) d h = ground arith

module _ (m : ConfigModel) (v : ConfigValue) (is : IsModel m v) where
  IsPartition-nil : IsPartition m.arena (ids is.tree ++ []) is.frees
  IsPartition-nil = rw (append-nil (ids is.tree)) is.partition

  assigned-IsModel :
      (v' : ConfigValue) (out : Result (Unit {0} × Arena))
      → Assigned v' node_id_none m.arena is.tree [] out
      → HasUniqueKeys v'
      → Commits m (ok v') (commit m out)
  assigned-IsModel v' out r unique = (
    record m { arena = r.arena },
    rw r.returns refl,
    record {
      tree = r.tree;
      frees = r.frees;
      at_root = is.at_root ∙ sym r.same_root;
      value = r.value;
      holds = r.holds;
      partition = rw (append-nil (ids r.tree)) at r.partition;
      unique = unique;
    },
  )

  Outcome-Commits :
      (r : Result ConfigValue) (w : ConfigValue) (segments : List PathSegment)
      (planned : Result WritePlan)
      → ((v' : ConfigValue) → r ≡ ok v' → HasUniqueKeys v')
      → Outcome (enough m.arena) w segments r node_id_none m.arena is.tree [] planned
      → Commits m r
          (commit m (planned >>= λ plan. apply_write (enough m.arena) plan segments w m.arena))
  Outcome-Commits (ok v') w segments planned unique (plan, found, done) =
      rw found (assigned-IsModel v' _ done (unique v' refl))
  Outcome-Commits (err e) w segments planned unique o = rw o refl
  Outcome-Commits fault w segments planned unique o = rw o refl
  Outcome-Commits out_of_fuel w segments planned unique o = rw o refl

  -- `set` on a well-formed model that holds `v`, with a new value of unique keys and room for its
  -- nodes and for 128 more: where the specification gives a value, `set` succeeds and leaves a
  -- well-formed model of exactly that value; where it gives an error, for the path, the depth or the
  -- keys of the new value, or the place that the path leads to, `set` returns this error and leaves
  -- the model untouched.
  pub set-set_value :
      (path : Bytes) (w : ConfigValue)
      → HasUniqueKeys w
      → length m.arena.nodes + (max_tree_depth + nodes_in w) ≤ node_id_none
      → Commits m (set_value v path w) (set m path w)
  unfolding set
  set-set_value path w unique room = parsed (parse path) refl
    where
      validated :
          (segments : List PathSegment)
          → segments ≢ []
          → (x : Result (Unit {0})) → validate_tree w (length segments) ≡ x
          → Commits m (x >> write_at segments w v) (
              commit m (
                x
                >> (plan_write m.arena m.root_id 0 segments (type_of w) >>= λ plan.
                    apply_write (enough m.arena) plan segments w m.arena)))
      validated [] ne x e = absurd (ne refl)
      validated (s ∷ rest) ne (ok _) e =
          Outcome-Commits (write_at (s ∷ rest) w v) w (s ∷ rest) _
            (λ v' done. write_at_unique (s ∷ rest) w v unique is.unique done)
            (subst
              (λ x.
                Outcome (enough m.arena) w (s ∷ rest) (write_at (s ∷ rest) w x) node_id_none m.arena
                  is.tree [] (plan_write m.arena m.root_id 0 (s ∷ rest) (type_of w)))
              is.value
              (subst
                (λ x.
                  Outcome (enough m.arena) w (s ∷ rest) (write_at (s ∷ rest) w (value_of is.tree))
                    node_id_none m.arena is.tree [] (plan_write m.arena x 0 (s ∷ rest) (type_of w)))
                (sym is.at_root)
                (plan_child-Outcome (enough m.arena) w (s ∷ rest) (s ∷ rest) 0 node_id_none m.arena
                  is.tree [] is.frees refl (omega arith) is.holds IsPartition-nil (omega arith)
                  (omega (arith, room, validate_tree-depth w (length (s ∷ rest)) e)))))
      validated (s ∷ rest) ne (err c) e = refl
      validated (s ∷ rest) ne fault e = refl
      validated (s ∷ rest) ne out_of_fuel e = refl

      parsed :
          (r : Result (List PathSegment))
          → parse path ≡ r
          → Commits m
              (r >>= λ segments. validate_tree w (length segments) >> write_at segments w v)
              (commit m (
                r >>= λ segments.
                validate_tree w (length segments)
                >> (plan_write m.arena m.root_id 0 segments (type_of w) >>= λ plan.
                    apply_write (enough m.arena) plan segments w m.arena)))
      parsed (ok segments) e =
          validated segments (PathText-nonempty ((parse_iff path segments).0 e))
            (validate_tree w (length segments)) refl
      parsed (err c) e = refl
      parsed fault e = refl
      parsed out_of_fuel e = refl

  Removal-Commits :
      (r : Result ConfigValue) (d : PathSegment) (segments : List PathSegment)
      → ((v' : ConfigValue) → r ≡ ok v' → HasUniqueKeys v')
      → Removal (enough m.arena) d segments r node_id_none m.arena is.tree []
      → Commits m r (
          commit m (
            resolve m.arena (root_of is.tree) segments >>= λ target.
            remove_at (enough m.arena) target (last_or d segments) m.arena))
  Removal-Commits (ok v') d segments unique (target, found, done) =
      rw found (assigned-IsModel v' _ done (unique v' refl))
  Removal-Commits (err e) d segments unique o = rw o refl
  Removal-Commits fault d segments unique o = rw o refl
  Removal-Commits out_of_fuel d segments unique o = rw o refl

  -- `remove` on a well-formed model that holds `v`: where the path leads to a part of `v`, `remove`
  -- succeeds and leaves a well-formed model of `v` without that part; where the path fails to parse or
  -- to resolve, `remove` returns this error and leaves the model untouched.
  pub remove-remove_value : (path : Bytes) → Commits m (remove_value v path) (remove m path)
  unfolding remove
  remove-remove_value path = parsed (parse path) refl
    where
      resolved :
          (segments : List PathSegment)
          → segments ≢ []
          → Commits m (erase_at_path segments v) (
              commit m (
                resolve m.arena m.root_id segments >>= λ target.
                remove_at (enough m.arena) target (last_or (key []) segments) m.arena))
      resolved [] ne = absurd (ne refl)
      resolved (s ∷ rest) ne =
          subst
            (λ x. Commits m (erase_at_path (s ∷ rest) v) (
              commit m (
                resolve m.arena x (s ∷ rest) >>= λ target.
                remove_at (enough m.arena) target (last_or (key []) (s ∷ rest)) m.arena)))
            (sym is.at_root)
            (Removal-Commits (erase_at_path (s ∷ rest) v) (key []) (s ∷ rest)
              (λ v' done. erase_at_path_unique (s ∷ rest) v is.unique done)
              (subst
                (λ x.
                  Removal (enough m.arena) (key []) (s ∷ rest) (erase_at_path (s ∷ rest) x)
                    node_id_none m.arena is.tree [])
                is.value
                (resolve-Removal (enough m.arena) s (key []) rest node_id_none m.arena is.tree []
                  is.frees is.holds IsPartition-nil (omega arith))))

      parsed :
          (r : Result (List PathSegment))
          → parse path ≡ r
          → Commits m (r >>= λ segments. erase_at_path segments v) (
              commit m (
                r >>= λ segments. resolve m.arena m.root_id segments >>= λ target.
                remove_at (enough m.arena) target (last_or (key []) segments) m.arena))
      parsed (ok segments) e = resolved segments (PathText-nonempty ((parse_iff path segments).0 e))
      parsed (err c) e = refl
      parsed fault e = refl
      parsed out_of_fuel e = refl
