-- ===== src/Model/Edit/Removal.antt =====
-- `remove` on the tree: the child is unlinked from its parent, and its subtree is freed.

use config_manager.Common.{
  ℕ, ◌≤◌, ◌≡◌, ◌≢◌, refl, ◌∙◌, some, List, [], ◌∷◌, ◌++◌, get_elem?, length, count, count-append,
  arith, Result, ok, err, fault, out_of_fuel, ◌>>=◌,
}
use config_manager.Path.{PathSegment}
use config_manager.Value.{ConfigValue}
use config_manager.Arena.{Arena, Node, write_node}
use config_manager.Arena.Slots.{IsPartition, IsPartition-write}
use config_manager.Arena.Actions.{get-ok, load-ok, modify-ok}
use config_manager.Model.{unlink, remove_at, last_or}
use config_manager.Model.Read.{resolve}
use config_manager.Model.Tree.{Tree, root_of, node_of, value_of, ids, Holds, frame}
use config_manager.Model.Resolve.{
  Holds-root, node_alive, step_tree, roots, values, values-step, step_child-tree, Holds-step,
}
use config_manager.Model.Invariant.{nodes-le-length}
use config_manager.Model.Build.{IsPartition-perm}
use config_manager.Model.Build.Slot.{write_self, write_other}
use config_manager.Model.Release.{free_subtree-Freed}
use config_manager.Model.Assign.Contents.{Assigned}
use config_manager.Model.Edit.{put_child, erase_child, erase_at_path}
use config_manager.Model.Edit.Tree.{next_tree, siblings}
use config_manager.Model.Edit.Descend.{descend, count_inside}
use config_manager.Arena.{node_id_none}
use config_manager.Model.Edit.Erase.{
  erase_tree, next_tree-found, value_of-erase, ids-erase, root_of-erase, generation_of-erase,
  unlink-erase, Holds-erase, ne_parent, node_parent,
}

-- A removal against the value or the error of the specification.
module _ (fuel : ℕ) where
  abbrev pub Removal :
      PathSegment → List PathSegment → Result ConfigValue → ℕ → Arena → Tree → List ℕ → Type 0
  Removal d segments (ok v) p a t owned =
      (target : ℕ) × (resolve a (root_of t) segments ≡ ok target)
      × Assigned v p a t owned (remove_at fuel target (last_or d segments) a)
  Removal d segments (err e) p a t owned = resolve a (root_of t) segments ≡ err e
  Removal d segments fault p a t owned = resolve a (root_of t) segments ≡ fault
  Removal d segments out_of_fuel p a t owned = resolve a (root_of t) segments ≡ out_of_fuel

  -- The last segment leads to a child of `t`.
  remove_at-Assigned :
      (s : PathSegment) (p : ℕ) (a : Arena) (t u : Tree) (owned frees : List ℕ)
      → step_tree s t ≡ ok u
      → Holds a.nodes p t
      → IsPartition a (ids t ++ owned) frees
      → length a.nodes ≤ fuel
      → Assigned (erase_child s (value_of t)) p a t owned (remove_at fuel (root_of u) s a)
  unfolding remove_at
  remove_at-Assigned s p a t u owned frees e h part enough =
      let inside =
        IsPartition-perm (λ i. count_inside i u s t owned (next_tree-found s t e)) part in
      let child = Holds-step a.nodes p s t h e in
      let n : Node = node_of (erase_tree s t) p in
      let b : Arena = write_node (root_of t) n a in
      let once : (i : ℕ) → count i (ids t) ≤ 1 =
        λ i. ground (arith, part.once i, count-append i (ids t) owned) in
      let away : (i : ℕ) → i ≢ root_of t → get_elem? b.nodes i ≡ get_elem? a.nodes i =
        λ i k. write_other a (root_of t) n i k in
      let partb =
        IsPartition-write (root_of t) n inside (
          ground (arith, count-append (root_of t) (ids u) (root_of t ∷ (siblings s t ++ owned)))) in
      let r =
        free_subtree-Freed fuel b (root_of t) u (root_of t ∷ (siblings s t ++ owned)) frees
          (frame a.nodes b.nodes (root_of t) u
            (λ i k.
              away i
                (ne_parent i (root_of t) (ids u) (siblings s t ++ owned) inside (omega (arith, k))))
            child)
          partb
          (omega (
            arith,
            enough,
            nodes-le-length a u (ids u ++ (root_of t ∷ (siblings s t ++ owned))) frees inside
                (λ i. omega (arith, count-append i (ids u) (root_of t ∷ (siblings s t ++ owned)))),
          )) in
      record {
        tree = erase_tree s t;
        arena = r.arena;
        frees = r.frees;
        returns =
            rw
              (
                load-ok a (root_of u) (Holds-root a.nodes (root_of t) u child)
                    (node_alive u (root_of t)),
                node_parent u (root_of t),
                modify-ok a (root_of t) (Holds-root a.nodes p t h) (node_alive t p)
                    (unlink s (root_of u)),
                unlink-erase s t p once e,
              )
              r.returns;
        value = value_of-erase s t;
        same_root = root_of-erase s t;
        same_generation = generation_of-erase s t;
        holds =
            Holds-erase a.nodes r.arena.nodes p s t e h
              (r.others (root_of t) (ground arith)
                ∙ write_self a (root_of t) _ n (Holds-root a.nodes p t h))
              (λ i k.
                r.others i (ground (arith, count-append i (siblings s t) owned))
                ∙ away i (
                    ne_parent i (root_of t) (ids u) (siblings s t ++ owned) inside
                      (ground (arith, count-append i (siblings s t) owned))));
        partition = rw (ids-erase s t e) r.partition;
        others = λ i k.
            r.others i (ground (arith, count-append i (siblings s t) owned))
            ∙ away i (
                ne_parent i (root_of t) (ids u) (siblings s t ++ owned) inside
                  (ground (arith, count-append i (siblings s t) owned)));
      }

  below-Removal :
      (r : Result ConfigValue) (s : PathSegment) (d : PathSegment) (rest : List PathSegment)
      (t u : Tree) (p : ℕ) (a : Arena) (owned : List ℕ)
      → resolve a (root_of t) (s ∷ rest) ≡ resolve a (root_of u) rest
      → next_tree s t ≡ ok (some u)
      → Holds a.nodes p t
      → Removal s rest r (root_of t) a u (root_of t ∷ (siblings s t ++ owned))
      → Removal d (s ∷ rest) (r >>= λ x. ok (put_child s x (value_of t))) p a t owned
  below-Removal (ok v) s d rest t u p a owned same e h (target, found, done) =
      (target, same ∙ found, descend s t u v p a owned _ e h done)
  below-Removal (err c) s d rest t u p a owned same e h o = same ∙ o
  below-Removal fault s d rest t u p a owned same e h o = same ∙ o
  below-Removal out_of_fuel s d rest t u p a owned same e h o = same ∙ o

  resolve-step :
      (s : PathSegment) (rest : List PathSegment) (p : ℕ) (a : Arena) (t : Tree)
      → length a.nodes ≤ node_id_none
      → Holds a.nodes p t
      → resolve a (root_of t) (s ∷ rest) ≡ (roots (step_tree s t) >>= λ c. resolve a c rest)
  unfolding resolve
  resolve-step s rest p a t small h =
      rw
        (
          get-ok a (root_of t) (Holds-root a.nodes p t h) (node_alive t p),
          step_child-tree a.nodes p s t small h,
        )
        refl

  pub resolve-Removal :
      (s d : PathSegment) (rest : List PathSegment) (p : ℕ) (a : Arena) (t : Tree)
      (owned frees : List ℕ)
      → Holds a.nodes p t
      → IsPartition a (ids t ++ owned) frees
      → length a.nodes ≤ fuel
      → Removal d (s ∷ rest) (erase_at_path (s ∷ rest) (value_of t)) p a t owned
  unfolding resolve
  resolve-Removal s d [] p a t owned frees h part enough =
      rw (← values-step s t) (go (step_tree s t) refl)
    where
      go :
          (c : Result Tree)
          → step_tree s t ≡ c
          → Removal d (s ∷ []) (values c >>= λ _. ok (erase_child s (value_of t))) p a t owned
      go (ok u) e = (
        root_of u,
        resolve-step s [] p a t part.small h ∙ rw e refl,
        remove_at-Assigned s p a t u owned frees e h part enough,
      )
      go (err c) e = resolve-step s [] p a t part.small h ∙ rw e refl
      go fault e = resolve-step s [] p a t part.small h ∙ rw e refl
      go out_of_fuel e = resolve-step s [] p a t part.small h ∙ rw e refl
  resolve-Removal s d (s' ∷ rest) p a t owned frees h part enough = rw (← values-step s t) (
      go (step_tree s t) refl λ u e.
        resolve-Removal s' s rest (root_of t) a u (root_of t ∷ (siblings s t ++ owned)) frees
          (Holds-step a.nodes p s t h e)
          (IsPartition-perm (λ i. count_inside i u s t owned (next_tree-found s t e)) part) enough)
    where
      go :
          (c : Result Tree)
          → step_tree s t ≡ c
          → ((u : Tree)
              → step_tree s t ≡ ok u
              → Removal s
                  (s' ∷ rest)
                  (erase_at_path (s' ∷ rest) (value_of u))
                  (root_of t)
                  a
                  u
                  (root_of t ∷ (siblings s t ++ owned)))
          → Removal d
              (s ∷ s' ∷ rest)
              (values c >>= λ w.
                erase_at_path (s' ∷ rest) w >>= λ x. ok (put_child s x (value_of t)))
              p
              a
              t
              owned
      go (ok u) e ih =
          below-Removal (erase_at_path (s' ∷ rest) (value_of u)) s d (s' ∷ rest) t u p a owned
            (resolve-step s (s' ∷ rest) p a t part.small h ∙ rw e refl) (next_tree-found s t e) h
            (ih u e)
      go (err c) e ih = resolve-step s (s' ∷ rest) p a t part.small h ∙ rw e refl
      go fault e ih = resolve-step s (s' ∷ rest) p a t part.small h ∙ rw e refl
      go out_of_fuel e ih = resolve-step s (s' ∷ rest) p a t part.small h ∙ rw e refl
