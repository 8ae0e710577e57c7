-- ===== src/Model/Reads.antt =====
-- The reading operations of a well-formed model answer for the value that it holds.
use config_manager.Common.{
  ℕ, ◌≤◌, ◌≡◌, refl, sym, ap, ◌∙◌, Bytes, List, arith, Result, ok, err, fault, out_of_fuel, ◌>>=◌,
  bind_cong, length,
}
use config_manager.Path.{PathSegment, parse}
use config_manager.Value.{ConfigValue}
use config_manager.Arena.{node_id_none}
use config_manager.Model.{ConfigModel, enough, get_value, contains, has_value}
use config_manager.Model.Read.{resolve, build_value}
use config_manager.Model.Tree.{Tree, root_of, value_of, nodes_in}
use config_manager.Model.Spec.{value_at}
use config_manager.Model.Resolve.{
  roots, values, lookup, resolve-lookup, values-lookup, Holds-lookup,
}
use config_manager.Model.Extract.{build_value-tree}
use config_manager.Model.Invariant.{IsModel, nodes-le-length}
use config_manager.Model.Subvalue.{value_at-IsPart}

roots-values :
    (r : Result Tree) (f : ℕ → Result ConfigValue)
    → ((u : Tree) → r ≡ ok u → f (root_of u) ≡ ok (value_of u))
    → (roots r >>= f) ≡ values r
roots-values (ok u) f h = h u refl
roots-values (err e) f h = refl
roots-values fault f h = refl
roots-values out_of_fuel f h = refl

has_value-roots : (r : Result Tree) → has_value (roots r) ≡ has_value (values r)
has_value-roots (ok u) = refl
has_value-roots (err e) = refl
has_value-roots fault = refl
has_value-roots out_of_fuel = refl

has_value-bind :
    (m : Result (List PathSegment)) (f : List PathSegment → Result ℕ)
    (g : List PathSegment → Result ConfigValue)
    → ((s : List PathSegment) → has_value (f s) ≡ has_value (g s))
    → has_value (m >>= f) ≡ has_value (m >>= g)
has_value-bind (ok s) f g h = h s
has_value-bind (err e) f g h = refl
has_value-bind fault f g h = refl
has_value-bind out_of_fuel f g h = refl

module _ (m : ConfigModel) (v : ConfigValue) (is : IsModel m v) where
  value_at-tree :
      (segments : List PathSegment) → values (lookup is.tree segments) ≡ value_at v segments
  value_at-tree segments = values-lookup is.tree segments ∙ ap (λ w. value_at w segments) is.value

  resolve-tree :
      (segments : List PathSegment)
      → resolve m.arena m.root_id segments ≡ roots (lookup is.tree segments)
  resolve-tree segments =
      rw is.at_root
        (resolve-lookup m.arena node_id_none is.tree segments is.partition.small is.holds)

  extract-tree :
      (segments : List PathSegment) (u : Tree)
      → lookup is.tree segments ≡ ok u
      → build_value (enough m.arena) m.arena (root_of u) ≡ ok (value_of u)
  extract-tree segments u found =
      let (p, held) = Holds-lookup m.arena.nodes node_id_none is.tree segments is.holds found in
      let part =
        value_at-IsPart v segments {w = value_of u} is.unique
          (sym (value_at-tree segments) ∙ ap values found) in
      let few : nodes_in v ≤ length m.arena.nodes =
        rw is.value at
          (nodes-le-length m.arena is.tree _ is.frees is.partition (λ i. omega arith)) in
      build_value-tree (enough m.arena) m.arena p u held part.0 (omega arith)

  -- `getValue` on a well-formed model that holds the value `v` returns the part of `v` that the
  -- parsed path leads to, or the error with which the path fails to parse or stops in `v`.
  pub get_value-value_at : (path : Bytes) → get_value m path ≡ (parse path >>= value_at v)
  unfolding get_value
  get_value-value_at path = bind_cong (parse path) _ (value_at v) λ segments _.
      rw (resolve-tree segments) (
        roots-values (lookup is.tree segments) (build_value (enough m.arena) m.arena)
          (extract-tree segments)
        ∙ value_at-tree segments)

  -- `contains` on a well-formed model that holds `v` is true exactly where the path parses and leads
  -- to a part of `v`, and false where either fails.
  pub contains-value_at : (path : Bytes) → contains m path ≡ has_value (parse path >>= value_at v)
  unfolding contains
  contains-value_at path = has_value-bind (parse path) _ (value_at v) λ segments.
      rw (resolve-tree segments, has_value-roots (lookup is.tree segments), value_at-tree segments)
        refl
