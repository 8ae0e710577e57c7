-- ===== src/Json/Round.antt =====
-- JsonInterface::load of what JsonInterface::save has written.
use config_manager.Common.{
  ℕ, suc, ◌+◌, ◌≤◌, ◌≡◌, refl, sym, ◌∙◌, ltb, Bytes, Bool, true, false, Bool-cases, inl, inr, any,
  not, ◌||◌, List, [], ◌∷◌, ◌++◌, length, some, arith, Result, ok, err, fault, out_of_fuel, ◌>>◌,
  ok_injective,
}
use mathlib.Core.Path.{subst}
use config_manager.Value.{
  ConfigValue, scalar, object, array, Members, no_members, member, Elements, no_elements, element,
  has_key,
}
use config_manager.Arena.{node_id_none}
use config_manager.Model.{ConfigModel}
use config_manager.Model.Read.{
  max_tree_depth, validate_tree, validate_members, validate_elements, is_addressable_key,
}
use config_manager.Model.Tree.{nodes_in}
use config_manager.Model.Spec.{HasUniqueKeys, AreUnique, AllHaveUniqueKeys}
use config_manager.Model.Invariant.{IsModel}
use config_manager.Model.Create.{from_value-IsModel}
use config_manager.Catalog.{Called, returned, threw_exception, threw_other}
use config_manager.Json.{
  Event, max_version, version_key, is_float_byte, is_path_addressable, LoadLimits, load,
}
use config_manager.Json.Stream.{IoState, at_end, raises}
use config_manager.Json.Bounds.{until_empty, read_bounded-until_empty}
use config_manager.Json.Measure.{IsShallow, AreShallowMembers, AreShallowElements}
use config_manager.Json.Events.{FitsScalar, IsLoadable, AreLoadable, AllLoadable, value_events}
use config_manager.Json.Accepts.{run-document}
use config_manager.Json.Save.{save, with_carrier}
use config_manager.Json.Save.Laws.{all_finite_members}
use config_manager.Json.Save.Whole.{saved_of, printed_of, written_of, save-saved_of}

-- The integers are of 64 bits.
abbrev mutual
  pub FitsInts : ConfigValue → Type 0
  FitsInts (scalar s) = FitsScalar s
  FitsInts (object ms) = AllFitInts ms
  FitsInts (array es) = EachFitsInts es

  pub AllFitInts : Members → Type 0
  AllFitInts no_members = Unit {0}
  AllFitInts (member k v ms) = FitsInts v × AllFitInts ms

  pub EachFitsInts : Elements → Type 0
  EachFitsInts no_elements = Unit {0}
  EachFitsInts (element v es) = FitsInts v × EachFitsInts es

then_ok : (r s : Result (Unit {0})) → (r >> s) ≡ ok tt → (r ≡ ok tt) × (s ≡ ok tt)
then_ok (ok x) s h = (refl, h)
then_ok (err e) s h = absurd (ground (arith, h))
then_ok fault s h = absurd (ground (arith, h))
then_ok out_of_fuel s h = absurd (ground (arith, h))

addressable : (k : Bytes) → is_addressable_key k ≡ true → is_path_addressable k ≡ true
unfolding is_addressable_key
addressable [] h = h
addressable (c ∷ k) h = h

-- A value that passes validateTree can be loaded.
mutual
  unfolding validate_tree validate_members validate_elements

  validated :
      (v : ConfigValue) (d : ℕ)
      → validate_tree v d ≡ ok tt
      → HasUniqueKeys v
      → FitsInts v
      → IsLoadable v × IsShallow d v
  validated (scalar s) d h unique fits = elim (Bool-cases (ltb max_tree_depth d)) [
    | inl deep ↦ absurd (ground (arith, h))
    | inr room ↦ (fits, ground arith)
  ]
  validated (object ms) d h unique fits = elim (Bool-cases (ltb max_tree_depth d)) [
    | inl deep ↦ absurd (ground (arith, h))
    | inr room ↦
        let (loadable, shallow) =
          validated_members ms (suc d)
            (subst (λ k. validate_members ms k ≡ ok tt) (omega arith) (rw room at h)) unique fits in
        (loadable, (ground arith, shallow))
  ]
  validated (array es) d h unique fits = elim (Bool-cases (ltb max_tree_depth d)) [
    | inl deep ↦ absurd (ground (arith, h))
    | inr room ↦
        let (loadable, shallow) =
          validated_elements es (suc d)
            (subst (λ k. validate_elements es k ≡ ok tt) (omega arith) (rw room at h)) unique
            fits in
        (loadable, (ground arith, shallow))
  ]

  pub validated_members :
      (ms : Members) (d : ℕ)
      → validate_members ms d ≡ ok tt
      → AreUnique ms
      → AllFitInts ms
      → AreLoadable ms × AreShallowMembers d ms
  validated_members no_members d h unique fits = (tt, tt)
  validated_members (member k v ms) d h (fresh, one, unique) (fit, fits) =
      elim (Bool-cases (is_addressable_key k)) [
        | inl named ↦
            let (hv, hs) = then_ok (validate_tree v d) (validate_members ms d) (rw named at h) in
            let (lv, sv) = validated v d hv one fit in
            let (ls, ss) = validated_members ms d hs unique fits in
            ((addressable k named, fresh, lv, ls), (sv, ss))
        | inr other ↦ absurd (ground (arith, h))
      ]

  validated_elements :
      (es : Elements) (d : ℕ)
      → validate_elements es d ≡ ok tt
      → AllHaveUniqueKeys es
      → EachFitsInts es
      → AllLoadable es × AreShallowElements d es
  validated_elements no_elements d h unique fits = (tt, tt)
  validated_elements (element v es) d h (one, unique) (fit, fits) =
      let (hv, hs) = then_ok (validate_tree v d) (validate_elements es d) h in
      let (lv, sv) = validated v d hv one fit in
      let (ls, ss) = validated_elements es d hs unique fits in ((lv, ls), (sv, ss))

valid_members :
    (ms : Members)
    → validate_tree (object ms) 0 ≡ ok tt
    → AreUnique ms
    → AllFitInts ms
    → AreLoadable ms × AreShallowMembers 1 ms
valid_members ms h unique fits =
    let (loadable, shallow) = validated (object ms) 0 h unique fits in (loadable, shallow.1)

-- What a save that succeeds tells of its bytes.
record Saved (dump : ConfigValue → Called Bytes) (version : ℕ) (ms : Members) (text : Bytes)
    : Type 0 where
  free : has_key version_key ms ≡ false
  body : Bytes
  dumped : dump (with_carrier version ms) ≡ returned body
  whole : body ++ b'\n' ∷ [] ≡ text

written-ok : (text t : Bytes) (out : Called Bool) → written_of text out ≡ ok t → text ≡ t
written-ok text t (returned true) h = ok_injective h
written-ok text t (returned false) h = absurd (ground (arith, h))
written-ok text t threw_exception h = absurd (ground (arith, h))
written-ok text t threw_other h = absurd (ground (arith, h))

printed-Saved :
    (dump : ConfigValue → Called Bytes) (write : Bytes → Called Bool) (version : ℕ) (ms : Members)
    (text : Bytes) (out : Called Bytes)
    → has_key version_key ms ≡ false
    → dump (with_carrier version ms) ≡ out
    → printed_of write out ≡ ok text
    → Saved dump version ms text
printed-Saved dump write version ms text (returned body) free e h = record {
  free = free;
  body = body;
  dumped = e;
  whole = written-ok _ text (write (body ++ b'\n' ∷ [])) h;
}
printed-Saved dump write version ms text threw_exception free e h = absurd (ground (arith, h))
printed-Saved dump write version ms text threw_other free e h = absurd (ground (arith, h))

saved_of-Saved :
    (dump : ConfigValue → Called Bytes) (write : Bytes → Called Bool) (version : ℕ) (ms : Members)
    (text : Bytes)
    → saved_of dump write version ms ≡ ok text
    → Saved dump version ms text
saved_of-Saved dump write version ms text h =
    elim (Bool-cases (has_key version_key ms || not (all_finite_members ms))) [
      | inl refused ↦ absurd (ground (arith, rw refused at h))
      | inr taken ↦
          printed-Saved dump write version ms text (dump (with_carrier version ms))
            (ground (arith, taken)) refl (rw taken at h)
    ]

-- A well-formed model of the object `ms`, whose names and depth `validateTree` accepts, is saved with a
-- 32-bit version. Where the parser reports of the text that the library dumps the events of the
-- document, and the literal of each double has a point or an exponent, a load of the saved bytes within
-- the limits returns the version and a well-formed model of the same object, and leaves the stream at
-- its end.
pub load-save :
    (events : Bytes → List Event) (literal : ℕ → Bytes) (dump : ConfigValue → Called Bytes)
    (write : Bytes → Called Bool) (limits : LoadLimits) (version : ℕ) (m : ConfigModel)
    (ms : Members) (text : Bytes) (chunks : List (Called Bytes)) (state mask : IoState)
    → ((d : ℕ) → any is_float_byte (literal d) ≡ true)
    → ((body : Bytes)
        → dump (with_carrier version ms) ≡ returned body
        → events (body ++ b'\n' ∷ []) ≡ value_events literal (with_carrier version ms) [])
    → IsModel m (object ms)
    → validate_tree (object ms) 0 ≡ ok tt
    → AllFitInts ms
    → version ≤ max_version
    → 1 + nodes_in (object ms) ≤ node_id_none
    → nodes_in (object ms) ≤ limits.max_nodes
    → save dump write (record { version = version; model = m }) ≡ ok text
    → until_empty chunks ≡ some text
    → length text ≤ limits.max_input_bytes
    → raises mask (at_end state) ≡ false
    → (back : ConfigModel) × (load events limits
          (record { rdbuf = some chunks; rdstate = state; exceptions = mask })
        ≡ (ok (record { version = version; model = back }), at_end state))
      × IsModel back (object ms)
unfolding load
load-save events literal dump write limits version m ms text chunks state mask real parses is valid
      ints narrow ids nodes saved content short calm =
    let s =
      saved_of-Saved dump write version ms text
        (sym (save-saved_of dump write version m ms is) ∙ saved) in
    let (loadable, shallow) = valid_members ms valid is.unique ints in
    let (back, made, well) = from_value-IsModel ms valid is.unique ids in
    let small : ltb limits.max_input_bytes (length text) ≡ false = ground arith in
    let reported : events text ≡ value_events literal (with_carrier version ms) [] =
      subst (λ t. events t ≡ value_events literal (with_carrier version ms) []) s.whole
        (parses s.body s.dumped) in
    (
      back,
      rw
          (
            read_bounded-until_empty limits.max_input_bytes chunks state mask,
            content,
            small,
            calm,
            reported,
            run-document literal limits.max_nodes version real ms narrow s.free loadable shallow
                (omega (arith, nodes)),
            made,
          )
          refl,
      well,
    )
