-- ===== src/Json/Save/Whole.antt =====
-- JsonInterface::save of a whole configuration.
use config_manager.Common.{
  ℕ, ◌≤◌, ◌≡◌, refl, sym, ap, ◌∙◌, Bytes, bytes_eq, Bool, true, false, Bool-cases, inl, inr, not,
  ◌||◌, if◌then◌else◌, [], ◌∷◌, ◌++◌, length, arith, Result, ok, err, ◌>>=◌, serialization_error,
}
use config_manager.Common.Int.{pos}
use mathlib.Core.Path.{subst}
use config_manager.Path.{key, parse, parse_segments, parse_indices, after_segment}
use config_manager.Path.Span.{span}
use config_manager.Value.{ConfigValue, scalar, object, Members, no_members, member, int64, has_key}
use config_manager.Arena.{node_id_none}
use config_manager.Node
use config_manager.Model
use config_manager.Model.{ConfigModel, enough, contains, has_value}
use config_manager.Model.Tree.{
  Tree, root_of, leaf, branches_at, items_at, value_of, members_of, Holds, nodes_in,
  nodes_in_members,
}
use config_manager.Model.Spec.{get_member}
use config_manager.Model.Invariant.{IsModel, nodes-le-length}
use config_manager.Model.Reads.{contains-value_at}
use config_manager.Catalog.{Called, returned, threw_exception, threw_other}
use config_manager.Json.{version_key}
use config_manager.Json.Save.{document_of, save, with_carrier, or_serialization_error}
use config_manager.Json.Save.Laws.{
  all_finite_members, if_finite, handle_to-root, member_handles-branches, find_live-handle_of,
  documents_below, map_finite,
}

abbrev pub written_of : Bytes → Called Bool → Result Bytes
written_of text (returned true) = ok text
written_of text (returned false) = err serialization_error
written_of text threw_exception = err serialization_error
written_of text threw_other = err serialization_error

-- What the stream's write of this text comes to.
abbrev pub written : (Bytes → Called Bool) → Bytes → Result Bytes
written write text = written_of text (write text)

abbrev pub printed_of : (Bytes → Called Bool) → Called Bytes → Result Bytes
printed_of write (returned text) = written write (text ++ b'\n' ∷ [])
printed_of write threw_exception = err serialization_error
printed_of write threw_other = err serialization_error

-- The text of a document with its version, and then the stream.
abbrev pub printed :
    (ConfigValue → Called Bytes) → (Bytes → Called Bool) → ConfigValue → Result Bytes
printed dump write document = printed_of write (dump document)

-- What a save of a model with these members comes to.
abbrev pub saved_of :
    (ConfigValue → Called Bytes) → (Bytes → Called Bool) → ℕ → Members → Result Bytes
saved_of dump write version ms =
    if has_key version_key ms || not (all_finite_members ms)
    then err serialization_error
    else printed dump write (object (member version_key (scalar (int64 (pos version))) ms))

parse-version_key : parse version_key ≡ ok (key version_key ∷ [])
unfolding parse parse_segments span parse_indices after_segment
parse-version_key = refl

has_value-get_member :
    (k : Bytes) (ms : Members) → has_value (get_member k ms >>= λ v. ok v) ≡ ok (has_key k ms)
unfolding has_key
has_value-get_member k no_members = refl
has_value-get_member k (member j v ms) = elim (Bool-cases (bytes_eq j k)) [
  | inl same ↦ rw same refl
  | inr other ↦ rw other (has_value-get_member k ms)
]

abbrev members_or : Members → ConfigValue → Members
members_or ms (object ns) = ns
members_or ms _ = ms

module _ (m : ConfigModel) (ms : Members) where
  contains-version_key :
      IsModel m (object ms) → contains m version_key ≡ ok (has_key version_key ms)
  contains-version_key is =
      contains-value_at m (object ms) is version_key
      ∙ rw parse-version_key (has_value-get_member version_key ms)

  tree_document :
      (version : ℕ) (t : Tree)
      → m.root_id ≡ root_of t
      → Holds m.arena.nodes node_id_none t
      → value_of t ≡ object ms
      → nodes_in (object ms) ≤ length m.arena.nodes
      → document_of (record { version = version; model = m })
        ≡ if_finite (all_finite_members ms) (with_carrier version ms)
  unfolding document_of Model.root Node.members
  tree_document version (leaf id g s) at_root h same few = absurd (ground (arith, same))
  tree_document version (items_at id g is) at_root h same few = absurd (ground (arith, same))
  tree_document version (branches_at id g bs) at_root h same few =
      let is_below : members_of bs ≡ ms = ap (members_or ms) same in
      subst
        (λ ns.
          document_of (record { version = version; model = m })
          ≡ if_finite (all_finite_members ns) (with_carrier version ns))
        is_below
        (rw
          (
            at_root,
            handle_to-root m.arena node_id_none (branches_at id g bs) h,
            find_live-handle_of m.arena node_id_none (branches_at id g bs) h,
            member_handles-branches m.arena id bs h.1,
            documents_below (enough m.arena) m.arena id bs h.1
                (subst (λ ns. nodes_in_members ns ≤ enough m.arena) (sym is_below) (omega arith)),
          )
          (map_finite (all_finite_members (members_of bs)) (members_of bs) (with_carrier version)))

  document_of-IsModel :
      (version : ℕ)
      → IsModel m (object ms)
      → document_of (record { version = version; model = m })
        ≡ if_finite (all_finite_members ms) (with_carrier version ms)
  document_of-IsModel version is =
      tree_document version is.tree is.at_root is.holds is.value (
        rw is.value at (nodes-le-length m.arena is.tree _ is.frees is.partition (λ i. omega arith)))

or_serialization_error-written :
    (text : Bytes) (out : Called Bool)
    → (or_serialization_error out >>= λ good. if good then ok text else err serialization_error)
      ≡ written_of text out
or_serialization_error-written text (returned true) = refl
or_serialization_error-written text (returned false) = refl
or_serialization_error-written text threw_exception = refl
or_serialization_error-written text threw_other = refl

or_serialization_error-printed :
    (write : Bytes → Called Bool) (out : Called Bytes)
    → (or_serialization_error out >>= λ text.
        or_serialization_error (write (text ++ b'\n' ∷ [])) >>= λ good.
        if good then ok (text ++ b'\n' ∷ []) else err serialization_error)
      ≡ printed_of write out
or_serialization_error-printed write (returned text) =
    or_serialization_error-written (text ++ b'\n' ∷ []) (write (text ++ b'\n' ∷ []))
or_serialization_error-printed write threw_exception = refl
or_serialization_error-printed write threw_other = refl

-- `save` of a well-formed model writes the text of the object with the version, as `__version`, before
-- the model's members, and a line feed. It is a SerializationError where the model has a member of
-- that name, a double that is not finite, a text that the library does not dump, or where the stream
-- fails or throws.
pub save-saved_of :
    (dump : ConfigValue → Called Bytes) (write : Bytes → Called Bool) (version : ℕ)
    (m : ConfigModel) (ms : Members)
    → IsModel m (object ms)
    → save dump write (record { version = version; model = m }) ≡ saved_of dump write version ms
unfolding save
save-saved_of dump write version m ms is =
    rw (contains-version_key m ms is) (elim (Bool-cases (has_key version_key ms)) [
      | inl carried ↦ rw carried refl
      | inr free ↦
          rw (free, document_of-IsModel m ms version is)
            (elim (Bool-cases (all_finite_members ms)) [
              | inl finite ↦
                  rw finite (or_serialization_error-printed write (dump (with_carrier version ms)))
              | inr infinite ↦ rw infinite refl
            ])
    ])
