-- ===== src/Json/Accepts.antt =====
-- What ValueBuilder makes of the events of a document: its value.
use config_manager.Common.{
  ℕ, suc, ◌+◌, ◌≤◌, ◌≡◌, refl, sym, ap, ◌∙◌, ltb, ◌==◌, Bytes, bytes_eq, true, false, any, ◌&&◌,
  List, [], ◌∷◌, length, none, some, arith, ok,
}
use config_manager.Common.Int.{pos, negsuc}
use config_manager.Path.{is_empty}
use config_manager.Value.{
  ConfigValue, scalar, object, array, Members, no_members, member, Elements, no_elements, element,
  Scalar, monostate, bool, int64, double, string, put_member, append_element, has_key, set_key,
  push, contains_key,
}
use config_manager.Model.Read.{max_tree_depth}
use config_manager.Model.Tree.{nodes_in, nodes_in_members, nodes_in_elements}
use config_manager.Json.{
  Event, start_object, key_event, end_object, start_array, end_array, Frame, ValueBuilder,
  max_version, max_int, is_path_addressable, is_float_byte, consume_node, fill_frame, fill_top,
  attach, pop_frame, on_scalar, on_unsigned, on_float, open_frame, on_array, on_key, new_builder,
  handle, run, version_key,
}
use config_manager.Json.Save.{with_carrier}
use config_manager.Json.Measure.{IsShallow, AreShallowMembers, AreShallowElements}
use config_manager.Json.Events.{
  IsLoadable, AreLoadable, AllLoadable, FitsScalar, members_then, elements_then, Fresh,
  members_then-put, elements_then-append, members_then-nil, elements_then-nil, Fresh-put,
  Fresh-empty, free_of, scalar_event, value_events, member_events, element_events,
}

-- A builder after the version, with these containers open.
abbrev open_at : ℕ → ℕ → List Frame → ValueBuilder
open_at version n stack = record {
  nodes = n;
  stack = stack;
  root = none;
  version = some version;
  saw_version_key = true;
  next_is_carrier = false;
}

abbrev frame : ConfigValue → Frame
frame c = record { container = c; pending_key = [] }

module _ (literal : ℕ → Bytes) where
  module _ (max version : ℕ) (real : (d : ℕ) → any is_float_byte (literal d) ≡ true) where
    attach-open :
        (v : ConfigValue) (n : ℕ) (f g : Frame) (fs : List Frame)
        → suc (length fs) ≤ max_tree_depth
        → suc n ≤ max
        → fill_frame v f ≡ ok g
        → attach max v (open_at version n (f ∷ fs)) ≡ ok (open_at version (suc n) (g ∷ fs))
    unfolding attach consume_node fill_top
    attach-open v n f g fs depth room fill =
        let shallow : ltb max_tree_depth (suc (length fs)) ≡ false = ground arith in
        let free : (n == max) ≡ false = ground arith in rw (shallow, free, fill) refl

    handle-scalar :
        (s : Scalar) (n : ℕ) (f g : Frame) (fs : List Frame)
        → FitsScalar s
        → suc (length fs) ≤ max_tree_depth
        → suc n ≤ max
        → fill_frame (scalar s) f ≡ ok g
        → handle max (scalar_event literal s) (open_at version n (f ∷ fs))
          ≡ ok (open_at version (suc n) (g ∷ fs))
    unfolding handle on_scalar on_unsigned on_float
    handle-scalar monostate n f g fs fits depth room fill = attach-open _ n f g fs depth room fill
    handle-scalar (bool b) n f g fs fits depth room fill = attach-open _ n f g fs depth room fill
    handle-scalar (int64 (pos z)) n f g fs fits depth room fill =
        let small : ltb max_int z ≡ false = ground arith in
        rw small (attach-open _ n f g fs depth room fill)
    handle-scalar (int64 (negsuc z)) n f g fs fits depth room fill =
        attach-open _ n f g fs depth room fill
    handle-scalar (double d) n f g fs fits depth room fill =
        rw (real d) (attach-open _ n f g fs depth room fill)
    handle-scalar (string s) n f g fs fits depth room fill = attach-open _ n f g fs depth room fill

    -- An accepted event is taken.
    run-handled :
        (e : Event) (rest : List Event) (b c : ValueBuilder)
        → handle max e b ≡ ok c
        → run max (e ∷ rest) b ≡ run max rest c
    unfolding run
    run-handled e rest b c h = rw h refl

    handle-key :
        (k : Bytes) (acc : Members) (n : ℕ) (fs : List Frame)
        → is_path_addressable k ≡ true
        → (is_empty fs && bytes_eq k version_key) ≡ false
        → has_key k acc ≡ false
        → handle max (key_event k) (open_at version n (frame (object acc) ∷ fs))
          ≡ ok (open_at version n (record { container = object acc; pending_key = k } ∷ fs))
    unfolding handle on_key contains_key
    handle-key k acc n fs named other fresh = rw (named, other, fresh) refl

    handle-start :
        (v : ConfigValue) (e : Event) (n : ℕ) (f : Frame) (fs : List Frame)
        → handle max e (open_at version n (f ∷ fs)) ≡ open_frame v (open_at version n (f ∷ fs))
        → suc (length fs) ≤ max_tree_depth
        → handle max e (open_at version n (f ∷ fs)) ≡ ok (open_at version n (frame v ∷ f ∷ fs))
    unfolding open_frame
    handle-start v e n f fs same depth =
        let shallow : ltb max_tree_depth (suc (length fs)) ≡ false = ground arith in
        same ∙ rw shallow refl

    handle-end :
        (e : Event) (v : ConfigValue) (n : ℕ) (f g : Frame) (fs : List Frame)
        → ((b : ValueBuilder) → handle max e b ≡ pop_frame max b b.stack)
        → suc (length fs) ≤ max_tree_depth
        → suc n ≤ max
        → fill_frame v f ≡ ok g
        → handle max e (open_at version n (frame v ∷ f ∷ fs))
          ≡ ok (open_at version (suc n) (g ∷ fs))
    unfolding pop_frame
    handle-end e v n f g fs same depth room fill = same _ ∙ attach-open v n f g fs depth room fill

    handle-end_object : (b : ValueBuilder) → handle max end_object b ≡ pop_frame max b b.stack
    unfolding handle
    handle-end_object b = refl

    handle-end_array : (b : ValueBuilder) → handle max end_array b ≡ pop_frame max b b.stack
    unfolding handle
    handle-end_array b = refl

    run-same :
        (rest : List Event) {m n : ℕ} {f g : Frame} (fs : List Frame)
        → m ≡ n
        → f ≡ g
        → run max rest (open_at version m (f ∷ fs)) ≡ run max rest (open_at version n (g ∷ fs))
    run-same rest fs same equal = rw (same, equal) refl

    mutual
      unfolding fill_frame set_key handle on_array push has_key

      run-value :
          (v : ConfigValue) (n : ℕ) (f g : Frame) (fs : List Frame) (rest : List Event)
          → IsLoadable v
          → IsShallow (suc (length fs)) v
          → n + nodes_in v ≤ max
          → fill_frame v f ≡ ok g
          → run max (value_events literal v rest) (open_at version n (f ∷ fs))
            ≡ run max rest (open_at version (n + nodes_in v) (g ∷ fs))
      run-value (scalar s) n f g fs rest fits depth room fill =
          run-handled _ _ _ _ (handle-scalar s n f g fs fits depth (omega (arith, room)) fill)
          ∙ run-same rest fs (omega arith) refl
      run-value (object ms) n f g fs rest fits (depth, below) room fill =
          run-handled start_object _ _ _
            (handle-start (object no_members) start_object n f fs refl depth)
          ∙ run-members no_members ms n (f ∷ fs) (end_object ∷ rest) fits (Fresh-empty ms) refl
              below (omega (arith, room))
          ∙ run-handled end_object rest _ _ (
              handle-end end_object (object ms) (n + nodes_in_members ms) f g fs handle-end_object
                depth (omega (arith, room)) fill)
          ∙ run-same rest fs (omega arith) refl
      run-value (array es) n f g fs rest fits (depth, below) room fill =
          run-handled start_array _ _ _
            (handle-start (array no_elements) start_array n f fs refl depth)
          ∙ run-elements no_elements es n (f ∷ fs) (end_array ∷ rest) fits below
              (omega (arith, room))
          ∙ run-handled end_array rest _ _ (
              handle-end end_array (array es) (n + nodes_in_elements es) f g fs handle-end_array
                depth (omega (arith, room)) fill)
          ∙ run-same rest fs (omega arith) refl

      run-members :
          (acc ms : Members) (n : ℕ) (fs : List Frame) (rest : List Event)
          → AreLoadable ms
          → Fresh acc ms
          → (is_empty fs && has_key version_key ms) ≡ false
          → AreShallowMembers (suc (length fs)) ms
          → n + nodes_in_members ms ≤ max
          → run max (member_events literal ms rest) (open_at version n (frame (object acc) ∷ fs))
            ≡ run max rest (
                open_at version
                  (n + nodes_in_members ms)
                  (frame (object (members_then acc ms)) ∷ fs))
      run-members acc no_members n fs rest fits fresh free depth room =
          run-same rest fs (omega arith) (ap (λ ms. frame (object ms)) (sym (members_then-nil acc)))
      run-members acc (member k v ms) n fs rest (named, unlike, one, fits) (fresh, later) free
            (depth, below) room =
          run-handled (key_event k) _ _ _ (
            handle-key k acc n fs named
              (free_of (is_empty fs) (bytes_eq k version_key) (has_key version_key ms) free).0
              fresh)
          ∙ run-value v n (record { container = object acc; pending_key = k })
              (frame (object (put_member k v acc))) fs (member_events literal ms rest) one depth
              (omega (arith, room)) refl
          ∙ run-members (put_member k v acc) ms (n + nodes_in v) fs rest fits
              (Fresh-put k v acc ms later unlike)
              (free_of (is_empty fs) (bytes_eq k version_key) (has_key version_key ms) free).1 below
              (omega (arith, room))
          ∙ run-same rest fs (omega arith)
              (ap (λ ns. frame (object ns)) (members_then-put k v acc ms fresh))

      run-elements :
          (acc es : Elements) (n : ℕ) (fs : List Frame) (rest : List Event)
          → AllLoadable es
          → AreShallowElements (suc (length fs)) es
          → n + nodes_in_elements es ≤ max
          → run max (element_events literal es rest) (open_at version n (frame (array acc) ∷ fs))
            ≡ run max rest (
                open_at version
                  (n + nodes_in_elements es)
                  (frame (array (elements_then acc es)) ∷ fs))
      run-elements acc no_elements n fs rest fits depth room =
          run-same rest fs (omega arith) (ap (λ es. frame (array es)) (sym (elements_then-nil acc)))
      run-elements acc (element v es) n fs rest (one, fits) (depth, below) room =
          run-value v n (frame (array acc)) (frame (array (append_element v acc))) fs
            (element_events literal es rest) one depth (omega (arith, room)) refl
          ∙ run-elements (append_element v acc) es (n + nodes_in v) fs rest fits below
              (omega (arith, room))
          ∙ run-same rest fs (omega arith)
              (ap (λ ds. frame (array ds)) (elements_then-append v acc es))

    abbrev pub built : Members → ValueBuilder
    built ms = record (open_at version (suc (nodes_in_members ms)) []) { root = some (object ms) }

    run-carrier :
        (ms : Members)
        → version ≤ max_version
        → run max (value_events literal (with_carrier version ms) []) new_builder
          ≡ run max
              (member_events literal ms (end_object ∷ []))
              (open_at version 0 (frame (object no_members) ∷ []))
    unfolding run handle open_frame on_key on_unsigned bytes_eq
    run-carrier ms narrow =
        let small : ltb max_version version ≡ false = ground arith in rw small refl

    run-root :
        (ms : Members) (n : ℕ)
        → suc n ≤ max
        → run max (end_object ∷ []) (open_at version n (frame (object ms) ∷ []))
          ≡ ok (record (open_at version (suc n) []) { root = some (object ms) })
    unfolding run handle pop_frame consume_node
    run-root ms n room = let free : (n == max) ≡ false = ground arith in rw free refl

    -- The builder accepts the events of an object with the version carrier before the members, and
    -- builds the object of the members alone, with the version beside it.
    pub run-document :
        (ms : Members)
        → version ≤ max_version
        → has_key version_key ms ≡ false
        → AreLoadable ms
        → AreShallowMembers 1 ms
        → suc (nodes_in_members ms) ≤ max
        → run max (value_events literal (with_carrier version ms) []) new_builder ≡ ok (built ms)
    run-document ms narrow free fits shallow room =
        run-carrier ms narrow
        ∙ run-members no_members ms 0 [] (end_object ∷ []) fits (Fresh-empty ms) free shallow
            (omega (arith, room))
        ∙ run-root ms (0 + nodes_in_members ms) (omega (arith, room))
        ∙ ap (λ k. ok (record (open_at version (suc k) []) { root = some (object ms) }))
            (omega arith)
