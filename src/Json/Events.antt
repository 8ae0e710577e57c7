-- ===== src/Json/Events.antt =====
-- The events that the parser reports of a document, and the documents that can be loaded.
use config_manager.Common.{
  ℕ, ◌≤◌, ◌≡◌, refl, ap, Bytes, bytes_eq, bytes_eq→eq, bytes_eq_self, Bool, true, false, Bool-cases,
  inl, inr, ◌&&◌, ◌||◌, List, ◌∷◌, arith,
}
use config_manager.Common.Int.{pos, negsuc}
use config_manager.Value.{
  ConfigValue, scalar, object, array, Members, no_members, member, Elements, no_elements, element,
  Scalar, monostate, bool, int64, double, string, put_member, append_element, has_key,
}
use config_manager.Json.{
  Event, null_event, boolean, number_integer, number_unsigned, number_float, string_event,
  start_object, key_event, end_object, start_array, end_array, max_int, is_path_addressable,
}

-- What the value may be made of: names that a path can have, integers of 64 bits.
abbrev pub FitsScalar : Scalar → Type 0
FitsScalar (int64 (pos n)) = n ≤ max_int
FitsScalar _ = Unit {0}

abbrev mutual
  pub IsLoadable : ConfigValue → Type 0
  IsLoadable (scalar s) = FitsScalar s
  IsLoadable (object ms) = AreLoadable ms
  IsLoadable (array es) = AllLoadable es

  pub AreLoadable : Members → Type 0
  AreLoadable no_members = Unit {0}
  AreLoadable (member k v ms) =
      (is_path_addressable k ≡ true) × (has_key k ms ≡ false) × IsLoadable v × AreLoadable ms

  pub AllLoadable : Elements → Type 0
  AllLoadable no_elements = Unit {0}
  AllLoadable (element v es) = IsLoadable v × AllLoadable es

-- Lists of members and elements, one after the other.
abbrev pub members_then : Members → Members → Members
members_then no_members ns = ns
members_then (member k v ms) ns = member k v (members_then ms ns)

abbrev pub elements_then : Elements → Elements → Elements
elements_then no_elements ds = ds
elements_then (element v es) ds = element v (elements_then es ds)

abbrev pub Fresh : Members → Members → Type 0
Fresh ms no_members = Unit {0}
Fresh ms (member k v ns) = (has_key k ms ≡ false) × Fresh ms ns

pub members_then-put :
    (k : Bytes) (v : ConfigValue) (ms ns : Members)
    → has_key k ms ≡ false
    → members_then (put_member k v ms) ns ≡ members_then ms (member k v ns)
unfolding put_member has_key
members_then-put k v no_members ns h = refl
members_then-put k v (member j u ms) ns h = elim (Bool-cases (bytes_eq j k)) [
  | inl same ↦ absurd (ground (arith, h, same))
  | inr other ↦ rw other (ap (member j u) (members_then-put k v ms ns (rw other at h)))
]

pub elements_then-append :
    (v : ConfigValue) (es ds : Elements)
    → elements_then (append_element v es) ds ≡ elements_then es (element v ds)
unfolding append_element
elements_then-append v no_elements ds = refl
elements_then-append v (element u es) ds = ap (element u) (elements_then-append v es ds)

pub members_then-nil : (ms : Members) → members_then ms no_members ≡ ms
members_then-nil no_members = refl
members_then-nil (member k v ms) = ap (member k v) (members_then-nil ms)

pub elements_then-nil : (es : Elements) → elements_then es no_elements ≡ es
elements_then-nil no_elements = refl
elements_then-nil (element v es) = ap (element v) (elements_then-nil es)

bytes_eq_sym : (j k : Bytes) → bytes_eq j k ≡ false → bytes_eq k j ≡ false
bytes_eq_sym j k h = elim (Bool-cases (bytes_eq k j)) [
  | inl same ↦
      let self : bytes_eq j k ≡ true = rw (bytes_eq→eq k j same) (bytes_eq_self j) in
      absurd (ground (arith, h, self))
  | inr other ↦ other
]

has_key-put :
    (j k : Bytes) (v : ConfigValue) (ms : Members)
    → has_key j ms ≡ false
    → bytes_eq k j ≡ false
    → has_key j (put_member k v ms) ≡ false
unfolding put_member has_key
has_key-put j k v no_members h e = rw e refl
has_key-put j k v (member i u ms) h e = elim (Bool-cases (bytes_eq i k)) [
  | inl same ↦ rw same h
  | inr other ↦ rw other (ground (arith, h, has_key-put j k v ms (ground (arith, h)) e))
]

pub Fresh-put :
    (k : Bytes) (v : ConfigValue) (ms ns : Members)
    → Fresh ms ns
    → has_key k ns ≡ false
    → Fresh (put_member k v ms) ns
unfolding has_key
Fresh-put k v ms no_members h e = tt
Fresh-put k v ms (member j u ns) (hj, h) e = (
  has_key-put j k v ms hj (bytes_eq_sym j k (ground (arith, e))),
  Fresh-put k v ms ns h (ground (arith, e)),
)

pub Fresh-empty : (ms : Members) → Fresh no_members ms
unfolding has_key
Fresh-empty no_members = tt
Fresh-empty (member k v ms) = (refl, Fresh-empty ms)

pub free_of : (b c d : Bool) → (b && (c || d)) ≡ false → ((b && c) ≡ false) × ((b && d) ≡ false)
free_of b c d h = (ground (arith, h), ground (arith, h))

module _ (literal : ℕ → Bytes) where
  -- The events of a value, before `rest`; the literal of a double is the library's.
  abbrev pub scalar_event : Scalar → Event
  scalar_event monostate = null_event
  scalar_event (bool b) = boolean b
  scalar_event (int64 (pos n)) = number_unsigned n
  scalar_event (int64 (negsuc n)) = number_integer (negsuc n)
  scalar_event (double d) = number_float d (literal d)
  scalar_event (string s) = string_event s

  abbrev mutual
    pub value_events : ConfigValue → List Event → List Event
    value_events (scalar s) rest = scalar_event s ∷ rest
    value_events (object ms) rest = start_object ∷ member_events ms (end_object ∷ rest)
    value_events (array es) rest = start_array ∷ element_events es (end_array ∷ rest)

    pub member_events : Members → List Event → List Event
    member_events no_members rest = rest
    member_events (member k v ms) rest = key_event k ∷ value_events v (member_events ms rest)

    pub element_events : Elements → List Event → List Event
    element_events no_elements rest = rest
    element_events (element v es) rest = value_events v (element_events es rest)
