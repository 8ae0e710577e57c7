-- ===== src/Value/Index.antt =====
-- The hash index of ConfigValue's object members, `object_` and `object_index_` together. The hash
-- map itself is the standard library's: an association list from a key to its position.
use config_manager.Common.{
  ℕ, zero, suc, ◌≡◌, refl, Bytes, bytes_eq, bytes_eq→eq, bytes_eq_self, Bool, true, false,
  if◌then◌else◌, Option, none, some, List, [], ◌∷◌, ◌++◌, length, arith, any,
}

pub record IndexedObject (V : Type 0) : Type 0 where
  pub members : List (Bytes × V)
  pub index : List (Bytes × ℕ)

unfoldable pub find_index : Bytes → List (Bytes × ℕ) → Option ℕ
find_index k [] = none
find_index k ((j, i) ∷ index) = if bytes_eq j k then some i else find_index k index

abbrev is_found : Option ℕ → Bool
is_found none = false
is_found (some _) = true

abbrev shift : Option ℕ → Option ℕ
shift none = none
shift (some i) = some (suc i)

module _ {V : Type 0} where
  -- object_[i].second = value
  unfoldable pub assign_at : ℕ → V → List (Bytes × V) → List (Bytes × V)
  assign_at i v [] = []
  assign_at zero v ((k, w) ∷ ms) = (k, v) ∷ ms
  assign_at (suc i) v (m ∷ ms) = m ∷ assign_at i v ms

  abbrev set_found : Bytes → V → IndexedObject V → Option ℕ → IndexedObject V
  set_found k v o (some i) = record o { members = assign_at i v o.members }
  set_found k v o none = record {
    members = o.members ++ (k, v) ∷ [];
    index = (k, length o.members) ∷ o.index;
  }

  unfoldable pub set : Bytes → V → IndexedObject V → IndexedObject V
  unfolding find_index assign_at
  set k v o = set_found k v o (find_index k o.index)

  unfoldable pub contains : IndexedObject V → Bytes → Bool
  unfolding find_index
  contains o k = is_found (find_index k o.index)

  -- The reference: the first member of that name, by a walk through the members.
  abbrev pub position : Bytes → List (Bytes × V) → Option ℕ
  position k [] = none
  position k ((j, v) ∷ ms) = if bytes_eq j k then some 0 else shift (position k ms)

  abbrev pub put : Bytes → V → List (Bytes × V) → List (Bytes × V)
  put k v [] = (k, v) ∷ []
  put k v ((j, w) ∷ ms) = if bytes_eq j k then (j, v) ∷ ms else (j, w) ∷ put k v ms

  abbrev pub IsIndexed : IndexedObject V → Type 0
  IsIndexed o = (k : Bytes) → find_index k o.index ≡ position k o.members

  put-assign :
      (k : Bytes) (v : V) (ms : List (Bytes × V)) (i : ℕ)
      → position k ms ≡ some i
      → assign_at i v ms ≡ put k v ms
  unfolding assign_at
  put-assign k v [] i h = cc
  put-assign k v ((j, w) ∷ ms) zero h = ground arith
  put-assign k v ((j, w) ∷ ms) (suc i) h = ground (arith, put-assign k v ms i)

  put-append :
      (k : Bytes) (v : V) (ms : List (Bytes × V))
      → position k ms ≡ none
      → ms ++ (k, v) ∷ [] ≡ put k v ms
  put-append k v [] h = refl
  put-append k v ((j, w) ∷ ms) h = ground (arith, put-append k v ms)

  position-assign :
      (j : Bytes) (v : V) (ms : List (Bytes × V)) (i : ℕ)
      → position j (assign_at i v ms) ≡ position j ms
  unfolding assign_at
  position-assign j v [] i = refl
  position-assign j v ((k, w) ∷ ms) zero = refl
  position-assign j v ((k, w) ∷ ms) (suc i) = rw (position-assign j v ms i)

  position-append :
      (k j : Bytes) (v : V) (ms : List (Bytes × V))
      → position k ms ≡ none
      → position j (ms ++ (k, v) ∷ []) ≡ (if bytes_eq k j then some (length ms) else position j ms)
  position-append k j v [] h = refl
  position-append k j v ((i, w) ∷ ms) h =
      ground (arith, position-append k j v ms, bytes_eq→eq k j, bytes_eq→eq i j, bytes_eq_self k)

  -- While the index gives the position of each key among the members, `set` is replacement of the
  -- first member of that name in place, or an append if there is none, and the index gives the
  -- positions afterwards too.
  pub set-put :
      (k : Bytes) (v : V) (o : IndexedObject V)
      → IsIndexed o
      → ((set k v o).members ≡ put k v o.members) × IsIndexed (set k v o)
  unfolding set
  set-put k v o inv = go (position k o.members) refl
    where
      go :
          (found : Option ℕ)
          → position k o.members ≡ found
          → ((set k v o).members ≡ put k v o.members) × IsIndexed (set k v o)
      go none e =
          rw (inv k, e)
            (put-append k v o.members e, λ j. rw (position-append k j v o.members e, inv j) refl)
      go (some i) e =
          rw (inv k, e)
            (put-assign k v o.members i e, λ j. rw (position-assign j v o.members i) (inv j))

  -- While the index gives the position of each key, `contains` is the search through the members.
  pub contains-any :
      (k : Bytes) (o : IndexedObject V)
      → IsIndexed o
      → contains o k ≡ any (λ m. bytes_eq m.0 k) o.members
  unfolding contains
  contains-any k o inv = rw (inv k) (found-any o.members)
    where
      found-any : (ms : List (Bytes × V)) → is_found (position k ms) ≡ any (λ m. bytes_eq m.0 k) ms
      found-any [] = refl
      found-any ((j, v) ∷ ms) = ground (arith, found-any ms)
