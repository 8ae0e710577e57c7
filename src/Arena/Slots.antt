-- ===== src/Arena/Slots.antt =====
-- Which slots of the arena are owned and which are free, and what `allocate` and `release` do to
-- them: every slot is owned once or on the free list once, never both and never neither.
use config_manager.Common.{
  ℕ, ◌+◌, ◌<◌, ◌≤◌, ◌≡◌, ◌≢◌, refl, sym, ◌∙◌, true, false, ltb, if◌then◌else◌, some, List, [], ◌∷◌,
  ◌++◌, length, get_elem?, set, count, arith, Result, ok, length-append, length-set,
  get_elem?-set_self, get_elem?-set_ne, get_elem?-append_other, get_elem?-append_end,
  lt-length_of_get_elem?,
}
use config_manager.Value.{NodeType}
use config_manager.Arena.{
  Node, Arena, node_id_none, new_node, allocate, release, released, write_node,
}

abbrev pub IsFree : Node → Type 0
IsFree n = (n.alive ≡ false) × (n.members ≡ []) × (n.elements ≡ [])

-- The free list from `head` runs through the slots `fs`.
abbrev pub Chain : List Node → ℕ → List ℕ → Type 0
Chain ns head [] = head ≡ node_id_none
Chain ns head (f ∷ fs) =
    (n : Node) × (head ≡ f)
    × (f < node_id_none)
    × (get_elem? ns f ≡ some n)
    × IsFree n
    × Chain ns n.parent fs

pub record IsPartition (a : Arena) (owned frees : List ℕ) : Type 0 where
  pub chain : Chain a.nodes a.free_head frees
  pub once : (i : ℕ) → count i owned + count i frees ≡ (if ltb i (length a.nodes) then 1 else 0)
  pub small : length a.nodes ≤ node_id_none

pub Chain-frame :
    (ns ms : List Node) (head : ℕ) (fs : List ℕ)
    → ((i : ℕ) → count i fs ≢ 0 → get_elem? ms i ≡ get_elem? ns i)
    → Chain ns head fs
    → Chain ms head fs
Chain-frame ns ms head [] same c = c
Chain-frame ns ms head (f ∷ fs) same (n, eh, small, en, free, rest) = (
  n,
  eh,
  small,
  same f (ground arith) ∙ en,
  free,
  Chain-frame ns ms n.parent fs (λ i h. same i (ground arith)) rest,
)

-- A slot that is owned is not on the free list.
pub not-free :
    {a : Arena} {owned frees : List ℕ} (i : ℕ)
    → IsPartition a owned frees
    → count i owned ≢ 0
    → count i frees ≡ 0
not-free i p h = ground (arith, p.once i)

-- A write to an owned slot keeps the partition.
pub IsPartition-write :
    {a : Arena} {owned frees : List ℕ} (id : ℕ) (n : Node)
    → IsPartition a owned frees
    → count id owned ≢ 0
    → IsPartition (write_node id n a) owned frees
IsPartition-write {a} {owned} {frees} id n p h = record {
  chain =
      Chain-frame a.nodes (set a.nodes id n) a.free_head frees
        (λ i hi. get_elem?-set_ne a.nodes n (λ (e : id ≡ i). hi (not-free i p (rw (← e) h))))
        p.chain;
  once = λ i. rw (length-set a.nodes id n) (p.once i);
  small = rw (length-set a.nodes id n) p.small;
}

-- What a successful `allocate` gives.
pub record Allocated (t : NodeType) (a : Arena) (owned : List ℕ) (out : Result (ℕ × Arena))
    : Type 0 where
  pub id : ℕ
  pub arena : Arena
  pub frees : List ℕ
  pub generation : ℕ
  pub returns : out ≡ ok (id, arena)
  pub partition : IsPartition arena (id ∷ owned) frees
  pub fresh : count id owned ≡ 0
  pub holds : get_elem? arena.nodes id ≡ some (record (new_node t) { generation = generation })
  pub others : (i : ℕ) → i ≢ id → get_elem? arena.nodes i ≡ get_elem? a.nodes i
  pub grows : length arena.nodes ≤ length a.nodes + 1

module _ (t : NodeType) (a : Arena) (owned : List ℕ) where
  length-push : length (a.nodes ++ new_node t ∷ []) ≡ length a.nodes + 1
  length-push = omega (arith, length-append {0} a.nodes (new_node t ∷ []))

  allocate-push :
      IsPartition a owned [] → length a.nodes < node_id_none → Allocated t a owned (allocate t a)
  unfolding allocate
  allocate-push p room = record {
    id = length a.nodes;
    arena = record a { nodes = a.nodes ++ new_node t ∷ [] };
    frees = [];
    generation = 0;
    returns = ground arith;
    partition = record {
      chain = p.chain;
      once = λ i. ground (arith, p.once i, length-push);
      small = omega (arith, length-push);
    };
    fresh = ground (arith, p.once (length a.nodes));
    holds = get_elem?-append_end a.nodes (new_node t);
    others = get_elem?-append_other a.nodes (new_node t);
    grows = omega (arith, length-push);
  }

  allocate-reuse :
      (f : ℕ) (fs : List ℕ) → IsPartition a owned (f ∷ fs) → Allocated t a owned (allocate t a)
  unfolding allocate
  allocate-reuse f fs p =
      let (n, eh, lt, en, (dead, no_members, no_elements), rest) = p.chain in
      let once : count f fs ≡ 0 = ground (arith, p.once f) in
      record {
        id = f;
        arena = record {
          nodes = set a.nodes f (record (new_node t) { generation = n.generation });
          free_head = n.parent;
        };
        frees = fs;
        generation = n.generation;
        returns = ground arith;
        partition = record {
          chain =
              Chain-frame a.nodes _ n.parent fs
                (λ i h. get_elem?-set_ne a.nodes _ (λ (e : f ≡ i). h (rw (← e) once))) rest;
          once = λ i. rw (length-set a.nodes f _) (ground (arith, p.once i));
          small = rw (length-set a.nodes f _) p.small;
        };
        fresh = ground (arith, p.once f);
        holds = get_elem?-set_self a.nodes f _ (lt-length_of_get_elem? a.nodes f en);
        others = λ i h. get_elem?-set_ne a.nodes _ (λ (e : f ≡ i). h (sym e));
        grows = rw (length-set a.nodes f _) (omega arith);
      }

  -- `allocate` returns a slot that nobody owned and that is live now, with the type asked for; no
  -- other slot changes.
  pub allocate-Allocated :
      (frees : List ℕ)
      → IsPartition a owned frees
      → length a.nodes < node_id_none
      → Allocated t a owned (allocate t a)
  allocate-Allocated [] p room = allocate-push p room
  allocate-Allocated (f ∷ fs) p room = allocate-reuse f fs p

-- What a successful `release` of slot `id` gives.
pub record Released (a : Arena) (owned frees : List ℕ) (id : ℕ) (n : Node) (out : Result Arena)
    : Type 0 where
  pub arena : Arena
  pub returns : out ≡ ok arena
  pub partition : IsPartition arena owned (id ∷ frees)
  pub holds : get_elem? arena.nodes id ≡ some (released a.free_head n)
  pub others : (i : ℕ) → i ≢ id → get_elem? arena.nodes i ≡ get_elem? a.nodes i
  pub same_length : length arena.nodes ≡ length a.nodes

-- `release` puts a live slot that was owned on the free list, and no other slot changes.
pub release-Released :
    (a : Arena) (owned frees : List ℕ) (id : ℕ) (n : Node)
    → IsPartition a (id ∷ owned) frees
    → get_elem? a.nodes id ≡ some n
    → n.alive ≡ true
    → Released a owned frees id n (release id a)
unfolding release
release-Released a owned frees id n p en live =
    let inside : id < length a.nodes = lt-length_of_get_elem? a.nodes id en in
    let once : count id frees ≡ 0 = ground (arith, p.once id) in
    record {
      arena = record { nodes = set a.nodes id (released a.free_head n); free_head = id };
      returns = rw (en, live) refl;
      partition = record {
        chain = (
          released a.free_head n,
          refl,
          omega (arith, p.small),
          get_elem?-set_self a.nodes id _ inside,
          (refl, refl, refl),
          Chain-frame a.nodes _ a.free_head frees
              (λ i h. get_elem?-set_ne a.nodes _ (λ (e : id ≡ i). h (rw (← e) once))) p.chain,
        );
        once = λ i. rw (length-set a.nodes id _) (ground (arith, p.once i));
        small = rw (length-set a.nodes id _) p.small;
      };
      holds = get_elem?-set_self a.nodes id _ inside;
      others = λ i h. get_elem?-set_ne a.nodes _ (λ (e : id ≡ i). h (sym e));
      same_length = length-set a.nodes id _;
    }
