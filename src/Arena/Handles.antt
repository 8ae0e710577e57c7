-- ===== src/Arena/Handles.antt =====
-- Stale handles are detected: a slot on the free list matches no generation, and a slot that is
-- used again does not match the generation that it had before.
use config_manager.Common.{
  ℕ, ◌+◌, ◌%◌, ◌<◌, ◌≡◌, ◌≢◌, refl, true, false, ◌==◌, List, [], ◌∷◌, some, get_elem?, count, set,
  get_elem?-set_self, lt-length_of_get_elem?, arith, ok, ◌>>=◌,
}
use config_manager.Value.{NodeType, monostate}
use config_manager.Arena.{Arena, Node, word_mod, node_id_none, allocate, release, released, matches}
use config_manager.Arena.Slots.{IsPartition, Chain, release-Released}

Chain-matches :
    (ns : List Node) (h head i g : ℕ) (fs : List ℕ)
    → Chain ns head fs
    → count i fs ≢ 0
    → matches i g (record { nodes = ns; free_head = h }) ≡ false
unfolding matches
Chain-matches ns h head i g [] c k = absurd (k refl)
Chain-matches ns h head i g (f ∷ fs) (n, eh, small, en, (dead, _, _), rest) k =
    ground (arith, Chain-matches ns h n.parent i g fs rest)

-- A slot on the free list matches no generation.
pub matches-free :
    (a : Arena) (owned frees : List ℕ) (i g : ℕ)
    → IsPartition a owned frees
    → count i frees ≢ 0
    → matches i g a ≡ false
matches-free a owned frees i g p k =
    Chain-matches a.nodes a.free_head a.free_head i g frees p.chain k

next_generation : (g : ℕ) → g < word_mod → ((g + 1) % word_mod == g) ≡ false
next_generation g h = ground arith

-- The node that `allocate` makes of a dead one.
abbrev revived : NodeType → Node → Node
revived t n = record n { type = t; scalar = monostate; parent = node_id_none; alive = true }

allocate-at :
    (t : NodeType) (a : Arena) (f : ℕ) (n : Node)
    → a.free_head ≡ f
    → f < node_id_none
    → get_elem? a.nodes f ≡ some n
    → allocate t a ≡ ok (f, record { nodes = set a.nodes f (revived t n); free_head = n.parent })
unfolding allocate
allocate-at t a f n eh small en = ground arith

-- A live slot `id` that is released and then given out by the next `allocate` is the same slot, and
-- the handles to its earlier life do not match it, where its generation is a 32-bit number.
pub release-allocate_stale :
    (a : Arena) (owned frees : List ℕ) (id : ℕ) (n : Node) (t : NodeType)
    → IsPartition a (id ∷ owned) frees
    → get_elem? a.nodes id ≡ some n
    → n.alive ≡ true
    → n.generation < word_mod
    → (b : Arena) × ((release id a >>= allocate t) ≡ ok (id, b))
      × (matches id n.generation b ≡ false)
unfolding matches
release-allocate_stale a owned frees id n t p en live small =
    let r = release-Released a owned frees id n p en live in
    let (_, eh, lt, _, _, _) = r.partition.chain in
    let n' : Node = released a.free_head n in
    (
      record { nodes = set r.arena.nodes id (revived t n'); free_head = a.free_head },
      rw r.returns (allocate-at t r.arena id n' eh lt r.holds),
      rw
          (get_elem?-set_self r.arena.nodes id (revived t n')
            (lt-length_of_get_elem? r.arena.nodes id r.holds))
          (next_generation n.generation small),
    )
