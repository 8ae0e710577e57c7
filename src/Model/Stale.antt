-- ===== src/Model/Stale.antt =====
-- Handles into a subtree that is freed.
use config_manager.Common.{ℕ, ◌≤◌, ◌≡◌, ◌≢◌, false, List, ◌++◌, count, count-append, arith, ok}
use config_manager.Arena.{Arena, matches}
use config_manager.Arena.Slots.{IsPartition}
use config_manager.Arena.Handles.{matches-free}
use config_manager.Model.Store.{free_subtree}
use config_manager.Model.Tree.{Tree, root_of, value_of, ids, Holds, nodes_in}
use config_manager.Model.Release.{free_subtree-Freed}

-- Where the arena holds a tree and the slots are partitioned, freeSubtree with a round of fuel for each
-- node of the tree leaves an arena that matches no handle to a node of the tree, whatever the handle's
-- generation.
pub free_subtree-stale :
    (fuel : ℕ) (a : Arena) (p : ℕ) (t : Tree) (owned frees : List ℕ)
    → Holds a.nodes p t
    → IsPartition a (ids t ++ owned) frees
    → nodes_in (value_of t) ≤ fuel
    → (b : Arena) × (free_subtree fuel (root_of t) a ≡ ok (tt, b))
      × ((i g : ℕ) → count i (ids t) ≢ 0 → matches i g b ≡ false)
free_subtree-stale fuel a p t owned frees h part room =
    let r = free_subtree-Freed fuel a p t owned frees h part room in
    (
      r.arena,
      r.returns,
      λ i g k. matches-free r.arena owned r.frees i g r.partition (
          ground
            (arith, part.once i, r.partition.once i, r.same_length, count-append i (ids t) owned)),
    )
