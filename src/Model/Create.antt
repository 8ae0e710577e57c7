-- ===== src/Model/Create.antt =====
-- fromValue makes a well-formed model.
use config_manager.Common.{Bytes, ◌>>=◌, ◌+◌, ◌≤◌, ◌≡◌, refl, sym, [], ◌∷◌, append-nil, arith, ok}
use config_manager.Value.{object, Members, object_type}
use config_manager.Arena.{Arena, new_node, node_id_none}
use config_manager.Arena.Slots.{IsPartition}
use config_manager.Path.{parse}
use config_manager.Model.{ConfigModel, from_value, get_value, empty_model}
use config_manager.Model.Reads.{get_value-value_at}
use config_manager.Model.Read.{validate_tree}
use config_manager.Model.Tree.{branches_at, no_branches, ids, nodes_in}
use config_manager.Model.Spec.{AreUnique, value_at}
use config_manager.Model.Invariant.{IsModel}
use config_manager.Model.Assign.Contents.{assign_contents-Assigned}

abbrev bare_root : Arena
bare_root = record { nodes = new_node object_type ∷ []; free_head = node_id_none }

bare_root-IsPartition : IsPartition bare_root (0 ∷ []) []
bare_root-IsPartition = record { chain = refl; once = λ i. ground arith; small = omega arith }

-- For an object that passes validateTree, has no two members of one name in any of its objects, and
-- fits the 32-bit ids with one slot to spare, fromValue returns a well-formed model of that value.
pub from_value-IsModel :
    (ms : Members)
    → validate_tree (object ms) 0 ≡ ok tt
    → AreUnique ms
    → 1 + nodes_in (object ms) ≤ node_id_none
    → (m : ConfigModel) × (from_value (object ms) ≡ ok m) × IsModel m (object ms)
unfolding from_value empty_model
from_value-IsModel ms valid unique room =
    let r =
      assign_contents-Assigned 2 (object ms) node_id_none bare_root (branches_at 0 0 no_branches) []
        [] (refl, tt) bare_root-IsPartition refl (omega arith) room in
    (
      record { arena = r.arena; root_id = 0 },
      rw (valid, r.returns) refl,
      record {
        tree = r.tree;
        frees = r.frees;
        at_root = sym r.same_root;
        value = r.value;
        holds = r.holds;
        partition = rw (append-nil (ids r.tree)) at r.partition;
        unique = unique;
      },
    )

-- For an object that passes validateTree, has no two members of one name in any of its objects, and
-- fits the 32-bit ids with one slot to spare, what getValue reads in the model that fromValue returns
-- is the part of the value to which the path leads, or the error with which it fails to parse or stops.
pub get_value-from_value :
    (ms : Members)
    → validate_tree (object ms) 0 ≡ ok tt
    → AreUnique ms
    → 1 + nodes_in (object ms) ≤ node_id_none
    → (m : ConfigModel) × (from_value (object ms) ≡ ok m)
      × ((path : Bytes) → get_value m path ≡ (parse path >>= value_at (object ms)))
get_value-from_value ms valid unique room =
    let (m, made, well) = from_value-IsModel ms valid unique room in
    (m, made, get_value-value_at m (object ms) well)
