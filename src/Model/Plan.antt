-- ===== src/Model/Plan.antt =====
-- planWrite and applyWrite of src/config_model.cpp.
use config_manager.Common.{
  ℕ, zero, suc, ◌+◌, ◌==◌, Bool, true, if◌then◌else◌, Option, none, some, List, [], ◌∷◌, length,
  get_elem?, Result, ok, err, fault, ◌>>=◌, invalid_type, node_not_found, all,
}
use config_manager.Path.{PathSegment, key, index}
use config_manager.Value.{ConfigValue, NodeType, object_type, array_type, type_eq}
use config_manager.Arena.{Arena, Node, node_id_none, get}
use config_manager.Arena.State.{Action, modify, with_parent}
use config_manager.Arena.State
use config_manager.Model.Read.{find_member}
use config_manager.Model.Store.{assign_contents, build_chain, link}

-- Where `create_from` is the number of segments, `node` is the existing target; otherwise it is the
-- deepest existing node, and creation starts at segment `create_from`.
pub record WritePlan : Type 0 where
  pub node : ℕ
  pub create_from : ℕ

abbrev pub plan_at : ℕ → ℕ → WritePlan
plan_at id from = record { node = id; create_from = from }

abbrev pub creatable_segment : PathSegment → Bool
creatable_segment (key _) = true
creatable_segment (index i) = i == 0

-- `rest` holds the segments after segment `from`.
unfoldable pub check_creatable : List PathSegment → ℕ → ℕ → Result WritePlan
check_creatable rest from parent =
    if all creatable_segment rest then ok (plan_at parent from) else err node_not_found

-- Where a segment leads: to an existing child, or to one that is to be created.
pub data Next : Type 0 where
  existing : ℕ → Next
  created : Next

abbrev pub next_member : ℕ → Next
next_member id = if id == node_id_none then created else existing id

abbrev pub next_element : ℕ → List ℕ → Option ℕ → Result Next
next_element i es (some id) = ok (existing id)
next_element i es none = if i == length es then ok created else err node_not_found

unfoldable pub plan_step : PathSegment → Node → Result Next
unfolding find_member
plan_step (key k) n =
    if type_eq n.type object_type
    then ok (next_member (find_member n.members k))
    else err invalid_type
plan_step (index i) n =
    if type_eq n.type array_type
    then next_element i n.elements (get_elem? n.elements i)
    else err invalid_type

abbrev pub final_plan : NodeType → ℕ → ℕ → Node → Result WritePlan
final_plan type child count n =
    if type_eq n.type type then ok (plan_at child count) else err invalid_type

-- Where the child is: the target itself, or further on.
abbrev pub plan_child :
    (ℕ → Result WritePlan) → Arena → ℕ → NodeType → ℕ → List PathSegment → Result WritePlan
plan_child go a i type child [] = do n ← get child a; final_plan type child i n
plan_child go a i type child (_ ∷ _) = go child

abbrev pub plan_next :
    (ℕ → Result WritePlan) → Arena → ℕ → ℕ → NodeType → List PathSegment → Next → Result WritePlan
plan_next go a i current type rest created = check_creatable rest i current
plan_next go a i current type rest (existing child) = plan_child go a (i + 1) type child rest

-- The loop of planWrite at segment `i`.
unfoldable pub plan_write : Arena → ℕ → ℕ → List PathSegment → NodeType → Result WritePlan
unfolding plan_step check_creatable
plan_write a current i [] type = ok (plan_at current i)
plan_write a current i (s ∷ rest) type = do
  n ← get current a
  next ← plan_step s n
  plan_next (λ child. plan_write a child (i + 1) rest type) a i current type rest next

abbrev pub drop : ℕ → List PathSegment → List PathSegment
drop zero ss = ss
drop (suc n) [] = []
drop (suc n) (s ∷ ss) = drop n ss

-- Joins a detached chain to the node where creation starts.
unfoldable pub join : ℕ → List PathSegment → ConfigValue → Action (Unit {0})
unfolding build_chain
join anchor [] value = λ _. fault
join anchor (s ∷ rest) value =
    State.◌>>=◌ (build_chain rest value)
      λ chain. State.◌>>◌ (modify chain (with_parent anchor)) (modify anchor (link s chain))

unfoldable pub apply_write : ℕ → WritePlan → List PathSegment → ConfigValue → Action (Unit {0})
unfolding join assign_contents
apply_write fuel plan segments value =
    if plan.create_from == length segments
    then assign_contents fuel plan.node value
    else join plan.node (drop plan.create_from segments) value
