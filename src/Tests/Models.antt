-- ===== src/Tests/Models.antt =====
-- The arena and the model at a tree of an object with a number and an array, beside one free slot.
use config_manager.Common.{
  ℕ, count, ◌≢◌, bytes_eq, ◌≡◌, refl, Bytes, Bool, true, false, List, ap, ◌∙◌, ◌++◌, some,
  if◌then◌else◌, [], ◌∷◌, arith, ok, ◌>>=◌,
}
use config_manager.Common.Int.{pos}
use mathlib.Core.Path.{subst}
use config_manager.Path.{key, index, parse}
use config_manager.Value.{
  Members, ConfigValue, has_key, object, array, scalar, no_members, member, no_elements, int64,
  monostate, object_type, array_type,
}
use config_manager.Arena.{Arena, Node, node_id_none, allocate, release, matches}
use config_manager.Arena.Slots.{IsPartition}
use config_manager.Arena.Handles.{release-allocate_stale}
use config_manager.Model
use config_manager.Model.{from_value, ConfigModel, enough, get_value, has_value, set, remove}
use config_manager.Model.Read.{validate_tree, is_addressable_key, resolve, build_value}
use config_manager.Model.Store.{assign_contents, build, free_subtree}
use config_manager.Model.Tree.{
  ids, Tree, leaf, branches_at, items_at, no_branches, branch, no_items, Holds, leaf_node,
  object_node, array_node,
}
use config_manager.Model.Spec.{value_at, HasUniqueKeys}
use config_manager.Model.Build.{Built}
use config_manager.Model.Build.Laws.{build-Built}
use config_manager.Model.Release.{Freed, free_subtree-Freed}
use config_manager.Model.Resolve.{roots, lookup, resolve-lookup}
use config_manager.Model.Extract.{build_value-tree}
use config_manager.Model.Assign.Contents.{Assigned, assign_contents-Assigned}
use config_manager.Model.Stale.{free_subtree-stale}
use config_manager.Model.Create.{from_value-IsModel, get_value-from_value}
use config_manager.Model.Invariant.{IsModel}
use config_manager.Json.{version_key, Event, syntax_error, LoadLimits, load}
use config_manager.Json.Stream.{IoState, at_end}
use config_manager.Json.Events.{value_events}
use config_manager.Json.Round.{load-save}
use config_manager.Json.Save.{to_json, document_of, save}
use config_manager.Json.Save.Whole.{saved_of, save-saved_of}
use config_manager.Catalog.{Called, returned}
use config_manager.Json.Save.Laws.{handle_of, if_finite, all_finite, to_json-value_of}
use config_manager.Model.Writes.{
  Commits, set_value, remove_value, set-set_value, remove-remove_value,
}
use config_manager.Model.Reads.{get_value-value_at, contains-value_at}

abbrev a : Bytes
a = b'a' ∷ []

abbrev b : Bytes
b = b'b' ∷ []

abbrev tree : Tree
tree =
    branches_at 0 0
      (branch a (leaf 1 0 (int64 (pos 5))) (branch b (items_at 2 3 no_items) no_branches))

abbrev vacant : Node
vacant = record {
  type = object_type;
  scalar = monostate;
  members = [];
  elements = [];
  parent = node_id_none;
  generation = 1;
  alive = false;
}

abbrev arena : Arena
arena = record {
  nodes =
      object_node 0 ((a, 1) ∷ (b, 2) ∷ []) node_id_none
      ∷ leaf_node 0 (int64 (pos 5)) 0
      ∷ array_node 3 [] 0
      ∷ vacant
      ∷ [];
  free_head = 3;
}

abbrev model : ConfigModel
model = record { arena = arena; root_id = 0 }

abbrev value : ConfigValue
value = object (member a (scalar (int64 (pos 5))) (member b (array no_elements) no_members))

arena-IsPartition : IsPartition arena (0 ∷ 1 ∷ 2 ∷ []) (3 ∷ [])
arena-IsPartition = record {
  chain = (vacant, refl, omega arith, refl, (refl, refl, refl), refl);
  once = λ i. ground arith;
  small = omega arith;
}

arena-Holds : Holds arena.nodes node_id_none tree
arena-Holds = (refl, (refl, ((refl, tt), tt)))

value-HasUniqueKeys : HasUniqueKeys value
unfolding has_key bytes_eq
value-HasUniqueKeys = (refl, tt, (refl, tt, tt))

model-IsModel : IsModel model value
model-IsModel = record {
  tree = tree;
  frees = 3 ∷ [];
  at_root = refl;
  value = refl;
  holds = arena-Holds;
  partition = arena-IsPartition;
  unique = value-HasUniqueKeys;
}

get_value-value_at_example : get_value model b ≡ (parse b >>= value_at value)
get_value-value_at_example = get_value-value_at model value model-IsModel b

contains-value_at_example : Model.contains model b ≡ has_value (parse b >>= value_at value)
contains-value_at_example = contains-value_at model value model-IsModel b

build-Built_example : Built value 0 arena (0 ∷ 1 ∷ 2 ∷ []) (build value 0 arena)
build-Built_example =
    build-Built value 0 arena (0 ∷ 1 ∷ 2 ∷ []) (3 ∷ []) arena-IsPartition (omega arith)

free_subtree-Freed_example : Freed arena [] (free_subtree 3 0 arena)
free_subtree-Freed_example =
    free_subtree-Freed 3 arena node_id_none tree [] (3 ∷ []) arena-Holds arena-IsPartition
      (omega arith)

build_value-tree_example : build_value 3 arena 0 ≡ ok value
build_value-tree_example =
    build_value-tree 3 arena node_id_none tree arena-Holds value-HasUniqueKeys (omega arith)

resolve-lookup_example :
    resolve arena 0 (key b ∷ index 0 ∷ []) ≡ roots (lookup tree (key b ∷ index 0 ∷ []))
resolve-lookup_example =
    resolve-lookup arena node_id_none tree (key b ∷ index 0 ∷ []) (omega arith) arena-Holds

release-allocate_stale_example :
    (after : Arena) × ((release 0 arena >>= allocate array_type) ≡ ok (0, after))
    × (matches 0 0 after ≡ false)
release-allocate_stale_example =
    release-allocate_stale arena (1 ∷ 2 ∷ []) (3 ∷ []) 0
      (object_node 0 ((a, 1) ∷ (b, 2) ∷ []) node_id_none) array_type arena-IsPartition refl refl
      (omega arith)

assign_contents-Assigned_example :
    Assigned value node_id_none arena tree [] (assign_contents 2 0 value arena)
assign_contents-Assigned_example =
    assign_contents-Assigned 2 value node_id_none arena tree [] (3 ∷ []) arena-Holds
      arena-IsPartition refl (omega arith) (omega arith)

abbrev children : Members
children = member a (scalar (int64 (pos 5))) (member b (array no_elements) no_members)

children_valid : validate_tree (object children) 0 ≡ ok tt
unfolding validate_tree is_addressable_key
children_valid = refl

from_value-IsModel_example :
    (m : ConfigModel) × (from_value (object children) ≡ ok m) × IsModel m (object children)
from_value-IsModel_example =
    from_value-IsModel children children_valid value-HasUniqueKeys (omega arith)

get_value-from_value_example :
    (m : ConfigModel) × (from_value (object children) ≡ ok m)
    × ((path : Bytes) → get_value m path ≡ (parse path >>= value_at (object children)))
get_value-from_value_example =
    get_value-from_value children children_valid value-HasUniqueKeys (omega arith)

free_subtree-stale_example :
    (after : Arena) × (free_subtree 3 0 arena ≡ ok (tt, after))
    × ((i g : ℕ) → count i (ids tree) ≢ 0 → matches i g after ≡ false)
free_subtree-stale_example =
    free_subtree-stale 3 arena node_id_none tree [] (3 ∷ []) arena-Holds arena-IsPartition
      (omega arith)

set-set_value_example :
    Commits model
      (set_value value a (scalar (int64 (pos 7))))
      (set model a (scalar (int64 (pos 7))))
set-set_value_example =
    set-set_value model value model-IsModel a (scalar (int64 (pos 7))) tt (omega arith)

remove-remove_value_example : Commits model (remove_value value b) (remove model b)
remove-remove_value_example = remove-remove_value model value model-IsModel b

to_json-value_of_example :
    to_json 3 arena (handle_of tree node_id_none) ≡ if_finite (all_finite value) value
to_json-value_of_example = to_json-value_of 3 arena node_id_none tree arena-Holds (omega arith)

abbrev saved : ConfigValue
saved = object (
    member version_key (scalar (int64 (pos 3)))
      (member a (scalar (int64 (pos 5))) (member b (array no_elements) no_members)))

model-document : document_of (record { version = 3; model = model }) ≡ ok saved
unfolding document_of Model.root config_manager.Arena.get config_manager.Node.members
    config_manager.Node.type config_manager.Node.scalar_value config_manager.Node.size
model-document = refl

abbrev print : ConfigValue → Called Bytes
print document = returned (b'{' ∷ b'}' ∷ [])

abbrev accept : Bytes → Called Bool
accept text = returned true

save-saved_of_example :
    save print accept (record { version = 3; model = model }) ≡ saved_of print accept 3 children
save-saved_of_example = save-saved_of print accept 3 model children model-IsModel

abbrev saved_text : Bytes
saved_text = b'{' ∷ b'}' ∷ b'\n' ∷ []

abbrev point : ℕ → Bytes
point bits = b'.' ∷ []

-- A parser that knows the one text.
abbrev parser : Bytes → List Event
parser text = if bytes_eq text saved_text then value_events point saved [] else syntax_error ∷ []

abbrev limits : LoadLimits
limits = record { max_input_bytes = 3; max_nodes = 3 }

abbrev good : IoState
good = record { eofbit = false; failbit = false; badbit = false }

abbrev stored : List (Called Bytes)
stored = returned (b'{' ∷ []) ∷ returned (b'}' ∷ b'\n' ∷ []) ∷ returned [] ∷ []

prints : saved_of print accept 3 children ≡ ok saved_text
unfolding has_key bytes_eq
prints = refl

saves : save print accept (record { version = 3; model = model }) ≡ ok saved_text
saves = save-saved_of print accept 3 model children model-IsModel ∙ prints

abbrev body_of : Called Bytes → Bytes
body_of (returned body) = body
body_of _ = []

parses :
    (body : Bytes)
    → print saved ≡ returned body
    → parser (body ++ b'\n' ∷ []) ≡ value_events point saved []
unfolding bytes_eq
parses body e =
    subst (λ b. parser (b ++ b'\n' ∷ []) ≡ value_events point saved []) (ap body_of e) refl

load-save_example :
    (back : ConfigModel) × (load parser limits
        (record { rdbuf = some stored; rdstate = good; exceptions = good })
      ≡ (ok (record { version = 3; model = back }), at_end good))
    × IsModel back (object children)
load-save_example =
    load-save parser point print accept limits 3 model children saved_text stored good good
      (λ d. refl) parses model-IsModel children_valid (omega arith, (tt, tt)) (omega arith)
      (omega arith) (omega arith) saves refl (omega arith) refl
