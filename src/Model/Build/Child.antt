-- ===== src/Model/Build/Child.antt =====
-- A child that was built and then linked into its parent's slot.
use config_manager.Common.{
  ℕ, ◌≡◌, ◌≢◌, ◌∙◌, true, List, ◌∷◌, ◌++◌, some, get_elem?, length, length-set, count, count-append,
  arith, Result, ok,
}
use config_manager.Value.{ConfigValue}
use config_manager.Arena.{Arena, Node, write_node}
use config_manager.Arena.Slots.{IsPartition, IsPartition-write}
use config_manager.Arena.State.{modify}
use config_manager.Arena.Actions.{modify-ok}
use config_manager.Model.Tree.{Tree, ids, Holds, frame}
use config_manager.Model.Build.Slot.{write_self, write_other}
use config_manager.Model.Build.{Built}

-- A child that was built, after its id was written into its parent's slot by `f`.
pub record Linked (id : ℕ) (f : Node → Node) (n : Node) (a : Arena) (owned : List ℕ) (child : Tree)
    (b : Arena) : Type 0 where
  pub arena : Arena
  pub frees : List ℕ
  pub returns : modify id f b ≡ ok (tt, arena)
  pub node : get_elem? arena.nodes id ≡ some (f n)
  pub holds : Holds arena.nodes id child
  pub partition : IsPartition arena (ids child ++ owned) frees
  pub others : (i : ℕ) → count i owned ≢ 0 → i ≢ id → get_elem? arena.nodes i ≡ get_elem? a.nodes i
  pub same_length : length arena.nodes ≡ length b.nodes

-- A slot of a child's is not one that was owned before.
pub not-owned :
    {a : Arena} {frees : List ℕ} (i : ℕ) (xs owned : List ℕ)
    → IsPartition a (xs ++ owned) frees
    → count i xs ≢ 0
    → count i owned ≡ 0
not-owned i xs owned p h = ground (arith, p.once i, count-append i xs owned)

pub ne_of_child :
    {a : Arena} {frees : List ℕ} (i id : ℕ) (xs owned : List ℕ)
    → IsPartition a (xs ++ owned) frees
    → count i xs ≢ 0
    → count id owned ≢ 0
    → i ≢ id
ne_of_child i id xs owned p hi hid e = hid (rw (← e) (not-owned i xs owned p hi))

pub link-Linked :
    {v : ConfigValue} {a : Arena} {owned : List ℕ} {out : Result (ℕ × Arena)} (id : ℕ)
    (f : Node → Node) (n : Node) (b : Built v id a owned out)
    → get_elem? a.nodes id ≡ some n
    → n.alive ≡ true
    → count id owned ≢ 0
    → Linked id f n a owned b.tree b.arena
link-Linked {a} {owned} id f n b en live mine =
    let here : get_elem? b.arena.nodes id ≡ some n = b.others id mine ∙ en in
    record {
      arena = write_node id (f n) b.arena;
      frees = b.frees;
      returns = modify-ok b.arena id here live f;
      node = write_self b.arena id n (f n) here;
      holds =
          frame b.arena.nodes _ id b.tree
            (λ i h.
              write_other b.arena id (f n) i
                (ne_of_child i id (ids b.tree) owned b.partition h mine))
            b.holds;
      partition =
          IsPartition-write id (f n) b.partition
            (ground (arith, count-append id (ids b.tree) owned));
      others = λ i h other. write_other b.arena id (f n) i other ∙ b.others i h;
      same_length = length-set b.arena.nodes id (f n);
    }

-- The later children leave an earlier one as it is.
pub keep_child :
    {a : Arena} {frees : List ℕ} (id : ℕ) (child : Tree) (owned : List ℕ) (ns ms : List Node)
    → IsPartition a (ids child ++ owned) frees
    → count id owned ≢ 0
    → ((i : ℕ) → count i (ids child ++ owned) ≢ 0 → i ≢ id → get_elem? ms i ≡ get_elem? ns i)
    → Holds ns id child
    → Holds ms id child
keep_child id child owned ns ms p mine same = frame ns ms id child (λ i h.
    same i (ground (arith, count-append i (ids child) owned))
      (ne_of_child i id (ids child) owned p h mine))

pub count-regroup :
    (i : ℕ) (xs ys zs : List ℕ) → count i (ys ++ (xs ++ zs)) ≡ count i ((xs ++ ys) ++ zs)
count-regroup i xs ys zs = omega (
  arith,
  count-append i ys (xs ++ zs),
  count-append i xs zs,
  count-append i (xs ++ ys) zs,
  count-append i xs ys,
)

pub count_root :
    (i id : ℕ) (xs owned : List ℕ) → count i (xs ++ (id ∷ owned)) ≡ count i ((id ∷ xs) ++ owned)
count_root i id xs owned = omega (arith, count-append i xs (id ∷ owned), count-append i xs owned)
