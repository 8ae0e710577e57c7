-- ===== src/Json/Limits.antt =====
-- What ValueBuilder of JsonInterface::load keeps within the limits: the nodes and the depth of the value
-- that it builds, and the version number.
use mathlib.Core.Path.{subst}
use config_manager.Common.{
  ℕ, suc, ◌+◌, ◌≤◌, ◌≡◌, refl, sym, ap, ◌∙◌, ltb, ltb-false, ◌==◌, Bytes, Bool, true, false,
  Bool-cases, inl, inr, if◌then◌else◌, List, [], ◌∷◌, length, Option, none, some, arith, Result,
  ErrorCode, ok, err, ok_injective, bind_ok, any, not, ◌&&◌, bytes_eq,
}
use config_manager.Path.{is_empty}
use config_manager.Value.{
  ConfigValue, Scalar, scalar, int64, contains_key, empty_object, empty_array,
}
use config_manager.Common.Int.{pos}
use config_manager.Model.Read.{max_tree_depth}
use config_manager.Model.Tree.{nodes_in}
use config_manager.Json.Measure.{
  inside, IsShallow, nodes_in-inside, inside-fill_frame, IsShallow-fill_frame,
}
use config_manager.Json.{
  Event, null_event, boolean, number_integer, number_unsigned, number_float, string_event,
  start_object, key_event, end_object, start_array, end_array, syntax_error, exception, Frame,
  ValueBuilder, max_version, max_int, version_key, is_path_addressable, is_float_byte, consume_node,
  fill_frame, fill_top, attach, pop_frame, on_scalar, on_unsigned, on_float, open_frame, on_key,
  handle, run,
}

-- A success behind a guard.
guard_ok :
    {A : Type 0} (t : Bool) (e : ErrorCode) (x : Result A) {y : A}
    → (if t then err e else x) ≡ ok y
    → (t ≡ false) × (x ≡ ok y)
guard_ok true e x h = cc
guard_ok false e x h = (refl, h)

else_of : {A : Type 0} (t : Bool) (x y : A) {z : A} → t ≡ false → (if t then x else y) ≡ z → y ≡ z
else_of true x y e h = cc
else_of false x y e h = h

abbrev pub FitsVersion : Option ℕ → Type 0
FitsVersion none = Unit {0}
FitsVersion (some v) = v ≤ max_version

-- The nodes that the open containers hold.
abbrev pub held : List Frame → ℕ
held [] = 0
held (f ∷ fs) = inside f.container + held fs

abbrev pub root_nodes : Option ConfigValue → ℕ
root_nodes none = 0
root_nodes (some v) = nodes_in v

-- Each open container is as deep as the number of those below it.
abbrev pub AreShallow : List Frame → Type 0
AreShallow [] = Unit {0}
AreShallow (f ∷ fs) = IsShallow (length fs) f.container × AreShallow fs

abbrev pub IsShallowRoot : Option ConfigValue → Type 0
IsShallowRoot none = Unit {0}
IsShallowRoot (some v) = IsShallow 0 v

pub record IsWithin (max : ℕ) (b : ValueBuilder) : Type 0 where
  pub few : b.nodes ≤ max
  pub counted : held b.stack + root_nodes b.root ≤ b.nodes
  pub shallow : AreShallow b.stack
  pub shallow_root : IsShallowRoot b.root
  pub fits : FitsVersion b.version

module _ (max : ℕ) where
  consume_node-next :
      (b c : ValueBuilder)
      → consume_node max b ≡ ok c
      → b.nodes ≤ max
      → (record b { nodes = suc b.nodes } ≡ c) × (suc b.nodes ≤ max)
  unfolding consume_node
  consume_node-next b c h few = elim (Bool-cases (b.nodes == max)) [
    | inl full ↦ absurd (ground arith)
    | inr more ↦ (ok_injective (rw more at h), ground arith)
  ]

  -- The top frame of a builder that counts the value already takes it in.
  fill_top-IsWithin :
      (v : ConfigValue) (b c : ValueBuilder) (fs : List Frame)
      → fill_top v b fs ≡ ok c
      → b.nodes ≤ max
      → held fs + root_nodes b.root + nodes_in v ≤ b.nodes
      → AreShallow fs
      → IsShallow (length fs) v
      → IsShallowRoot b.root
      → FitsVersion b.version
      → IsWithin max c
  unfolding fill_top
  fill_top-IsWithin v b c [] h few room s sv r fits = cc
  fill_top-IsWithin v b c (f ∷ fs) h few room (sf, s) sv r fits =
      bind_ok (fill_frame v f) _ h λ g e k. subst (IsWithin max) (ok_injective k) (record {
        few = few;
        counted = omega (arith, room, inside-fill_frame v f g e);
        shallow = (IsShallow-fill_frame (length fs) v f g e sf sv, s);
        shallow_root = r;
        fits = fits;
      })

  -- A value is attached: a scalar, or a container that was shallow where it was open.
  attach-IsWithin :
      (v : ConfigValue) (b c : ValueBuilder)
      → attach max v b ≡ ok c
      → b.nodes ≤ max
      → held b.stack + root_nodes b.root + inside v ≤ b.nodes
      → AreShallow b.stack
      → (length b.stack ≤ max_tree_depth → IsShallow (length b.stack) v)
      → IsShallowRoot b.root
      → FitsVersion b.version
      → IsWithin max c
  unfolding attach
  attach-IsWithin v b c h few room s sv r fits =
      elim (Bool-cases (ltb max_tree_depth (length b.stack))) [
        | inl deep ↦ absurd (ground arith)
        | inr free ↦ bind_ok (consume_node max b) _ (rw free at h) λ d e k.
            let (same, more) = consume_node-next b d e few in
            let k' : fill_top v (record b { nodes = suc b.nodes }) b.stack ≡ ok c =
              subst (λ x. fill_top v x x.stack ≡ ok c) (sym same) k in
            fill_top-IsWithin v (record b { nodes = suc b.nodes }) c b.stack k' more
              (omega (arith, room, nodes_in-inside v)) s
              (sv (ltb-false max_tree_depth (length b.stack) free)) r fits
      ]

  pop_frame-IsWithin :
      (b c : ValueBuilder) (fs : List Frame)
      → pop_frame max b fs ≡ ok c
      → b.nodes ≤ max
      → held fs + root_nodes b.root ≤ b.nodes
      → AreShallow fs
      → IsShallowRoot b.root
      → FitsVersion b.version
      → IsWithin max c
  unfolding pop_frame
  pop_frame-IsWithin b c [] h few room s r fits = cc
  pop_frame-IsWithin b c (f ∷ []) h few room (sf, s) r fits =
      bind_ok (consume_node max (record b { stack = [] })) _ h λ d e k.
        let (same, more) = consume_node-next (record b { stack = [] }) d e few in
        subst (IsWithin max)
          (ap (λ (x : ValueBuilder). record x { root = some f.container }) same ∙ ok_injective k)
          (record {
            few = more;
            counted = omega (arith, room, nodes_in-inside f.container);
            shallow = tt;
            shallow_root = sf;
            fits = fits;
          })
  pop_frame-IsWithin b c (f ∷ g ∷ fs) h few room (sf, s) r fits =
      attach-IsWithin f.container (record b { stack = g ∷ fs }) c h few (omega (arith, room)) s
        (λ _. sf) r fits

  attach_scalar-IsWithin :
      (s : Scalar) (b c : ValueBuilder)
      → attach max (scalar s) b ≡ ok c
      → IsWithin max b
      → IsWithin max c
  attach_scalar-IsWithin s b c h w =
      attach-IsWithin (scalar s) b c h w.few (omega (arith, w.counted)) w.shallow (λ room. room)
        w.shallow_root w.fits

  on_scalar-IsWithin :
      (s : Scalar) (b c : ValueBuilder)
      → on_scalar max (scalar s) b ≡ ok c
      → IsWithin max b
      → IsWithin max c
  unfolding on_scalar
  on_scalar-IsWithin s b c h w =
      let h₁ = guard_ok (is_empty b.stack) _ _ h in
      let h₂ = guard_ok b.next_is_carrier _ _ h₁.1 in attach_scalar-IsWithin s b c h₂.1 w

  on_unsigned-IsWithin :
      (n : ℕ) (b c : ValueBuilder) → on_unsigned max n b ≡ ok c → IsWithin max b → IsWithin max c
  unfolding on_unsigned
  on_unsigned-IsWithin n b c h w =
      let h₁ = guard_ok (is_empty b.stack) _ _ h in
      elim (Bool-cases b.next_is_carrier) [
        | inl carrier ↦
            let h₂ = guard_ok (ltb max_version n) _ _ (rw carrier at h₁.1) in
            subst (IsWithin max) (ok_injective h₂.1) (record {
              few = w.few;
              counted = w.counted;
              shallow = w.shallow;
              shallow_root = w.shallow_root;
              fits = ground (arith, h₂.0);
            })
        | inr value ↦
            let h₂ = guard_ok (ltb max_int n) _ _ (else_of b.next_is_carrier _ _ value h₁.1) in
            attach_scalar-IsWithin (int64 (pos n)) b c h₂.1 w
      ]

  on_float-IsWithin :
      (bits : ℕ) (literal : Bytes) (b c : ValueBuilder)
      → on_float max bits literal b ≡ ok c
      → IsWithin max b
      → IsWithin max c
  unfolding on_float
  on_float-IsWithin bits literal b c h w =
      let h₁ = guard_ok (is_empty b.stack) _ _ h in
      let h₂ = guard_ok b.next_is_carrier _ _ h₁.1 in
      elim (Bool-cases (any is_float_byte literal)) [
        | inl real ↦ attach_scalar-IsWithin _ b c (rw real at h₂.1) w
        | inr integral ↦ absurd (ground (arith, h₂.1))
      ]

  open_frame-IsWithin :
      (v : ConfigValue) (b c : ValueBuilder)
      → open_frame v b ≡ ok c
      → inside v ≡ 0
      → ((d : ℕ) → d ≤ max_tree_depth → IsShallow d v)
      → IsWithin max b
      → IsWithin max c
  unfolding open_frame
  open_frame-IsWithin v b c h empty sv w =
      let h₁ = guard_ok b.next_is_carrier _ _ h in
      let h₂ = guard_ok (ltb max_tree_depth (length b.stack)) _ _ h₁.1 in
      subst (IsWithin max) (ok_injective h₂.1) (record {
        few = w.few;
        counted = omega (arith, empty, w.counted);
        shallow = (sv (length b.stack) (ltb-false max_tree_depth (length b.stack) h₂.0), w.shallow);
        shallow_root = w.shallow_root;
        fits = w.fits;
      })

  on_key-IsWithin :
      (k : Bytes) (b c : ValueBuilder) (fs : List Frame)
      → b.stack ≡ fs
      → on_key k b fs ≡ ok c
      → IsWithin max b
      → IsWithin max c
  unfolding on_key
  on_key-IsWithin k b c [] same h w = absurd (ground arith)
  on_key-IsWithin k b c (f ∷ fs) same h w =
      let h₁ = guard_ok (not (is_path_addressable k)) _ _ h in
      elim (Bool-cases (is_empty fs && bytes_eq k version_key)) [
        | inl carrier ↦
            let h₂ = guard_ok b.saw_version_key _ _ (rw carrier at h₁.1) in
            subst (IsWithin max) (ok_injective h₂.1) (record {
              few = w.few;
              counted = w.counted;
              shallow = w.shallow;
              shallow_root = w.shallow_root;
              fits = w.fits;
            })
        | inr named ↦
            let h₂ = guard_ok (contains_key f.container k) _ _ (rw named at h₁.1) in
            subst (IsWithin max) (ok_injective h₂.1) (record {
              few = w.few;
              counted = subst (λ x. held x + root_nodes b.root ≤ b.nodes) same w.counted;
              shallow = subst AreShallow same w.shallow;
              shallow_root = w.shallow_root;
              fits = w.fits;
            })
      ]

  handle-IsWithin :
      (e : Event) (b c : ValueBuilder) → handle max e b ≡ ok c → IsWithin max b → IsWithin max c
  unfolding handle
  handle-IsWithin null_event b c h w = on_scalar-IsWithin _ b c h w
  handle-IsWithin (boolean v) b c h w = on_scalar-IsWithin _ b c h w
  handle-IsWithin (number_integer z) b c h w = on_scalar-IsWithin _ b c h w
  handle-IsWithin (number_unsigned n) b c h w = on_unsigned-IsWithin n b c h w
  handle-IsWithin (number_float bits literal) b c h w = on_float-IsWithin bits literal b c h w
  handle-IsWithin (string_event s) b c h w = on_scalar-IsWithin _ b c h w
  handle-IsWithin start_object b c h w =
      open_frame-IsWithin empty_object b c h refl (λ d room. (room, tt)) w
  handle-IsWithin (key_event k) b c h w = on_key-IsWithin k b c b.stack refl h w
  handle-IsWithin end_object b c h w =
      pop_frame-IsWithin b c b.stack h w.few w.counted w.shallow w.shallow_root w.fits
  handle-IsWithin start_array b c h w =
      open_frame-IsWithin empty_array b c (guard_ok (is_empty b.stack) _ _ h).1 refl
        (λ d room. (room, tt)) w
  handle-IsWithin end_array b c h w =
      pop_frame-IsWithin b c b.stack h w.few w.counted w.shallow w.shallow_root w.fits
  handle-IsWithin syntax_error b c h w = cc
  handle-IsWithin exception b c h w = cc

  -- A builder within the limits stays within them over every sequence of events that it accepts. It
  -- counts at most `max` nodes, and at least those of the finished root and of what the open
  -- containers hold, so that a document of more nodes is not accepted; no value of the root or of an
  -- open container is deeper than the depth limit; and the version is a 32-bit number.
  pub run-IsWithin :
      (es : List Event) (b c : ValueBuilder) → run max es b ≡ ok c → IsWithin max b → IsWithin max c
  unfolding run
  run-IsWithin [] b c h w = subst (IsWithin max) (ok_injective h) w
  run-IsWithin (e ∷ es) b c h w =
      bind_ok (handle max e b) _ h λ d k h'. run-IsWithin es d c h' (handle-IsWithin e b d k w)
