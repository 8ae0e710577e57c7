-- ===== src/Arena/Actions.antt =====
-- The actions on a live slot.
use config_manager.Common.{ℕ, ◌≡◌, refl, true, some, get_elem?, ok}
use config_manager.Arena.{Arena, Node, get, write_node}
use config_manager.Arena.State.{load, modify}

module _ (a : Arena) (id : ℕ) {n : Node} (here : get_elem? a.nodes id ≡ some n)
    (live : n.alive ≡ true) where
  pub get-ok : get id a ≡ ok n
  unfolding get
  get-ok = rw (here, live) refl

  pub load-ok : load id a ≡ ok (n, a)
  unfolding load
  load-ok = rw get-ok refl

  pub modify-ok : (f : Node → Node) → modify id f a ≡ ok (tt, write_node id (f n) a)
  unfolding modify
  modify-ok f = rw get-ok refl
