-- ===== src/Mtu.antt =====
-- internal/mtu/mtu.go: the largest packet that a client may send. Go's `int` is ℤ; a uint16 is a
-- number below 2 ^ 16, which no proof needs.
pub mod Bounds
pub mod Tests
use lotsman.Prelude.{ℕ, ◌-◌, List, [], ◌∷◌, ℤ, pos, ◌-ℤ◌, ltb_ℤ, eqb_ℤ, if◌then◌else◌}

abbrev pub overhead : ℕ
overhead = 60

abbrev pub default_wire_guard : ℕ
default_wire_guard = 1420

abbrev pub ethernet : ℕ
ethernet = 1500

pub record Upstream : Type 0 where
  pub mtu : ℤ
  pub s4 : ℕ

-- `m := u.MTU; if m == 0 { m = DefaultWireGuard }`
unfoldable pub effective : ℤ → ℤ
effective m = if eqb_ℤ m (pos 0) then pos default_wire_guard else m

-- One round of the loop: `best` after the upstream `u`.
unfoldable pub narrow : ℤ → Upstream → ℤ
unfolding effective ◌-ℤ◌
narrow best u = let fits = effective u.mtu -ℤ pos u.s4 in if ltb_ℤ fits best then fits else best

unfoldable pub narrow_all : ℤ → List Upstream → ℤ
unfolding narrow
narrow_all best [] = best
narrow_all best (u ∷ us) = narrow_all (narrow best u) us

unfoldable pub client : ℕ → List Upstream → ℤ
unfolding narrow_all ◌-ℤ◌
client s4_down us = narrow_all (pos (ethernet - overhead) -ℤ pos s4_down) us
