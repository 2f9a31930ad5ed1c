-- ===== src/Mtu/Bounds.antt =====
-- mtu.Client returns the greatest size that fits every tunnel.
use lotsman.Prelude.{
  ℕ, ◌-◌, inl, inr, ◌↔◌, List, [], ◌∷◌, arith, ℤ, pos, ◌-ℤ◌, ◌≤ℤ◌, ltb_ℤ, Bool-cases, All,
}
use lotsman.Mtu.{Upstream, overhead, ethernet, effective, narrow, narrow_all, client}

-- A packet of `n` bytes, padded by S4, fits the upstream's tunnel.
abbrev pub Fits : ℤ → Upstream → Type 0
Fits n u = n ≤ℤ (effective u.mtu -ℤ pos u.s4)

narrow_iff : (n best : ℤ) (u : Upstream) → (n ≤ℤ narrow best u) ↔ ((n ≤ℤ best) × Fits n u)
unfolding narrow
narrow_iff n best u = elim (Bool-cases (ltb_ℤ (effective u.mtu -ℤ pos u.s4) best)) [
  | inl e ↦ ground arith
  | inr e ↦ ground arith
]

narrow_all_iff :
    (n best : ℤ) (us : List Upstream) → (n ≤ℤ narrow_all best us) ↔ ((n ≤ℤ best) × All (Fits n) us)
unfolding narrow_all
narrow_all_iff n best [] = (λ h. (h, tt), λ h. h.0)
narrow_all_iff n best (u ∷ us) =
    let rest = narrow_all_iff n (narrow best u) us in
    let one = narrow_iff n best u in
    (
      λ h. ((one.0 (rest.0 h).0).0, ((one.0 (rest.0 h).0).1, (rest.0 h).1)),
      λ h. rest.1 (one.1 (h.0, h.1.0), h.1.1),
    )

-- A packet size is at most the client MTU exactly when, with the downstream padding and one
-- encapsulation, it fits the Ethernet path, and with the padding of each upstream it fits that
-- upstream's tunnel.
pub client_iff :
    (n : ℤ) (s4_down : ℕ) (us : List Upstream)
    → (n ≤ℤ client s4_down us)
      ↔ ((n ≤ℤ (pos (ethernet - overhead) -ℤ pos s4_down)) × All (Fits n) us)
unfolding client
client_iff n s4_down us = narrow_all_iff n (pos (ethernet - overhead) -ℤ pos s4_down) us
