-- ===== src/Awgconf/Sound/Checks.antt =====
-- The checks at the end of Parse, in internal/awgconf/config.go, as what they ask for.
use lotsman.Prelude.{
  ℕ, ◌+◌, ◌<◌, ◌≤◌, ◌≡◌, refl, ◌↔◌, Bool, false, Option, none, some, List, [], ◌∷◌, nat_eq, arith,
  All, if◌then◌else◌, ◌⊎◌,
}
use lotsman.Wire.{Oversized, check_wire_sizes, initiation_size, response_size, cookie_reply_size}
use lotsman.Wire.Bounds.{IsBounded, check_wire_sizes_iff}
use lotsman.Awgconf.{Params, Peer, Config, is_zero_key, signatures, wire_params}
use lotsman.Awgconf.Accept.{
  Refusal, no_private_key, refused, first_refusal, oversized, junk_refused, keyless_peer, packets,
  largest_junk,
}

-- Junk is off, or in order, few enough packets with the signatures, and small enough.
abbrev pub IsJunk : Params → Type 0
IsJunk p =
    (p.jc ≡ 0)
    ⊎ ((packets p ≤ 128)
        × (((p.jmin ≡ p.jmax) × (p.jmax ≤ 65527)) ⊎ ((p.jmin < p.jmax) × (p.jmax ≤ 65528))))

junk_refused_iff : (p : Params) → (junk_refused p ≡ none) ↔ IsJunk p
unfolding junk_refused largest_junk
junk_refused_iff p = (λ h. ground (arith, h), λ h. ground (arith, h))

keyless-All :
    (n : ℕ) (ps : List Peer)
    → keyless_peer n ps ≡ none
    → All (λ (p : Peer). is_zero_key p.public_key ≡ false) ps
unfolding keyless_peer
keyless-All n [] h = tt
keyless-All n (p ∷ ps) h = (ground (arith, h), keyless-All (n + 1) ps (ground (arith, h)))

All-keyless :
    (n : ℕ) (ps : List Peer)
    → All (λ (p : Peer). is_zero_key p.public_key ≡ false) ps
    → keyless_peer n ps ≡ none
unfolding keyless_peer
All-keyless n [] h = refl
All-keyless n (p ∷ ps) h = rw (h.0, keyless_peer) (All-keyless (n + 1) ps h.1)

-- What the checks at the end ask for.
abbrev pub IsAccepted : Config → Type 0
IsAccepted c =
    (is_zero_key c.interface.private_key ≡ false)
    × All (λ (p : Peer). is_zero_key p.public_key ≡ false) c.peers
    × IsJunk c.interface.params
    × (c.interface.params.s1 + initiation_size ≤ 65527)
    × (c.interface.params.s2 + response_size ≤ 65527)
    × (c.interface.params.s3 + cookie_reply_size ≤ 65527)
    × All (IsBounded 65527) (signatures c.interface.params)

-- One check after the other.
chain_iff :
    (z : Bool) (a b : Option Refusal) (o : Option Oversized)
    → ((if z then some no_private_key else first_refusal a (first_refusal b (oversized o))) ≡ none)
      ↔ ((z ≡ false) × (a ≡ none) × (b ≡ none) × (o ≡ none))
chain_iff z a b o = (λ h. ground (arith, h), λ h. ground (arith, h))

pub refused_iff : (c : Config) → (refused c ≡ none) ↔ IsAccepted c
unfolding refused
refused_iff c =
    let p = c.interface.params in
    let sizes = check_wire_sizes_iff (wire_params p) 65527 in
    let chain =
      chain_iff (is_zero_key c.interface.private_key) (keyless_peer 1 c.peers) (junk_refused p)
        (check_wire_sizes (wire_params p) 65527) in
    (
      λ h.
          let (z, k, j, w) = chain.0 h in
          (
            z,
            keyless-All 1 c.peers k,
            (junk_refused_iff p).0 j,
            (sizes.0 w).0,
            (sizes.0 w).1,
            (sizes.0 w).2,
            (sizes.0 w).3,
          ),
      λ h. chain.1 (
        h.0,
        All-keyless 1 c.peers h.1,
        (junk_refused_iff p).1 h.2,
        sizes.1 (h.3, h.4, h.5, h.6),
      ),
    )
