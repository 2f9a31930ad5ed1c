-- ===== src/Awgconf/Accept.antt =====
-- The checks at the end of awgconf.Parse, in internal/awgconf/config.go.
use lotsman.Prelude.{
  ℕ, ◌+◌, ◌-◌, Bool, Option, none, some, List, [], ◌∷◌, any, ltb, ◌==◌, nat_eq, if◌then◌else◌,
}
use lotsman.Bytes.{Text}
use lotsman.Wire.{Oversized, check_wire_sizes}
use lotsman.Awgconf.{Params, Peer, Config, is_zero_key, signatures, wire_params}

pub data Refusal : Type 0 where
  no_private_key jmin_above_jmax too_many_packets junk_size : Refusal
  no_public_key : ℕ → Refusal
  wire : Oversized → Refusal

-- strings.Contains(signature, "<")
abbrev has_tag : Text → Bool
has_tag t = any (λ b. b == b'<') t

-- The initiation, the junk packets and the signatures that have a tag.
unfoldable pub tagged : List Text → ℕ
unfolding any
tagged [] = 0
tagged (t ∷ ts) = let rest = tagged ts in if has_tag t then 1 + rest else rest

unfoldable pub packets : Params → ℕ
unfolding tagged
packets p = p.jc + 1 + tagged (signatures p)

-- The upper bound is exclusive, except for a fixed size.
unfoldable pub largest_junk : Params → ℕ
largest_junk p = if ltb p.jmin p.jmax then p.jmax - 1 else p.jmax

unfoldable pub keyless_peer : ℕ → List Peer → Option Refusal
keyless_peer n [] = none
keyless_peer n (p ∷ ps) =
    let rest = keyless_peer (n + 1) ps in
    if is_zero_key p.public_key then some (no_public_key n) else rest

unfoldable pub junk_refused : Params → Option Refusal
unfolding packets largest_junk
junk_refused p =
    if ltb 0 p.jc
    then if ltb p.jmax p.jmin
      then some jmin_above_jmax
      else if ltb 128 (packets p)
      then some too_many_packets
      else if ltb 65527 (largest_junk p)
      then some junk_size
      else none
    else none

abbrev pub first_refusal : Option Refusal → Option Refusal → Option Refusal
first_refusal (some e) rest = some e
first_refusal none rest = rest

abbrev pub oversized : Option Oversized → Option Refusal
oversized none = none
oversized (some e) = some (wire e)

unfoldable pub refused : Config → Option Refusal
unfolding keyless_peer junk_refused check_wire_sizes
refused c =
    if is_zero_key c.interface.private_key
    then some no_private_key
    else first_refusal (keyless_peer 1 c.peers) (
        first_refusal (junk_refused c.interface.params)
          (oversized (check_wire_sizes (wire_params c.interface.params) 65527)))
