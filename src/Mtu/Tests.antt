-- ===== src/Mtu/Tests.antt =====
-- Runs of mtu.Client, and its theorems at concrete inputs.
use lotsman.Prelude.{◌-◌, ◌≡◌, refl, ◌↔◌, List, [], ◌∷◌, pos, ◌-ℤ◌, ◌≤ℤ◌, All}
use lotsman.Mtu.{Upstream, overhead, ethernet, client}
use lotsman.Mtu.Bounds.{Fits, client_iff}

abbrev two_upstreams : List Upstream
two_upstreams = record { mtu = pos 0; s4 = 0 } ∷ record { mtu = pos 1280; s4 = 12 } ∷ []

client_run : client 8 two_upstreams ≡ pos 1268
unfolding client
client_run = refl

client_iff_example :
    (pos 1268 ≤ℤ client 8 two_upstreams)
    ↔ ((pos 1268 ≤ℤ (pos (ethernet - overhead) -ℤ pos 8)) × All (Fits (pos 1268)) two_upstreams)
client_iff_example = client_iff (pos 1268) 8 two_upstreams
