-- ===== src/Loading/Usable.antt =====
-- What LoadUpstream of internal/daemon/upstream.go makes sure of, and the client MTU over upstreams that
-- it loaded.
use lotsman.Prelude.{
  ℕ, ◌+◌, ◌-◌, ◌≤◌, ◌≡◌, refl, sym, ap, ◌∙◌, subst, Bool, true, false, not, ◌&&◌, Option, none,
  some, List, [], ◌∷◌, find, ◌==◌, nat_eq, In, All, map, ℤ, pos, ◌-ℤ◌, ltb_ℤ, ◌≤ℤ◌, Bool-cases, inl,
  inr, ◌⊎◌, arith, any-In,
}
use mathlib.Core.Option.{some-injective}
use lotsman.Bytes.{Text}
use lotsman.Config
use lotsman.Mtu
use lotsman.Mtu.{effective, client, ethernet, overhead}
use lotsman.Mtu.Bounds.{client_iff, Fits}
use lotsman.Wire.{Oversized, check_wire_sizes, initiation_size, response_size, cookie_reply_size}
use lotsman.Wire.Bounds.{IsBounded, check_wire_sizes_iff}
use lotsman.Awgconf.{Params, Peer, Config, Codec, IpPrefix, wire_params, signatures}
use lotsman.Awgconf.Parse.{Result, ok, err}
use lotsman.Awgconf.Scan.{parse, ParseError}
use lotsman.Awgconf.Accept.{largest_junk}
use lotsman.Awgconf.Sound.{Holds, ok-Holds, err-Holds}
use lotsman.Health.{new_tracker}
use lotsman.Identity.Fresh.{AreFresh}
use lotsman.Loading.{
  Network, LoadError, Upstream, ◌>>=◌, reject, require, parsed, routes_everything, first_ipv4,
  resolve_endpoint, payload_limit, check_junk, check_sizes, check_mtu, single_peer, load_upstream,
  mtu_small, mtu_large, unreadable, junk, not_everything, bad_resolved, no_ipv4,
}

-- A chain whose value has the property after each of its steps.
bind-Holds :
    {A B : Type 0} {P : A → Type 0} {Q : B → Type 0} (m : Result LoadError A)
    (f : A → Result LoadError B)
    → Holds P m
    → ((a : A) → P a → Holds Q (f a))
    → Holds Q (m >>= f)
bind-Holds (err e) f h g = err-Holds e
bind-Holds (ok a) f h g = g a h.holds

reject-Holds : (b : Bool) (e : LoadError) → Holds (λ (x : Unit {0}). b ≡ false) (reject b e)
reject-Holds true e = err-Holds e
reject-Holds false e = ok-Holds tt refl

require-Holds : {A : Type 0} (o : Option A) (e : LoadError) → Holds (λ a. o ≡ some a) (require o e)
require-Holds none e = err-Holds e
require-Holds (some a) e = ok-Holds a refl

parsed-Holds : (r : Result ParseError Config) → Holds (λ c. r ≡ ok c) (parsed r)
parsed-Holds (err e) = err-Holds _
parsed-Holds (ok c) = ok-Holds c refl

single_peer-Holds : (ps : List Peer) → Holds (λ p. ps ≡ p ∷ []) (single_peer ps)
unfolding single_peer
single_peer-Holds [] = err-Holds _
single_peer-Holds (p ∷ []) = ok-Holds p refl
single_peer-Holds (p ∷ q ∷ ps) = err-Holds _

weaken-Holds :
    {A : Type 0} {P Q : A → Type 0} {r : Result LoadError A}
    → Holds P r
    → ((a : A) → P a → Q a)
    → Holds Q r
weaken-Holds {r = err e} h f = err-Holds e
weaken-Holds {r = ok a} h f = ok-Holds a (f a h.holds)

check_mtu-Holds :
    (m : ℤ) (s4 payload_max : ℕ)
    → Holds
        (λ (x : Unit {0}). (pos (68 + s4) ≤ℤ m) × (m ≤ℤ (pos payload_max -ℤ pos (32 + s4))))
        (check_mtu m s4 payload_max)
unfolding check_mtu
check_mtu-Holds m s4 payload_max =
    bind-Holds (reject (ltb_ℤ m (pos (68 + s4))) mtu_small) _ (reject-Holds _ _) (λ x small.
      weaken-Holds (reject-Holds _ mtu_large)
        (λ y large. (ground (arith, small), ground (arith, large))))

find-In :
    {A : Type 0} (test : A → Bool) (xs : List A) (a : A)
    → find test xs ≡ some a
    → In a xs × (test a ≡ true)
find-In test [] a h = absurd (ground (arith, h))
find-In test (x ∷ xs) a h = elim (Bool-cases (test x)) [
  | inl e ↦ let same = some-injective x a (rw e at h) in (inl same, ap test (sym same) ∙ e)
  | inr e ↦ let (m, k) = find-In test xs a (rw e at h) in (inr m, k)
]

first_ipv4-In :
    (ps : List IpPrefix) (p : IpPrefix) → first_ipv4 ps ≡ some p → In p ps × (p.addr.is4 ≡ true)
unfolding first_ipv4
first_ipv4-In ps p h = find-In _ ps p h

-- There is an IPv4 prefix of no bits.
abbrev pub RoutesEverything : List IpPrefix → Type 0
RoutesEverything ps = (p : IpPrefix) × In p ps × (p.addr.is4 ≡ true) × (p.bits ≡ 0)

routes_everything-In : (ps : List IpPrefix) → routes_everything ps ≡ true → RoutesEverything ps
unfolding routes_everything
routes_everything-In ps h =
    let (p, m, e) = any-In (λ (p : IpPrefix). p.addr.is4 && (p.bits == 0)) ps h in
    (p, m, ground (arith, e), ground (arith, e))

-- Junk, the padded handshake messages and the signature packets fit the payload limit.
abbrev pub IsCarried : Params → ℕ → Type 0
IsCarried p limit =
    ((p.jc ≡ 0) ⊎ (largest_junk p ≤ limit))
    × (p.s1 + initiation_size ≤ limit)
    × (p.s2 + response_size ≤ limit)
    × (p.s3 + cookie_reply_size ≤ limit)
    × All (IsBounded limit) (signatures p)

check_junk-Holds :
    (p : Params) (limit : ℕ)
    → Holds (λ (x : Unit {0}). (p.jc ≡ 0) ⊎ (largest_junk p ≤ limit)) (check_junk p limit)
unfolding check_junk
check_junk-Holds p limit = weaken-Holds (reject-Holds _ (junk limit)) (λ x e. ground (arith, e))

check_sizes-Holds : (o : Option Oversized) → Holds (λ (x : Unit {0}). o ≡ none) (check_sizes o)
check_sizes-Holds none = ok-Holds tt refl
check_sizes-Holds (some e) = err-Holds _

resolved_Holds : (r : Result LoadError Text) → Holds (λ t. r ≡ ok t) r
resolved_Holds (err e) = err-Holds e
resolved_Holds (ok t) = ok-Holds t refl

abbrev pub IsUsable : Network → Codec → Upstream → Type 0
IsUsable net codec up =
    (c : Config) × (p : Peer) × (resolved : Text) × (v6 : Bool) × (net.read_file up.config.conf
      ≡ some up.source)
    × (parse codec up.source ≡ ok c)
    × (c.peers ≡ p ∷ [])
    × (up.conf ≡ record c { peers = record p { endpoint = resolved } ∷ [] })
    × (resolve_endpoint net p.endpoint ≡ ok resolved)
    × (net.addr_port resolved ≡ some v6)
    × RoutesEverything p.allowed_ips
    × In up.addr c.interface.addresses
    × (up.addr.addr.is4 ≡ true)
    × IsCarried c.interface.params (payload_limit v6)
    × (pos (68 + c.interface.params.s4) ≤ℤ up.mtu)
    × (up.mtu ≤ℤ (pos (payload_limit v6) -ℤ pos (32 + c.interface.params.s4)))

-- What the upstream says of its entry in the configuration and of its file: the entry itself, the
-- endpoint as the file has it, also where that is a name, the file's MTU or the default, the first
-- IPv4 address, and a tracker with the configured thresholds.
abbrev pub IsWritten : Codec → Config.Upstream → Config.Health → Upstream → Type 0
IsWritten codec u h up =
    (c : Config) × (p : Peer) × (parse codec up.source ≡ ok c)
    × (c.peers ≡ p ∷ [])
    × (up.config ≡ u)
    × (up.endpoint ≡ p.endpoint)
    × (up.mtu ≡ effective c.interface.mtu)
    × (first_ipv4 c.interface.addresses ≡ some up.addr)
    × (up.tracker ≡ new_tracker h.down_after h.up_after)

abbrev IsLoaded : Network → Codec → Config.Upstream → Config.Health → Upstream → Type 0
IsLoaded net codec u h up = IsUsable net codec up × IsWritten codec u h up

load_upstream-Holds :
    (net : Network) (codec : Codec) (u : Config.Upstream) (h : Config.Health)
    → Holds (IsLoaded net codec u h) (load_upstream net codec u h)
unfolding load_upstream
load_upstream-Holds net codec u h =
    bind-Holds (require (net.read_file u.conf) unreadable) _ (require-Holds _ _) (λ source e1.
      bind-Holds (parsed (parse codec source)) _ (parsed-Holds _) (λ c e2.
        bind-Holds (single_peer c.peers) _ (single_peer-Holds _) (λ p e3.
          bind-Holds (reject (not (routes_everything p.allowed_ips)) not_everything) _
            (reject-Holds _ _)
            (λ x e4.
              bind-Holds (resolve_endpoint net p.endpoint) _ (resolved_Holds _) (λ resolved e5.
                bind-Holds (require (net.addr_port resolved) bad_resolved) _ (require-Holds _ _)
                  (λ v6 e6.
                    bind-Holds (check_junk c.interface.params (payload_limit v6)) _
                      (check_junk-Holds c.interface.params (payload_limit v6))
                      (λ y e7.
                        bind-Holds
                          (check_sizes
                            (check_wire_sizes (wire_params c.interface.params) (payload_limit v6)))
                          _ (check_sizes-Holds _)
                          (λ z e8.
                            bind-Holds (require (first_ipv4 c.interface.addresses) no_ipv4) _
                              (require-Holds _ _)
                              (λ addr e9.
                                bind-Holds
                                  (check_mtu (effective c.interface.mtu) c.interface.params.s4
                                    (payload_limit v6))
                                  _
                                  (check_mtu-Holds (effective c.interface.mtu) c.interface.params.s4
                                    (payload_limit v6))
                                  (λ w e10.
                                    let sizes =
                                      (check_wire_sizes_iff (wire_params c.interface.params)
                                          (payload_limit v6)).0
                                        e8 in
                                    let a = first_ipv4-In c.interface.addresses addr e9 in
                                    ok-Holds _ (
                                      (
                                        c,
                                        p,
                                        resolved,
                                        v6,
                                        e1,
                                        e2,
                                        e3,
                                        refl,
                                        e5,
                                        e6,
                                        routes_everything-In p.allowed_ips (ground (arith, e4)),
                                        a.0,
                                        a.1,
                                        (e7, sizes.0, sizes.1, sizes.2, sizes.3),
                                        e10.0,
                                        e10.1,
                                      ),
                                      (c, p, e2, e3, refl, refl, refl, e9, refl),
                                    )))))))))))

-- An upstream that is loaded has one peer, which routes all of IPv4, and whose endpoint is an address
-- and port; an IPv4 address of its interface; junk, handshake and signature packets that fit the UDP
-- payload limit of the endpoint's family; and an MTU that with S4 is neither below 68 nor above what
-- that limit leaves. It keeps its configuration, and the endpoint, MTU and address that its file says,
-- the endpoint as it is written there; its tracker has the configured thresholds.
pub load_upstream-IsUsable :
    (net : Network) (codec : Codec) (u : Config.Upstream) (h : Config.Health) (up : Upstream)
    → load_upstream net codec u h ≡ ok up
    → IsUsable net codec up × IsWritten codec u h up
load_upstream-IsUsable net codec u h up e =
    (subst (Holds (IsLoaded net codec u h)) e (load_upstream-Holds net codec u h)).holds

abbrev pub mtu_of : Upstream → Mtu.Upstream
mtu_of up = record { mtu = up.mtu; s4 = up.conf.interface.params.s4 }

fits_lem : (m : ℤ) (s4 : ℕ) → pos (68 + s4) ≤ℤ m → Fits (pos 68) (record { mtu = m; s4 = s4 })
unfolding effective ◌-ℤ◌
fits_lem m s4 h = ground (arith, h)

padded : (s4 : ℕ) → s4 ≤ 16 → pos 68 ≤ℤ (pos (ethernet - overhead) -ℤ pos s4)
unfolding ◌-ℤ◌
padded s4 k = ground (arith, k)

usable-Fits :
    (net : Network) (codec : Codec) (up : Upstream)
    → IsUsable net codec up
    → Fits (pos 68) (mtu_of up)
usable-Fits net codec up (c, p, resolved, v6, e1, e2, e3, e4, e5, e6, r, i, k, f, low, high) =
    let same = ap (λ (d : Config). d.interface.params.s4) e4 in
    fits_lem up.mtu up.conf.interface.params.s4 (subst (λ s. pos (68 + s) ≤ℤ up.mtu) (sym same) low)

-- Over upstreams that were loaded, and with the paddings of a new identity, the MTU of the client
-- configurations is at least the 68 bytes that Linux asks of a TUN.
pub client-loaded :
    (net : Network) (codec : Codec) (params : Params) (ups : List Upstream)
    → AreFresh params
    → All (IsUsable net codec) ups
    → pos 68 ≤ℤ client params.s4 (map mtu_of ups)
client-loaded net codec params ups h us =
    (client_iff (pos 68) params.s4 (map mtu_of ups)).1 (padded params.s4 h.3.1, all_fit ups us)
  where
    all_fit :
        (ups : List Upstream) → All (IsUsable net codec) ups → All (Fits (pos 68)) (map mtu_of ups)
    all_fit [] us = tt
    all_fit (up ∷ ups) (u, us) = (usable-Fits net codec up u, all_fit ups us)
