-- ===== src/Loading.antt =====
-- internal/daemon/upstream.go: an upstream from its provider's file, and its endpoint. The file system,
-- the resolver and net's and netip's texts of addresses with ports are a parameter.
pub mod Usable
pub mod Refresh
pub mod Tests
use lotsman.Prelude.{
  ℕ, ◌+◌, ◌-◌, ◌^◌, Bool, true, false, not, ◌&&◌, Option, none, some, List, [], ◌∷◌, length, String,
  ltb, ◌==◌, nat_eq, any, find, if◌then◌else◌, ℤ, pos, ◌-ℤ◌, ltb_ℤ,
}
use lotsman.Bytes.{Text, number, same_text}
use lotsman.Config
use lotsman.Mtu.{effective}
use lotsman.Health.{Tracker, new_tracker}
use lotsman.Wire.{Oversized, check_wire_sizes}
use lotsman.Awgconf.{Params, Interface, Peer, Config, Codec, IpAddr, IpPrefix, wire_params}
use lotsman.Awgconf.Parse.{Result, ok, err}
use lotsman.Awgconf.Scan.{ParseError, parse}
use lotsman.Awgconf.Accept.{largest_junk}

-- os.ReadFile; netip.ParseAddrPort, which says whether the address is IPv6, but not IPv4 in IPv6;
-- net.SplitHostPort; lookupNetIP for "ip4"; AddrPortFrom(addr.Unmap(), port).String().
pub record Network : Type 0 where
  pub read_file : String → Option Text
  pub addr_port : Text → Option Bool
  pub split_host_port : Text → Option (Text × Text)
  pub lookup : Text → Option (List IpAddr)
  pub print_addr_port : IpAddr → ℕ → Text

pub data LoadError : Type 0 where
  unreadable no_endpoint bad_endpoint bad_port unresolved no_address : LoadError
  not_everything bad_resolved no_ipv4 mtu_small mtu_large : LoadError
  invalid : ParseError → LoadError
  peer_count junk : ℕ → LoadError
  oversized : Oversized → LoadError

pub record Upstream : Type 0 where
  pub config : Config.Upstream
  pub conf : Config
  pub source : Text
  pub endpoint : Text
  pub addr : IpPrefix
  pub mtu : ℤ
  pub tracker : Tracker

infixl 5 ◌>>=◌ ◌>>◌
abbrev pub ◌>>=◌ :
    {A B : Type 0} → Result LoadError A → (A → Result LoadError B) → Result LoadError B
err e >>= f = err e
ok a >>= f = f a

abbrev pub ◌>>◌ :
    {B : Type 0} → Result LoadError (Unit {0}) → Result LoadError B → Result LoadError B
m >> k = m >>= λ _. k

-- `if bad { return err }`
abbrev pub reject : Bool → LoadError → Result LoadError (Unit {0})
reject true e = err e
reject false e = ok tt

-- `x, err := f(); if err != nil { return err }`
abbrev pub require : {A : Type 0} → Option A → LoadError → Result LoadError A
require none e = err e
require (some a) e = ok a

abbrev pub parsed : Result ParseError Config → Result LoadError Config
parsed (err e) = err (invalid e)
parsed (ok c) = ok c

unfoldable pub routes_everything : List IpPrefix → Bool
unfolding any
routes_everything ps = any (λ p. p.addr.is4 && (p.bits == 0)) ps

unfoldable pub first_ipv4 : List IpPrefix → Option IpPrefix
first_ipv4 ps = find (λ p. p.addr.is4) ps

abbrev first : {A : Type 0} → List A → Option A
first [] = none
first (a ∷ as') = some a

abbrev pub is_empty : Text → Bool
is_empty [] = true
is_empty (b ∷ bs) = false

unfoldable pub resolve_endpoint : Network → Text → Result LoadError Text
unfolding number
resolve_endpoint net endpoint = do
  reject (is_empty endpoint) no_endpoint
  elim (net.addr_port endpoint) [
    | some v6 ↦ ok endpoint
    | none ↦ do
      (host, port) ← require (net.split_host_port endpoint) bad_endpoint
      port_num ← require (number (2 ^ 16) port) bad_port
      addrs ← require (net.lookup host) unresolved
      addr ← require (first addrs) no_address
      ok (net.print_addr_port addr port_num)
  ]

-- The UDP payload limit of IPv6, and of IPv4.
abbrev pub payload_limit : Bool → ℕ
payload_limit true = 65527
payload_limit false = 65507

unfoldable pub check_junk : Params → ℕ → Result LoadError (Unit {0})
unfolding largest_junk
check_junk p payload_max =
    reject (ltb 0 p.jc && ltb payload_max (largest_junk p)) (junk payload_max)

abbrev pub check_sizes : Option Oversized → Result LoadError (Unit {0})
check_sizes none = ok tt
check_sizes (some e) = err (oversized e)

-- Linux TUN needs at least 68 bytes, after S4.
unfoldable pub check_mtu : ℤ → ℕ → ℕ → Result LoadError (Unit {0})
unfolding ◌-ℤ◌
check_mtu m s4 payload_max = do
  reject (ltb_ℤ m (pos (68 + s4))) mtu_small
  reject (ltb_ℤ (pos payload_max -ℤ pos (32 + s4)) m) mtu_large

-- The only peer.
unfoldable pub single_peer : List Peer → Result LoadError Peer
single_peer (p ∷ []) = ok p
single_peer ps = err (peer_count (length ps))

unfoldable pub load_upstream :
    Network → Codec → Config.Upstream → Config.Health → Result LoadError Upstream
unfolding parse routes_everything first_ipv4 resolve_endpoint check_junk check_wire_sizes check_mtu
    single_peer effective
load_upstream net codec u h = do
  source ← require (net.read_file u.conf) unreadable
  conf ← parsed (parse codec source)
  peer ← single_peer conf.peers
  reject (not (routes_everything peer.allowed_ips)) not_everything
  resolved ← resolve_endpoint net peer.endpoint
  v6 ← require (net.addr_port resolved) bad_resolved
  check_junk conf.interface.params (payload_limit v6)
  check_sizes (check_wire_sizes (wire_params conf.interface.params) (payload_limit v6))
  addr ← require (first_ipv4 conf.interface.addresses) no_ipv4
  check_mtu (effective conf.interface.mtu) conf.interface.params.s4 (payload_limit v6)
  ok (record {
    config = u;
    conf = record conf { peers = record peer { endpoint = resolved } ∷ [] };
    source = source;
    endpoint = peer.endpoint;
    addr = addr;
    mtu = effective conf.interface.mtu;
    tracker = new_tracker h.down_after h.up_after;
  })
