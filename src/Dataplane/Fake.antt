-- ===== src/Dataplane/Fake.antt =====
-- internal/dataplane/fake/fake.go: the in-memory dataplane. Its log of calls is not modelled, and
-- neither is its lock: a call is one step.
pub mod Promises
use lotsman.Prelude.{
  Bool, true, false, not, ◌&&◌, Option, none, some, List, [], ◌∷◌, map, String, ◌==◌, ℤ, pos, any,
  nat_eq, string_eq, if◌then◌else◌,
}
use lotsman.Prelude.Maps.{Map, get, put, del}
use lotsman.Net.{Addr, Prefix}
use lotsman.Dataplane.Interfaces.{Interface, Dataplane}

pub record FakePlane : Type 0 where
  pub down : Interface
  pub ups : List Interface
  pub mtu : ℤ
  pub routes : Map Addr String
  pub pins : Map Addr (Map String Bool)
  pub alive : Map String Bool
  pub setup_done : Bool
  pub torn_down : Bool

unfoldable pub new : FakePlane
new = record {
  down = record { name = ""; addr = record { addr = 0; bits = 0 } };
  ups = [];
  mtu = pos 0;
  routes = [];
  pins = [];
  alive = [];
  setup_done = false;
  torn_down = false;
}

unfoldable pub setup : Interface → List Interface → ℤ → FakePlane → Option String × FakePlane
setup down ups mtu f = (none, record f { down = down; ups = ups; mtu = mtu; setup_done = true })

unfoldable pub set_upstreams : List Interface → ℤ → FakePlane → Option String × FakePlane
set_upstreams ups mtu f = (none, record f { ups = ups; mtu = mtu })

abbrev pub or_false : Option Bool → Bool
or_false none = false
or_false (some b) = b

-- f.Pins[peer], where a missing map reads as empty.
abbrev pub pins_of : Option (Map String Bool) → Map String Bool
pins_of none = []
pins_of (some m) = m

-- The pins of a peer that moves from `prev` to `upstream`.
unfoldable pub repin : Option String → String → FakePlane → Addr → Map Addr (Map String Bool)
repin none upstream f peer = f.pins
repin (some prev) upstream f peer =
    if not (prev == upstream) && or_false (get f.alive prev)
    then put f.pins peer (put (pins_of (get f.pins peer)) prev true)
    else f.pins

-- delete(f.Pins[peer], upstream): nothing where the peer has no map.
unfoldable pub unpin :
    Option (Map String Bool)
    → Map Addr (Map String Bool)
    → Addr
    → String
    → Map Addr (Map String Bool)
unpin none pins peer upstream = pins
unpin (some m) pins peer upstream = put pins peer (del m upstream)

unfoldable pub routed : Addr → String → FakePlane → FakePlane
unfolding repin unpin
routed peer upstream f =
    let pinned = repin (get f.routes peer) upstream f peer in
    record f {
      pins = unpin (get pinned peer) pinned peer upstream;
      routes = put f.routes peer upstream;
    }

unfoldable pub route : Addr → String → FakePlane → Option String × FakePlane
unfolding routed any
route peer upstream f =
    if any (λ u. u.name == upstream) f.ups
    then (none, routed peer upstream f)
    else (some "unknown upstream", f)

unfoldable pub drop_pins : String → Map Addr (Map String Bool) → Map Addr (Map String Bool)
drop_pins upstream [] = []
drop_pins upstream ((a, m) ∷ rest) = (a, del m upstream) ∷ drop_pins upstream rest

unfoldable pub set_alive : String → Bool → FakePlane → Option String × FakePlane
unfolding drop_pins
set_alive upstream alive f = (
  none,
  record f {
    alive = put f.alive upstream alive;
    pins = if alive then f.pins else drop_pins upstream f.pins;
  },
)

unfoldable pub unroute : Addr → FakePlane → Option String × FakePlane
unroute peer f = (none, record f { routes = del f.routes peer; pins = del f.pins peer })

unfoldable pub teardown : FakePlane → Option String × FakePlane
teardown f = (none, record f { routes = []; torn_down = true })

-- PinnedTo, and RouteOf.
unfoldable pub pinned_to : Addr → String → FakePlane → Bool
pinned_to peer upstream f = or_false (get (pins_of (get f.pins peer)) upstream)

unfoldable pub route_of : Addr → FakePlane → Option String
route_of peer f = get f.routes peer

abbrev pub fake : Dataplane FakePlane
fake = record {
  setup = setup;
  set_upstreams = set_upstreams;
  route = route;
  unroute = unroute;
  set_alive = set_alive;
  teardown = teardown;
}
