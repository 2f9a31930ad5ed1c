-- ===== src/Dataplane/Fake/Promises.antt =====
-- The in-memory dataplane keeps what the interface promises.
use lotsman.Prelude.{
  ◌≡◌, ◌≢◌, refl, inr, Bool, none, some, List, String, arith, ℤ, nat_eq, string_eq,
}
use lotsman.Prelude.Maps.{get-put, get-del}
use lotsman.Net.{Addr}
use lotsman.Dataplane.Interfaces.{Interface, Contract}
use lotsman.Dataplane.Fake.{FakePlane, fake, route, unroute, set_alive, set_upstreams, route_of}

route_moves :
    (a : Addr) (i : String) (w : FakePlane)
    → (route a i w).0 ≡ none
    → route_of a (route a i w).1 ≡ some i
unfolding route route_of
route_moves a i w h = ground (arith, get-put w.routes a i a)

route_others :
    (a b : Addr) (i : String) (w : FakePlane) → a ≢ b → route_of b (route a i w).1 ≡ route_of b w
unfolding route route_of
route_others a b i w n = ground (arith, get-put w.routes a i b)

unroute_blocks :
    (a : Addr) (w : FakePlane) → (unroute a w).0 ≡ none → route_of a (unroute a w).1 ≡ none
unfolding unroute route_of
unroute_blocks a w h = ground (arith, get-del w.routes a a)

unroute_others : (a b : Addr) (w : FakePlane) → a ≢ b → route_of b (unroute a w).1 ≡ route_of b w
unfolding unroute route_of
unroute_others a b w n = ground (arith, get-del w.routes a b)

set_alive_keeps :
    (i : String) (alive : Bool) (w : FakePlane) (a : Addr)
    → route_of a (set_alive i alive w).1 ≡ route_of a w
unfolding set_alive route_of
set_alive_keeps i alive w a = refl

set_upstreams_keeps :
    (ups : List Interface) (mtu : ℤ) (w : FakePlane) (a : Addr)
    → route_of a (set_upstreams ups mtu w).1 ≡ route_of a w
unfolding set_upstreams route_of
set_upstreams_keeps ups mtu w a = refl

unroute_ok : (a : Addr) (w : FakePlane) → (unroute a w).0 ≡ none
unfolding unroute
unroute_ok a w = refl

-- The in-memory dataplane implements the interface's contract: RouteOf is what it forwards.
pub fake_contract : Contract fake
fake_contract = record {
  forwards = λ w a. route_of a w;
  route_moves = route_moves;
  route_others = route_others;
  unroute_blocks = unroute_blocks;
  unroute_fails = λ a w. inr (unroute_blocks a w (unroute_ok a w));
  unroute_others = unroute_others;
  set_alive_keeps = set_alive_keeps;
  set_upstreams_keeps = λ ups mtu w a _. set_upstreams_keeps ups mtu w a;
}

pub fake_forwards : (w : FakePlane) (a : Addr) → fake_contract.forwards w a ≡ route_of a w
unfolding fake_contract
fake_forwards w a = refl
