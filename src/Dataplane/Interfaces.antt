-- ===== src/Dataplane/Interfaces.antt =====
-- internal/dataplane/dataplane.go: the interface between the daemon and the host's routing, and what
-- its comments promise. An error is `some` of its text.
use lotsman.Prelude.{◌≡◌, ◌≢◌, ◌⊎◌, Bool, Option, none, some, List, String, ℤ, In}
use lotsman.Net.{Addr, Prefix}

pub record Interface : Type 0 where
  pub name : String
  pub addr : Prefix

-- The calls, over a state `World` of the host.
pub record Dataplane (World : Type 0) : Type 0 where
  pub setup : Interface → List Interface → ℤ → World → Option String × World
  pub set_upstreams : List Interface → ℤ → World → Option String × World
  pub route : Addr → String → World → Option String × World
  pub unroute : Addr → World → Option String × World
  pub set_alive : String → Bool → World → Option String × World
  pub teardown : World → Option String × World

-- What the comments promise of forwarding, and that a call for one peer moves no other; of what a
-- failed Route leaves they say nothing. `forwards w a` is the interface through which new flows of the
-- peer at `a` leave, and `none` while the peer is blocked.
pub record Contract {World : Type 0} (d : Dataplane World) : Type 0 where
  pub forwards : World → Addr → Option String
  -- Route makes new flows of the peer leave through the interface, and moves nobody else.
  pub route_moves :
      (a : Addr) (i : String) (w : World)
      → (d.route a i w).0 ≡ none
      → forwards (d.route a i w).1 a ≡ some i
  pub route_others :
      (a b : Addr) (i : String) (w : World) → a ≢ b → forwards (d.route a i w).1 b ≡ forwards w b
  -- Unroute revokes forwarding first: a failure leaves the peer as it was or blocked.
  pub unroute_blocks :
      (a : Addr) (w : World) → (d.unroute a w).0 ≡ none → forwards (d.unroute a w).1 a ≡ none
  pub unroute_fails :
      (a : Addr) (w : World)
      → (forwards (d.unroute a w).1 a ≡ forwards w a) ⊎ (forwards (d.unroute a w).1 a ≡ none)
  pub unroute_others :
      (a b : Addr) (w : World) → a ≢ b → forwards (d.unroute a w).1 b ≡ forwards w b
  -- SetAlive is about flows that are open already.
  pub set_alive_keeps :
      (i : String) (alive : Bool) (w : World) (a : Addr)
      → forwards (d.set_alive i alive w).1 a ≡ forwards w a
  -- SetUpstreams does not touch the routes of upstreams that stay.
  pub set_upstreams_keeps :
      (ups : List Interface) (mtu : ℤ) (w : World) (a : Addr)
      → ((i : String) → forwards w a ≡ some i → (u : Interface) × In u ups × (u.name ≡ i))
      → forwards (d.set_upstreams ups mtu w).1 a ≡ forwards w a
