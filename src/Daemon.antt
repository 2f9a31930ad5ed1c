-- ===== src/Daemon.antt =====
-- internal/daemon/daemon.go: the daemon's state, the calls that move one peer, and Reconcile. Each
-- call holds the daemon's lock, so it is one step on the state. The log is not modelled.
pub mod Invariant
pub mod Steps
pub mod Routing
pub mod Outcome
pub mod Revocation
pub mod Admission
pub mod Service
pub mod Health
pub mod Reload
pub mod Counts
pub mod Status
pub mod Tests
use lotsman.Prelude.{
  ℕ, ◌+◌, ◌≡◌, Bool, true, false, not, Option, none, some, List, [], ◌∷◌, ◌++◌, map, String, ◌==◌,
  ℤ, any, nat_eq, string_eq, if◌then◌else◌,
}
use lotsman.Prelude.Maps.{Map, get, put, del, has}
use lotsman.Net.{Addr, Prefix}
use lotsman.Config
use lotsman.Config.{Config, Profile, profile}
use lotsman.Health.{Tracker, up, is_state}
use lotsman.Policy
use lotsman.Policy.{select}
use lotsman.Dataplane.{Dataplane, Interface}

-- A Curve25519 key: its 32 bytes as one number.
abbrev pub Key : Type 0
Key = ℕ

-- The fields of store.Peer that the daemon reads.
pub record Peer : Type 0 where
  pub user : String
  pub device : String
  pub profile : String
  pub public_key : Key
  pub ip : Addr

-- The downstream device: AddPeer with the peer's /32, RemovePeer.
pub record Downstream (World : Type 0) : Type 0 where
  pub add_peer : Key → Addr → World → Option String × World
  pub remove_peer : Key → World → Option String × World

-- `device` is the name of the upstream's interface, `s4` its Conf.Interface.S4.
pub record Upstream : Type 0 where
  pub config : Config.Upstream
  pub source : String
  pub addr : Prefix
  pub mtu : ℤ
  pub s4 : ℕ
  pub device : String
  pub tracker : Tracker

-- The error values that the calls return, by where they come from; several are joined as a list,
-- and the empty list is `nil`.
pub data Failure : Type 0 where
  dataplane_failure device_failure store_failure : String → Failure
  missing_profile : Peer → Failure

pub record Daemon (World : Type 0) : Type 0 where
  pub cfg : Config
  pub ups : List Upstream
  pub assignments : Map Addr String
  pub unroute_pending : Map Addr Bool
  pub device_peers : Map Key Peer
  pub alive_failed : Map String String
  pub probes : Map String (ℕ × ℕ)
  pub reroutes : Map String ℕ
  pub reloads : ℕ × ℕ
  pub world : World

-- The zero value that indexing a Go map gives for a missing key.
abbrev pub or_zero {ℓ} : {A : Type ℓ} → A → Option A → A
or_zero z none = z
or_zero z (some a) = a

unfoldable pub candidate : Upstream → Policy.Upstream
unfolding is_state
candidate u = record {
  config = u.config;
  healthy = is_state u.tracker.state up;
  latency = u.tracker.latency;
}

unfoldable pub candidates : List Upstream → List Policy.Upstream
unfolding candidate
candidates ups = map candidate ups

unfoldable pub interface_of : List Upstream → String → String
interface_of [] upstream = ""
interface_of (u ∷ us) upstream =
    if u.config.name == upstream then u.device else interface_of us upstream

-- `if err := …; err != nil { return err }`: what has been done stays done.
abbrev pub and_then : {D : Type 0} → List Failure × D → (D → List Failure × D) → List Failure × D
and_then ([], d) f = f d
and_then (e ∷ es, d) f = (e ∷ es, d)

module _ {World : Type 0} (dp : Dataplane World) where
  unfoldable pub unroute : Addr → Daemon World → List Failure × Daemon World
  unroute ip d =
      let (failed, w) = dp.unroute ip d.world in
      elim failed [
        | some e ↦ (
          dataplane_failure e ∷ [],
          record d { unroute_pending = put d.unroute_pending ip true; world = w },
        )
        | none ↦ (
          [],
          record d {
            unroute_pending = del d.unroute_pending ip;
            assignments = del d.assignments ip;
            world = w;
          },
        )
      ]

  -- The end of route: dp.Route, and the bookkeeping of a move.
  unfoldable pub move : Addr → String → Daemon World → List Failure × Daemon World
  move ip want d =
      let (failed, w) = dp.route ip (interface_of d.ups want) d.world in
      elim failed [
        | some e ↦ (dataplane_failure e ∷ [], record d { world = w })
        | none ↦ (
          [],
          record d {
            assignments = put d.assignments ip want;
            reroutes = put d.reroutes want (or_zero 0 (get d.reroutes want) + 1);
            world = w;
          },
        )
      ]

  -- The switch of route on what policy.Select wants and on the current assignment.
  unfoldable pub assign : Addr → Option String → Daemon World → List Failure × Daemon World
  unfolding unroute move
  assign ip none d = if or_zero "" (get d.assignments ip) == "" then ([], d) else unroute ip d
  assign ip (some want) d =
      if want == or_zero "" (get d.assignments ip) then ([], d) else move ip want d

  -- An unroute that failed before must succeed before the address is routed again.
  unfoldable pub settle : Addr → Daemon World → List Failure × Daemon World
  unfolding unroute
  settle ip d = if or_zero false (get d.unroute_pending ip) then unroute ip d else ([], d)

  unfoldable pub select_and_assign : Addr → Profile → Daemon World → List Failure × Daemon World
  unfolding assign
  select_and_assign ip p d =
      assign ip (select p (candidates d.ups) (or_zero "" (get d.assignments ip))) d

  unfoldable pub route : Peer → Daemon World → List Failure × Daemon World
  unfolding settle select_and_assign
  route p d = elim (profile d.cfg p.profile) [
    | none ↦ let (errs, d') = unroute p.ip d in (missing_profile p ∷ errs, d')
    | some prof ↦ and_then (settle p.ip d) (select_and_assign p.ip prof)
  ]

-- The addresses of the peers on the device, and the keys of the store's peers.
unfoldable pub holds : Map Key Peer → Addr → Key → Bool
holds device_peers ip key = elim (get device_peers key) [ none ↦ false | some p ↦ p.ip == ip ]

unfoldable pub is_held : Map Key Peer → Addr → Bool
unfolding any holds
is_held device_peers ip = any (holds device_peers ip) (map (λ e. e.0) device_peers)

unfoldable pub is_wanted : List Peer → Key → Bool
unfolding any
is_wanted peers key = any (λ p. p.public_key == key) peers

module _ {World : Type 0} (dp : Dataplane World) (down : Downstream World) where
  -- One round of the loop that revokes: both calls are made, and the peer is forgotten only if both
  -- succeed.
  unfoldable pub revoke : Key → Peer → Daemon World → List Failure × Daemon World
  unfolding unroute
  revoke key p d =
      let (failed, w) = down.remove_peer key d.world in
      let (errs, d') = unroute dp p.ip (record d { world = w }) in
      elim failed [
        | some e ↦ (device_failure e ∷ errs, d')
        | none ↦ elim errs [
          | [] ↦ ([], record d' { device_peers = del d'.device_peers key })
          | e ∷ es ↦ (e ∷ es, d')
        ]
      ]

  -- The round at `key`: a range over a map reads each entry when it comes to it.
  unfoldable pub revoke_unwanted : List Peer → Key → Daemon World → List Failure × Daemon World
  unfolding revoke is_wanted
  revoke_unwanted peers key d = elim (get d.device_peers key) [
    | none ↦ ([], d)
    | some p ↦ if is_wanted peers key then ([], d) else revoke key p d
  ]

  -- The loops collect the errors and go on.
  unfoldable pub revoke_all : List Peer → List Key → Daemon World → List Failure × Daemon World
  unfolding revoke_unwanted
  revoke_all peers [] d = ([], d)
  revoke_all peers (key ∷ keys) d =
      let (errs, d') = revoke_unwanted peers key d in
      let (more, d'') = revoke_all peers keys d' in (errs ++ more, d'')

  -- One round of the loop over the store's peers; `held` are the addresses of the peers that the
  -- device had when the loop began.
  unfoldable pub admit : (Addr → Bool) → Peer → Daemon World → List Failure × Daemon World
  unfolding route has
  admit held p d =
      if has d.device_peers p.public_key
      then route dp p d
      else if held p.ip
      then ([], d)
      else let (failed, w) = down.add_peer p.public_key p.ip d.world in
        elim failed [
          | some e ↦ (device_failure e ∷ [], record d { world = w })
          | none ↦
              route dp p (record d { device_peers = put d.device_peers p.public_key p; world = w })
        ]

  unfoldable pub admit_all : (Addr → Bool) → List Peer → Daemon World → List Failure × Daemon World
  unfolding admit
  admit_all held [] d = ([], d)
  admit_all held (p ∷ ps) d =
      let (errs, d') = admit held p d in
      let (more, d'') = admit_all held ps d' in (errs ++ more, d'')

  -- Reconcile with the store's peers.
  unfoldable pub reconcile_with : List Peer → Daemon World → List Failure × Daemon World
  unfolding revoke_all admit_all is_held
  reconcile_with peers d =
      let (errs, d') = revoke_all peers (map (λ e. e.0) d.device_peers) d in
      let (more, d'') = admit_all (is_held d'.device_peers) peers d' in (errs ++ more, d'')

-- What ListPeers returned.
pub data Listed : Type 0 where
  peers : List Peer → Listed
  list_failed : String → Listed

module _ {World : Type 0} (dp : Dataplane World) (down : Downstream World) where
  unfoldable pub reconcile : Listed → Daemon World → List Failure × Daemon World
  unfolding reconcile_with
  reconcile (peers ps) d = reconcile_with dp down ps d
  reconcile (list_failed e) d = (store_failure e ∷ [], d)
