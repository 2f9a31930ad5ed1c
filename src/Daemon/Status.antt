-- ===== src/Daemon/Status.antt =====
-- Status of internal/daemon/daemon.go: who is connected, and how many clients each upstream serves.
-- Times are nanoseconds since the zero time. `handshakes` is downstreamHandshakes, `last` the
-- handshake of the upstream's own peer, none where the device does not name exactly one.
use lotsman.Prelude.{
  ℕ, ◌-◌, ◌*◌, Bool, true, false, ◌&&◌, not, Option, List, [], ◌∷◌, map, String, ◌==◌, nat_eq,
  string_eq, if◌then◌else◌, Ordering, filter, length, ltb,
}
use lotsman.Prelude.Maps.{Map, get}
use lotsman.Policy.{compare_text}
use lotsman.Health.{State}
use lotsman.Net.{Addr}
use lotsman.Daemon.{Daemon, Upstream, Peer, Key, or_zero}

-- Three minutes.
abbrev pub active_window : ℕ
active_window = 180 * 1000000000

pub record UpstreamStatus : Type 0 where
  pub name : String
  pub interface : String
  pub state : State
  pub latency : ℕ
  pub last_handshake : ℕ
  pub routed : ℕ
  pub active : ℕ

pub record PeerStatus : Type 0 where
  pub user : String
  pub device : String
  pub profile : String
  pub upstream : String
  pub last_handshake : ℕ

pub record Status : Type 0 where
  pub upstreams : List UpstreamStatus
  pub peers : List PeerStatus

unfoldable pub peer_status : Map Addr String → Map Key ℕ → Key × Peer → PeerStatus
peer_status assignments handshakes (key, p) = record {
  user = p.user;
  device = p.device;
  profile = p.profile;
  upstream = or_zero "" (get assignments p.ip);
  last_handshake = or_zero 0 (get handshakes key);
}

-- routed[name] and active[name] after the loop.
unfoldable pub is_routed : String → PeerStatus → Bool
is_routed name s = s.upstream == name && not (s.upstream == "")

unfoldable pub is_active : ℕ → PeerStatus → Bool
is_active now s = ltb (now - s.last_handshake) active_window

abbrev or_then : Ordering → Ordering → Ordering
or_then Ordering.eq o = o
or_then Ordering.lt o = Ordering.lt
or_then Ordering.gt o = Ordering.gt

unfoldable pub after : PeerStatus → PeerStatus → Bool
unfolding compare_text
after a b =
    elim (or_then (compare_text a.user b.user)
      (or_then (compare_text a.device b.device) (compare_text a.profile b.profile))) [
        | Ordering.gt ↦ true
        | _ ↦ false
      ]

unfoldable pub insert_ordered : PeerStatus → List PeerStatus → List PeerStatus
unfolding after
insert_ordered a [] = a ∷ []
insert_ordered a (b ∷ bs) =
    let rest = insert_ordered a bs in if after a b then b ∷ rest else a ∷ b ∷ bs

-- slices.SortFunc
unfoldable pub sort : List PeerStatus → List PeerStatus
unfolding insert_ordered
sort [] = []
sort (a ∷ rest) = insert_ordered a (sort rest)

unfoldable pub upstream_status :
    ℕ → List PeerStatus → (Upstream → Option ℕ) → Upstream → UpstreamStatus
unfolding is_routed is_active filter
upstream_status now peers last u =
    let routed = filter (is_routed u.config.name) peers in
    record {
      name = u.config.name;
      interface = u.device;
      state = u.tracker.state;
      latency = u.tracker.latency;
      last_handshake = or_zero 0 (last u);
      routed = length routed;
      active = length (filter (is_active now) routed);
    }

unfoldable pub status :
    {World : Type 0} → ℕ → Map Key ℕ → (Upstream → Option ℕ) → Daemon World → Status
unfolding peer_status upstream_status sort
status now handshakes last d =
    let peers = map (peer_status d.assignments handshakes) d.device_peers in
    record { upstreams = map (upstream_status now peers last) d.ups; peers = sort peers }
