-- ===== src/Daemon/Health.antt =====
-- The health side of internal/daemon/daemon.go: countProbe, applyAlive,
-- and what New, clientMTU, Gateway and interfaces compute.
use lotsman.Prelude.{
  ℕ, ◌+◌, Bool, true, false, none, some, List, [], map, String, ℤ, string_eq, ◌∷◌,
}
use lotsman.Prelude.Maps.{get, put, del}
use lotsman.Net.{Prefix, next}
use lotsman.Config.{Config}
use lotsman.Health.{up, is_state}
use lotsman.Mtu.{client}
use lotsman.Dataplane.{Dataplane, Interface}
use lotsman.Daemon.{Daemon, Upstream, Failure, dataplane_failure, or_zero}

-- The maps and counters of a new daemon.
unfoldable pub new : {World : Type 0} → Config → World → Daemon World
new cfg w = record {
  cfg = cfg;
  ups = [];
  assignments = [];
  unroute_pending = [];
  device_peers = [];
  alive_failed = [];
  probes = [];
  reroutes = [];
  reloads = (0, 0);
  world = w;
}

-- The downstream interface's own address.
unfoldable pub gateway : Config → Prefix
unfolding next
gateway cfg = record { addr = next cfg.subnet.addr; bits = cfg.subnet.bits }

unfoldable pub interfaces : List Upstream → List Interface
interfaces ups = map (λ u. record { name = u.device; addr = u.addr }) ups

-- `s4_down` is the daemon's own S4, of its identity.
unfoldable pub client_mtu : ℕ → List Upstream → ℤ
unfolding client
client_mtu s4_down ups = client s4_down (map (λ u. record { mtu = u.mtu; s4 = u.s4 }) ups)

abbrev count_outcome : Bool → ℕ × ℕ → ℕ × ℕ
count_outcome true (ok, failed) = (ok + 1, failed)
count_outcome false (ok, failed) = (ok, failed + 1)

unfoldable pub count_probe : {World : Type 0} → String → Bool → Daemon World → Daemon World
count_probe upstream ok d = record d {
  probes = put d.probes upstream (count_outcome ok (or_zero (0, 0) (get d.probes upstream)));
}

module _ {World : Type 0} (dp : Dataplane World) where
  unfoldable pub apply_alive : Upstream → Daemon World → List Failure × Daemon World
  unfolding is_state
  apply_alive u d =
      let (failed, w) = dp.set_alive u.device (is_state u.tracker.state up) d.world in
      elim failed [
        | none ↦ ([], record d { alive_failed = del d.alive_failed u.config.name; world = w })
        | some e ↦ (
          dataplane_failure e ∷ [],
          record d { alive_failed = put d.alive_failed u.config.name e; world = w },
        )
      ]
