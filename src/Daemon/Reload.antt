-- ===== src/Daemon/Reload.antt =====
-- Reload of internal/daemon/daemon.go. The devices and the provider files are a parameter: `content`
-- is fileContent, `start` is openUpstream, `bring_up` and `close` are the device's Up and Close.
use lotsman.Prelude.{
  ℕ, ◌+◌, ◌&&◌, Option, none, some, List, [], ◌∷◌, ◌++◌, map, String, ◌==◌, nat_eq, string_eq,
  if◌then◌else◌,
}
use lotsman.Prelude.Maps.{Map, get, put, del}
use lotsman.Net.{Addr}
use lotsman.Config
use lotsman.Config.{Config, Health}
use lotsman.Health.{set_thresholds}
use lotsman.Dataplane.{Dataplane}
use lotsman.Daemon.{Daemon, Upstream, Failure, device_failure, unroute, or_zero}
use lotsman.Daemon.Health.{apply_alive, interfaces, client_mtu}

pub data Opened : Type 0 where
  opened : Upstream → Opened
  not_opened : String → Opened

pub record Devices (World : Type 0) : Type 0 where
  pub content : String → String
  pub start : Config.Upstream → Health → World → Opened × World
  pub bring_up : Upstream → World → Option String × World
  pub close : Upstream → World → World

-- The settings that changed and need a restart.
unfoldable pub restart_required : Config → Config → List String
restart_required old cfg =
    (if old.listen == cfg.listen then [] else "listen" ∷ [])
    ++ (if old.subnet.addr == cfg.subnet.addr && old.subnet.bits == cfg.subnet.bits
        then []
        else "subnet" ∷ [])
    ++ (if old.state_dir == cfg.state_dir then [] else "state_dir" ∷ [])
    ++ (if old.metrics_listen == cfg.metrics_listen then [] else "metrics.listen" ∷ [])

-- current[u.Name] = u, for every upstream.
unfoldable pub by_name : Map String Upstream → List Upstream → Map String Upstream
unfolding put
by_name current [] = current
by_name current (u ∷ us) = by_name (put current u.config.name u) us

-- How Reload ends.
pub data Reloaded : Type 0 where
  rejected : List String → Reloaded
  dataplane_rejected : String → Reloaded
  reloaded : List Failure → Reloaded

module _ {World : Type 0} (dp : Dataplane World) (devices : Devices World) where
  -- The round of dropUpstream's loop at `ip`; a failure is logged and stays pending.
  unfoldable pub drop_peer : String → Addr → Daemon World → Daemon World
  unfolding unroute
  drop_peer name ip d = if or_zero "" (get d.assignments ip) == name then (unroute dp ip d).1 else d

  unfoldable pub drop_peers : String → List Addr → Daemon World → Daemon World
  unfolding drop_peer
  drop_peers name [] d = d
  drop_peers name (ip ∷ ips) d = drop_peers name ips (drop_peer name ip d)

  unfoldable pub drop_upstream : Upstream → Daemon World → Daemon World
  unfolding drop_peers
  drop_upstream u d =
      let d' : Daemon World = drop_peers u.config.name (map (λ e. e.0) d.assignments) d in
      record d' {
        alive_failed = del d'.alive_failed u.config.name;
        world = devices.close u d'.world;
      }

  -- openUpstream and what the loop makes of it: the upstream or an error.
  unfoldable pub open_upstream :
      Config.Upstream → Health → Daemon World → (List Failure × List Upstream) × Daemon World
  open_upstream u h d =
      let (o, w) = devices.start u h d.world in
      elim o [
        | opened up ↦ (([], up ∷ []), record d { world = w })
        | not_opened e ↦ ((device_failure e ∷ [], []), record d { world = w })
      ]

  -- One round of the loop over the new configuration's upstreams.
  unfoldable pub take_upstream :
      Map String Upstream
      → Health
      → Config.Upstream
      → Daemon World
      → (List Failure × List Upstream) × Daemon World
  unfolding drop_upstream open_upstream set_thresholds
  take_upstream current h u d = elim (get current u.name) [
    | none ↦ open_upstream u h d
    | some old ↦
        if old.source == devices.content u.conf
        then (
          (
            [],
            record old { config = u; tracker = set_thresholds old.tracker h.down_after h.up_after }
                ∷ [],
          ),
          d,
        )
        else open_upstream u h (drop_upstream old d)
  ]

  -- The loop: the errors, the upstreams, and those of the old that no round met.
  unfoldable pub take_upstreams :
      Map String Upstream
      → Health
      → List Config.Upstream
      → Daemon World
      → (List Failure × List Upstream × Map String Upstream) × Daemon World
  unfolding take_upstream
  take_upstreams current h [] d = (([], [], current), d)
  take_upstreams current h (u ∷ us) d =
      let ((errs, ups), d') = take_upstream current h u d in
      let ((more, rest, left), d'') = take_upstreams (del current u.name) h us d' in
      ((errs ++ more, ups ++ rest, left), d'')

  unfoldable pub drop_all : List Upstream → Daemon World → Daemon World
  unfolding drop_upstream
  drop_all [] d = d
  drop_all (u ∷ us) d = drop_all us (drop_upstream u d)

  -- The last loop: every device is brought up and its health pushed.
  unfoldable pub raise_all : List Upstream → Daemon World → List Failure × Daemon World
  unfolding apply_alive
  raise_all [] d = ([], d)
  raise_all (u ∷ us) d =
      let (failed, w) = devices.bring_up u d.world in
      let (errs, d') = apply_alive dp u (record d { world = w }) in
      let (more, d'') = raise_all us d' in
      ((elim failed [ none ↦ [] | some e ↦ device_failure e ∷ [] ]) ++ errs ++ more, d'')

  unfoldable pub count_reload : List Failure → Daemon World → Daemon World
  count_reload [] d = record d { reloads = (d.reloads.0 + 1, d.reloads.1) }
  count_reload (e ∷ es) d = record d { reloads = (d.reloads.0, d.reloads.1 + 1) }

  -- From SetUpstreams on.
  unfoldable pub apply_upstreams : ℕ → List Failure → Daemon World → Reloaded × Daemon World
  unfolding raise_all count_reload interfaces client_mtu
  apply_upstreams s4_down errs d =
      let (failed, w) = dp.set_upstreams (interfaces d.ups) (client_mtu s4_down d.ups) d.world in
      elim failed [
        | some e ↦ (dataplane_rejected e, record d { world = w })
        | none ↦
            let (more, d') = raise_all d.ups (record d { world = w }) in
            (reloaded (errs ++ more), count_reload (errs ++ more) d')
      ]

  unfoldable pub reload : ℕ → Config → Daemon World → Reloaded × Daemon World
  unfolding take_upstreams drop_all apply_upstreams restart_required by_name
  reload s4_down cfg d = elim (restart_required d.cfg cfg) [
    | c ∷ cs ↦ (rejected (c ∷ cs), record d { reloads = (d.reloads.0, d.reloads.1 + 1) })
    | [] ↦
        let ((errs, next, left), d') =
          take_upstreams (by_name [] d.ups) cfg.health cfg.upstreams d in
        let d'' : Daemon World = drop_all (map (λ e. e.1) left) d' in
        apply_upstreams s4_down errs (record d'' { ups = next; cfg = cfg })
  ]
