-- ===== src/Daemon/Counts.antt =====
-- Which reloads internal/daemon/daemon.go counts, as ok or as an error.
use lotsman.Prelude.{
  ℕ, ◌+◌, ◌≡◌, refl, subst, ◌∙◌, ◌⊎◌, inl, inr, List, [], ◌∷◌, ◌++◌, map, String, arith, Bool-cases,
  Option-cases, List-cases, ◌==◌, string_eq, nat_eq,
}
use lotsman.Prelude.Maps.{Map, get, del}
use lotsman.Net.{Addr}
use lotsman.Config
use lotsman.Config.{Config, Health}
use lotsman.Dataplane.{Dataplane}
use lotsman.Daemon.{Daemon, Upstream, Failure, unroute, or_zero}
use lotsman.Daemon.Health.{apply_alive, interfaces, client_mtu}
use lotsman.Daemon.Reload.{
  Devices, Opened, opened, not_opened, Reloaded, rejected, dataplane_rejected, reloaded, drop_peer,
  drop_peers, drop_upstream, open_upstream, take_upstream, take_upstreams, drop_all, raise_all,
  count_reload, apply_upstreams, reload, restart_required, by_name,
}

-- The counters after a reload that ends like that, from those before it.
abbrev pub IsCounted : ℕ × ℕ → Reloaded → ℕ × ℕ → Type 0
IsCounted before (rejected _) counted = counted ≡ (before.0, before.1 + 1)
IsCounted before (dataplane_rejected _) counted = counted ≡ before
IsCounted before (reloaded []) counted = counted ≡ (before.0 + 1, before.1)
IsCounted before (reloaded (e ∷ es)) counted = counted ≡ (before.0, before.1 + 1)

module _ {World : Type 0} (dp : Dataplane World) (devices : Devices World) where
  unroute-reloads : (ip : Addr) (d : Daemon World) → (unroute dp ip d).1.reloads ≡ d.reloads
  unfolding unroute
  unroute-reloads ip d = elim (Option-cases (dp.unroute ip d.world).0) [
    | inl e ↦ rw (e, unroute)
    | inr (x, e) ↦ rw (e, unroute)
  ]

  drop_peer-reloads :
      (name : String) (ip : Addr) (d : Daemon World)
      → (drop_peer dp devices name ip d).reloads ≡ d.reloads
  unfolding drop_peer
  drop_peer-reloads name ip d = elim (Bool-cases (or_zero "" (get d.assignments ip) == name)) [
    | inl e ↦ rw (e, drop_peer) (unroute-reloads ip d)
    | inr e ↦ rw (e, drop_peer)
  ]

  drop_peers-reloads :
      (name : String) (ips : List Addr) (d : Daemon World)
      → (drop_peers dp devices name ips d).reloads ≡ d.reloads
  unfolding drop_peers
  drop_peers-reloads name [] d = refl
  drop_peers-reloads name (ip ∷ ips) d =
      drop_peers-reloads name ips (drop_peer dp devices name ip d) ∙ drop_peer-reloads name ip d

  drop_upstream-reloads :
      (u : Upstream) (d : Daemon World) → (drop_upstream dp devices u d).reloads ≡ d.reloads
  unfolding drop_upstream
  drop_upstream-reloads u d = drop_peers-reloads u.config.name (map (λ e. e.0) d.assignments) d

  Opened-cases :
      (o : Opened) → ((u : Upstream) × (o ≡ opened u)) ⊎ ((e : String) × (o ≡ not_opened e))
  Opened-cases (opened u) = inl (u, refl)
  Opened-cases (not_opened e) = inr (e, refl)

  open_upstream-reloads :
      (u : Config.Upstream) (h : Health) (d : Daemon World)
      → (open_upstream dp devices u h d).1.reloads ≡ d.reloads
  unfolding open_upstream
  open_upstream-reloads u h d = elim (Opened-cases (devices.start u h d.world).0) [
    | inl (x, e) ↦ rw (e, open_upstream)
    | inr (x, e) ↦ rw (e, open_upstream)
  ]

  take_upstream-reloads :
      (current : Map String Upstream) (h : Health) (u : Config.Upstream) (d : Daemon World)
      → (take_upstream dp devices current h u d).1.reloads ≡ d.reloads
  unfolding take_upstream
  take_upstream-reloads current h u d = elim (Option-cases (get current u.name)) [
    | inl e ↦ rw (e, take_upstream) (open_upstream-reloads u h d)
    | inr (old, e) ↦ elim (Bool-cases (old.source == devices.content u.conf)) [
      | inl f ↦ rw (e, f, take_upstream)
      | inr f ↦
          rw (e, f, take_upstream)
            (open_upstream-reloads u h (drop_upstream dp devices old d)
              ∙ drop_upstream-reloads old d)
    ]
  ]

  take_upstreams-reloads :
      (current : Map String Upstream) (h : Health) (us : List Config.Upstream) (d : Daemon World)
      → (take_upstreams dp devices current h us d).1.reloads ≡ d.reloads
  unfolding take_upstreams
  take_upstreams-reloads current h [] d = refl
  take_upstreams-reloads current h (u ∷ us) d =
      take_upstreams-reloads (del current u.name) h us (take_upstream dp devices current h u d).1
      ∙ take_upstream-reloads current h u d

  drop_all-reloads :
      (us : List Upstream) (d : Daemon World) → (drop_all dp devices us d).reloads ≡ d.reloads
  unfolding drop_all
  drop_all-reloads [] d = refl
  drop_all-reloads (u ∷ us) d =
      drop_all-reloads us (drop_upstream dp devices u d) ∙ drop_upstream-reloads u d

  apply_alive-reloads :
      (u : Upstream) (d : Daemon World) → (apply_alive dp u d).1.reloads ≡ d.reloads
  unfolding apply_alive
  apply_alive-reloads u d = ground arith

  raise_all-reloads :
      (us : List Upstream) (d : Daemon World) → (raise_all dp devices us d).1.reloads ≡ d.reloads
  unfolding raise_all
  raise_all-reloads [] d = refl
  raise_all-reloads (u ∷ us) d =
      let d' : Daemon World = record d { world = (devices.bring_up u d.world).1 } in
      raise_all-reloads us (apply_alive dp u d').1 ∙ apply_alive-reloads u d'

  count_reload-IsCounted :
      (errs : List Failure) (d : Daemon World)
      → IsCounted d.reloads (reloaded errs) (count_reload dp devices errs d).reloads
  unfolding count_reload
  count_reload-IsCounted [] d = refl
  count_reload-IsCounted (e ∷ es) d = refl

  apply_upstreams-IsCounted :
      (s4_down : ℕ) (errs : List Failure) (d : Daemon World)
      → IsCounted d.reloads
          (apply_upstreams dp devices s4_down errs d).0
          (apply_upstreams dp devices s4_down errs d).1.reloads
  unfolding apply_upstreams
  apply_upstreams-IsCounted s4_down errs d =
      let pushed = dp.set_upstreams (interfaces d.ups) (client_mtu s4_down d.ups) d.world in
      let d' : Daemon World = record d { world = pushed.1 } in
      elim (Option-cases pushed.0) [
        | inr (x, e) ↦ rw (e, apply_upstreams) refl
        | inl e ↦
            rw (e, apply_upstreams)
              (subst
                (λ r.
                  IsCounted r (reloaded (errs ++ (raise_all dp devices d.ups d').0))
                    (count_reload dp devices (errs ++ (raise_all dp devices d.ups d').0)
                      (raise_all dp devices d.ups d').1).reloads)
                (raise_all-reloads d.ups d')
                (count_reload-IsCounted (errs ++ (raise_all dp devices d.ups d').0)
                  (raise_all dp devices d.ups d').1))
      ]

  -- Reload counts a rejected reload and one with errors as an error, and one without as ok, each
  -- once; only a reload that SetUpstreams fails is not counted at all.
  pub reload-IsCounted :
      (s4_down : ℕ) (cfg : Config) (d : Daemon World)
      → IsCounted d.reloads
          (reload dp devices s4_down cfg d).0
          (reload dp devices s4_down cfg d).1.reloads
  unfolding reload
  reload-IsCounted s4_down cfg d = elim (List-cases (restart_required d.cfg cfg)) [
    | inr (c, cs, e) ↦ rw (e, reload) refl
    | inl e ↦
        let taken = take_upstreams dp devices (by_name [] d.ups) cfg.health cfg.upstreams d in
        let dropped = map (λ x. x.1) taken.0.2 in
        let d' : Daemon World = drop_all dp devices dropped taken.1 in
        let ready : Daemon World = record d' { ups = taken.0.1; cfg = cfg } in
        rw (e, reload)
          (subst
            (λ q.
              IsCounted q (apply_upstreams dp devices s4_down taken.0.0 ready).0
                (apply_upstreams dp devices s4_down taken.0.0 ready).1.reloads)
            (drop_all-reloads dropped taken.1
              ∙ take_upstreams-reloads (by_name [] d.ups) cfg.health cfg.upstreams d)
            (apply_upstreams-IsCounted s4_down taken.0.0 ready))
  ]
