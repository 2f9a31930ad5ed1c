-- ===== src/Daemon/Routing.antt =====
-- Daemon.route: what it does to the invariant, and to other addresses than the peer's.
use lotsman.Prelude.{
  ◌≡◌, ◌≢◌, ◌⊎◌, refl, sym, ◌∙◌, ap, inl, inr, Bool, true, false, Option, none, some, List, [], ◌∷◌,
  String, arith, Option-cases, Bool-cases, if◌then◌else◌, nat_eq, string_eq,
}
use lotsman.Prelude.Maps.{get, get-put, get-del}
use lotsman.Net.{Addr}
use lotsman.Config.{profile}
use lotsman.Dataplane.{Dataplane, Contract}
use lotsman.Daemon.{
  Daemon, Peer, Failure, unroute, move, assign, settle, or_zero, route, interface_of,
  select_and_assign, and_then,
}
use lotsman.Daemon.Invariant.{IsValid, Owned}
use lotsman.Daemon.Steps.{
  unroute-cases, move-cases, unroute-IsValid, select_and_assign-IsValid, Refused, ValidOrRefused,
}

module _ {World : Type 0} (dp : Dataplane World) (c : Contract dp) where
  -- A call that touches nothing of the daemon but the forwarding and the bookkeeping of one address.
  pub record Touches (ip : Addr) (d d' : Daemon World) : Type 0 where
    pub same_ups : d'.ups ≡ d.ups
    pub same_cfg : d'.cfg ≡ d.cfg
    pub same_peers : d'.device_peers ≡ d.device_peers
    pub same_forwards : (a : Addr) → ip ≢ a → c.forwards d'.world a ≡ c.forwards d.world a
    pub same_assignments : (a : Addr) → ip ≢ a → get d'.assignments a ≡ get d.assignments a
    pub same_pending : (a : Addr) → ip ≢ a → get d'.unroute_pending a ≡ get d.unroute_pending a

  Touches-refl : (ip : Addr) (d : Daemon World) → Touches ip d d
  Touches-refl ip d = record {
    same_ups = refl;
    same_cfg = refl;
    same_peers = refl;
    same_forwards = λ a n. refl;
    same_assignments = λ a n. refl;
    same_pending = λ a n. refl;
  }

  Touches-trans :
      (ip : Addr) (d e f : Daemon World) → Touches ip d e → Touches ip e f → Touches ip d f
  Touches-trans ip d e f s t = record {
    same_ups = t.same_ups ∙ s.same_ups;
    same_cfg = t.same_cfg ∙ s.same_cfg;
    same_peers = t.same_peers ∙ s.same_peers;
    same_forwards = λ a n. t.same_forwards a n ∙ s.same_forwards a n;
    same_assignments = λ a n. t.same_assignments a n ∙ s.same_assignments a n;
    same_pending = λ a n. t.same_pending a n ∙ s.same_pending a n;
  }

  pub unroute-Touches : (ip : Addr) (d : Daemon World) → Touches ip d (unroute dp ip d).1
  unroute-Touches ip d = elim (unroute-cases dp c ip d) [
    | inl (e, f) ↦ rw f (record {
      same_ups = refl;
      same_cfg = refl;
      same_peers = refl;
      same_forwards = λ a n. c.unroute_others ip a d.world n;
      same_assignments = λ a n. ground (arith, get-del d.assignments ip a);
      same_pending = λ a n. ground (arith, get-del d.unroute_pending ip a);
    })
    | inr (s, e, f) ↦ rw f (record {
      same_ups = refl;
      same_cfg = refl;
      same_peers = refl;
      same_forwards = λ a n. c.unroute_others ip a d.world n;
      same_assignments = λ a n. refl;
      same_pending = λ a n. ground (arith, get-put d.unroute_pending ip true a);
    })
  ]

  move-Touches : (ip : Addr) (want : String) (d : Daemon World) → Touches ip d (move dp ip want d).1
  move-Touches ip want d = elim (move-cases dp c ip want d) [
    | inl (e, f) ↦ rw f (record {
      same_ups = refl;
      same_cfg = refl;
      same_peers = refl;
      same_forwards = λ a n. c.route_others ip a (interface_of d.ups want) d.world n;
      same_assignments = λ a n. ground (arith, get-put d.assignments ip want a);
      same_pending = λ a n. refl;
    })
    | inr (s, e, f) ↦ rw f (record {
      same_ups = refl;
      same_cfg = refl;
      same_peers = refl;
      same_forwards = λ a n. c.route_others ip a (interface_of d.ups want) d.world n;
      same_assignments = λ a n. refl;
      same_pending = λ a n. refl;
    })
  ]

  Touches-if :
      (ip : Addr) (d : Daemon World) (b : Bool) (r : List Failure × Daemon World)
      → Touches ip d r.1
      → Touches ip d (if b then ([], d) else r).1
  Touches-if ip d true r t = Touches-refl ip d
  Touches-if ip d false r t = t

  assign-Touches :
      (ip : Addr) (want : Option String) (d : Daemon World) → Touches ip d (assign dp ip want d).1
  unfolding assign
  assign-Touches ip none d = Touches-if ip d _ (unroute dp ip d) (unroute-Touches ip d)
  assign-Touches ip (some want) d = Touches-if ip d _ (move dp ip want d) (move-Touches ip want d)

  pub settle-Touches : (ip : Addr) (d : Daemon World) → Touches ip d (settle dp ip d).1
  unfolding settle
  settle-Touches ip d = elim (Bool-cases (or_zero false (get d.unroute_pending ip))) [
    | inl e ↦ rw (e, settle) (unroute-Touches ip d)
    | inr e ↦ rw (e, settle) (Touches-refl ip d)
  ]

  and_then-Touches :
      (ip : Addr) (d : Daemon World) (r : List Failure × Daemon World)
      (f : Daemon World → List Failure × Daemon World)
      → Touches ip d r.1
      → ((e : Daemon World) → Touches ip e (f e).1)
      → Touches ip d (and_then r f).1
  and_then-Touches ip d ([], e) f t g = Touches-trans ip d e (f e).1 t (g e)
  and_then-Touches ip d (x ∷ xs, e) f t g = t

  -- Routing a peer changes nothing that concerns another address.
  pub route-Touches : (p : Peer) (d : Daemon World) → Touches p.ip d (route dp p d).1
  unfolding route select_and_assign
  route-Touches p d = elim (Option-cases (profile d.cfg p.profile)) [
    | inl e ↦ rw (e, route) (unroute-Touches p.ip d)
    | inr (prof, e) ↦
        rw (e, route)
          (and_then-Touches p.ip d (settle dp p.ip d) (select_and_assign dp p.ip prof)
            (settle-Touches p.ip d) (λ x. assign-Touches p.ip _ x))
  ]

  pub settle-IsValid :
      (ip : Addr) (d : Daemon World) → IsValid c.forwards d → IsValid c.forwards (settle dp ip d).1
  unfolding settle
  settle-IsValid ip d v = elim (Bool-cases (or_zero false (get d.unroute_pending ip))) [
    | inl e ↦ rw (e, settle) (unroute-IsValid dp c ip d v)
    | inr e ↦ rw (e, settle) v
  ]

  and_then-Either :
      (V : List Failure × Daemon World → Type 0) (r : List Failure × Daemon World)
      (f : Daemon World → List Failure × Daemon World)
      → V r
      → V (f r.1)
      → V (and_then r f)
  and_then-Either V ([], e) f v g = g
  and_then-Either V (x ∷ xs, e) f v g = v

  pub Touches-Owned :
      (ip : Addr) (d e : Daemon World) (a : Addr)
      → Touches ip d e
      → Owned c.forwards d a
      → Owned c.forwards e a
  Touches-Owned ip d e a t (k, p, h, f) = (k, p, ap (λ m. get m k) t.same_peers ∙ h, f)

  -- Routing a peer that the device has leaves a valid daemon valid, also when the host fails to unroute
  -- it, unless the host refuses to route it to an upstream: then that is the only failure, the daemon
  -- was valid just before that call, after any unroute that was pending, and the call has changed
  -- nothing but the host's own state. It holds over a host that keeps the dataplane's contract.
  pub route-IsValid :
      (p : Peer) (d : Daemon World)
      → Owned c.forwards d p.ip
      → IsValid c.forwards d
      → IsValid c.forwards (route dp p d).1
        ⊎ (IsValid c.forwards (settle dp p.ip d).1
            × Refused dp c p.ip (settle dp p.ip d).1 (route dp p d))
  unfolding route
  route-IsValid p d o v = elim (Option-cases (profile d.cfg p.profile)) [
    | inl e ↦ rw (e, route) (inl (unroute-IsValid dp c p.ip d v))
    | inr (prof, e) ↦
        let s = settle dp p.ip d in
        let settled = settle-IsValid p.ip d v in
        rw (e, route)
          (with_settled settled (
            and_then-Either (ValidOrRefused dp c p.ip s.1) s (select_and_assign dp p.ip prof)
              (inl settled)
              (select_and_assign-IsValid dp c p.ip prof s.1
                (Touches-Owned p.ip d s.1 p.ip (settle-Touches p.ip d) o) settled)))
  ]
    where
      with_settled : {A B C : Type 0} → B → A ⊎ C → A ⊎ (B × C)
      with_settled b (inl a) = inl a
      with_settled b (inr c) = inr (b, c)

  -- A routing without a failure keeps the daemon valid.
  pub routed-IsValid :
      (p : Peer) (d : Daemon World)
      → Owned c.forwards d p.ip
      → IsValid c.forwards d
      → (route dp p d).0 ≡ []
      → IsValid c.forwards (route dp p d).1
  routed-IsValid p d o v h = elim (route-IsValid p d o v) [
    | inl w ↦ w
    | inr (w, (want, e, g, f)) ↦
        absurd (ground (arith, sym (ap (λ (r : List Failure × Daemon World). r.0) f) ∙ h))
  ]
