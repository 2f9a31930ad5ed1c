-- ===== src/Daemon/Outcome.antt =====
-- What Daemon.route has done when it returns: success means that the host forwards the peer as
-- policy.Select wants.
use lotsman.Prelude.{
  ◌≡◌, ◌≢◌, refl, sym, ◌∙◌, ap, ◌⊎◌, inl, inr, Bool, true, false, Option, none, some, List, [], ◌∷◌,
  String, ◌==◌, arith, Bool-cases, nat_eq, string_eq, eq_iff,
}
use lotsman.Prelude.Maps.{get, put, get-put, get-del}
use lotsman.Net.{Addr}
use lotsman.Config.{profile, interface_name, Profile}
use lotsman.Policy.{select}
use lotsman.Dataplane.{Dataplane, Contract}
use lotsman.Daemon.{
  Daemon, Peer, Failure, unroute, move, assign, settle, or_zero, route, candidates, interface_of,
  select_and_assign, and_then, missing_profile, dataplane_failure,
}
use lotsman.Daemon.Invariant.{IsValid}
use lotsman.Daemon.Steps.{unroute-cases, move-cases, Wanted, interface_of-named, wanted_upstream}
use lotsman.Daemon.Routing.{settle-IsValid}

none-ne-some : {b : Bool} → ◌≢◌ {A = Option Bool} none (some b)
none-ne-some h = cc

unset : (o : Option String) → o ≢ some "" → (or_zero "" o == "") ≡ true → o ≡ none
unset none n h = refl
unset (some s) n h = absurd (n (ap some ((eq_iff s "").0 h)))

same_as :
    (o : Option String) (want : String) → want ≢ "" → (want == or_zero "" o) ≡ true → o ≡ some want
same_as none want n h = absurd (n ((eq_iff want "").0 h))
same_as (some s) want n h = ap some (sym ((eq_iff want s).0 h))

-- The interface that an assignment stands for.
abbrev pub through : Option String → Option String
through none = none
through (some name) = some (interface_name name)

module _ {World : Type 0} (dp : Dataplane World) (c : Contract dp) where
  -- The address is assigned to `want`, and the host forwards it there, or blocks it.
  pub record IsAt (ip : Addr) (want : Option String) (d : Daemon World) : Type 0 where
    pub assignment : get d.assignments ip ≡ want
    pub forwarding : c.forwards d.world ip ≡ through want

  -- A successful unroute blocks the address and forgets it.
  pub unroute_done :
      (ip : Addr) (d : Daemon World)
      → (unroute dp ip d).0 ≡ []
      → IsAt ip none (unroute dp ip d).1 × (get (unroute dp ip d).1.unroute_pending ip ≡ none)
  unroute_done ip d h = elim (unroute-cases dp c ip d) [
    | inl (e, f) ↦ rw f (
      record {
        assignment = ground (arith, get-del d.assignments ip ip);
        forwarding = c.unroute_blocks ip d.world e;
      },
      ground (arith, get-del d.unroute_pending ip ip),
    )
    | inr (s, e, f) ↦ absurd (ground (arith, ap (λ (r : List Failure × Daemon World). r.0) f))
  ]

  move_done :
      (ip : Addr) (want : String) (d : Daemon World)
      → interface_of d.ups want ≡ interface_name want
      → (move dp ip want d).0 ≡ []
      → IsAt ip (some want) (move dp ip want d).1
  move_done ip want d i h = elim (move-cases dp c ip want d) [
    | inl (e, f) ↦ rw f (record {
      assignment = ground (arith, get-put d.assignments ip want ip);
      forwarding = c.route_moves ip (interface_of d.ups want) d.world e ∙ ap some i;
    })
    | inr (s, e, f) ↦ absurd (ground (arith, ap (λ (r : List Failure × Daemon World). r.0) f))
  ]

  assign_done :
      (ip : Addr) (want : Option String) (d : Daemon World)
      → Wanted dp c d want
      → IsValid c.forwards d
      → get d.unroute_pending ip ≢ some true
      → (assign dp ip want d).0 ≡ []
      → IsAt ip want (assign dp ip want d).1
  unfolding assign
  assign_done ip none d u v n h = elim (Bool-cases (or_zero "" (get d.assignments ip) == "")) [
    | inl e ↦
        rw (e, assign)
          (let gone = unset (get d.assignments ip) (v.assigned ip) e in
            record { assignment = gone; forwarding = v.recorded ip gone })
    | inr e ↦ rw (e, assign) (unroute_done ip d (rw (e, assign) at h)).0
  ]
  assign_done ip (some want) d (u, m, f) v n h =
      elim (Bool-cases (want == or_zero "" (get d.assignments ip))) [
        | inl e ↦
            rw (e, assign)
              (let kept = same_as (get d.assignments ip) want (λ z. v.names u m (f ∙ z)) e in
                record {
                  assignment = kept;
                  forwarding = elim (v.exact ip want kept) [ inl p ↦ absurd (n p) | inr k ↦ k ];
                })
        | inr e ↦
            rw (e, assign)
              (move_done ip want d (interface_of-named d.ups want v.named u m f)
                (rw (e, assign) at h))
      ]

  -- After settle has succeeded no unroute of the address is pending.
  settle_done :
      (ip : Addr) (d : Daemon World)
      → (settle dp ip d).0 ≡ []
      → get (settle dp ip d).1.unroute_pending ip ≢ some true
  unfolding settle
  settle_done ip d h = elim (Bool-cases (or_zero false (get d.unroute_pending ip))) [
    | inl e ↦
        rw (e, settle)
          (λ p. absurd (none-ne-some (sym (unroute_done ip d (rw (e, settle) at h)).1 ∙ p)))
    | inr e ↦ rw (e, settle) (λ p. ground arith)
  ]

  and_then-nil :
      {D : Type 0} (r : List Failure × D) (f : D → List Failure × D)
      → (and_then r f).0 ≡ []
      → (r.0 ≡ []) × ((f r.1).0 ≡ []) × ((and_then r f).1 ≡ (f r.1).1)
  and_then-nil ([], d) f h = (refl, h, refl)
  and_then-nil (x ∷ xs, d) f h = absurd (ground arith)

  -- What policy.Select answers for a peer of the profile at the address, in that state.
  abbrev pub desired : Profile → Addr → Daemon World → Option String
  desired prof ip d = select prof (candidates d.ups) (or_zero "" (get d.assignments ip))

  Wanted-some :
      (d : Daemon World) (o : Option String)
      → ((want : String) → o ≡ some want → Wanted dp c d (some want))
      → Wanted dp c d o
  Wanted-some d none f = tt
  Wanted-some d (some want) f = f want refl

  desired-Wanted :
      (prof : Profile) (ip : Addr) (d : Daemon World) → Wanted dp c d (desired prof ip d)
  desired-Wanted prof ip d =
      Wanted-some d (desired prof ip d)
        (wanted_upstream prof d.ups (or_zero "" (get d.assignments ip)))

  -- When routing a peer of a valid daemon, whose profile is configured, reports no failure, the peer
  -- is assigned to the upstream that policy.Select names and the host forwards it there; and if Select
  -- names none, the peer is unassigned and blocked. What Select is asked about is the state after any
  -- unroute that was pending.
  pub route_done :
      (p : Peer) (prof : Profile) (d : Daemon World)
      → IsValid c.forwards d
      → profile d.cfg p.profile ≡ some prof
      → (route dp p d).0 ≡ []
      → IsAt p.ip (desired prof p.ip (settle dp p.ip d).1) (route dp p d).1
  unfolding route select_and_assign
  route_done p prof d v e h =
      let s = (settle dp p.ip d).1 in
      let run : route dp p d ≡ and_then (settle dp p.ip d) (select_and_assign dp p.ip prof) =
        rw (e, route) in
      let (settled, assigned, same) =
        and_then-nil (settle dp p.ip d) (select_and_assign dp p.ip prof)
          (ap (λ (r : List Failure × Daemon World). r.0) (sym run) ∙ h) in
      rw run (
        rw same (
          assign_done p.ip (desired prof p.ip s) s (desired-Wanted prof p.ip s)
            (settle-IsValid dp c p.ip d v) (settle_done p.ip d settled) assigned))

  -- A peer whose profile is not configured is reported as that, and ends up unassigned, blocked and
  -- with no unroute pending, unless the host's own Unroute of its address failed: then that failure is
  -- reported too, the unroute is pending, and nothing but that and the host's own state has changed.
  -- It holds over a host that keeps the dataplane's contract.
  pub route_unknown_profile :
      (p : Peer) (d : Daemon World)
      → profile d.cfg p.profile ≡ none
      → (((dp.unroute p.ip d.world).0 ≡ none)
          × ((route dp p d).0 ≡ missing_profile p ∷ [])
          × IsAt p.ip none (route dp p d).1
          × (get (route dp p d).1.unroute_pending p.ip ≡ none))
        ⊎ ((e : String) × ((dp.unroute p.ip d.world).0 ≡ some e)
            × (route dp p d ≡ (
              missing_profile p ∷ dataplane_failure e ∷ [],
              record d {
                unroute_pending = put d.unroute_pending p.ip true;
                world = (dp.unroute p.ip d.world).1;
              },
            )))
  unfolding route
  route_unknown_profile p d e = elim (unroute-cases dp c p.ip d) [
    | inl (g, f) ↦
        let none_failed = ap (λ (r : List Failure × Daemon World). r.0) f in
        let (at, cleared) = unroute_done p.ip d none_failed in
        rw (e, route) (inl (g, ap (λ fs. missing_profile p ∷ fs) none_failed, at, cleared))
    | inr (s, g, f) ↦
        rw (e, route)
          (inr (s, g, ap (λ (r : List Failure × Daemon World). (missing_profile p ∷ r.0, r.1)) f))
  ]
