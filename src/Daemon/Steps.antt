-- ===== src/Daemon/Steps.antt =====
-- The calls that move one peer: their outcomes, and what each does to the invariant.
use lotsman.Prelude.{
  ◌+◌, ◌≡◌, ◌≢◌, refl, ◌∙◌, ap, subst, ◌⊎◌, inl, inr, Option, none, some, List, [], ◌∷◌, String,
  ◌==◌, In, arith, Option-cases, Bool-cases, nat_eq, string_eq, eq_iff,
}
use lotsman.Prelude.Maps.{get, put, get-put}
use lotsman.Net.{Addr}
use lotsman.Config.{interface_name, Profile}
use lotsman.Policy
use lotsman.Policy.{select}
use lotsman.Policy.Choice.{select-IsBest}
use lotsman.Dataplane.{Dataplane, Contract}
use lotsman.Daemon.{
  Daemon, Upstream, Failure, dataplane_failure, unroute, move, assign, or_zero, candidates,
  interface_of, select_and_assign,
}
use lotsman.Daemon.Invariant.{
  IsValid, Owned, unrouted, unroute_stuck, unrouted-IsValid, unroute_stuck-IsValid,
}

pub interface_of-named :
    (ups : List Upstream) (want : String)
    → ((u : Upstream) → In u ups → u.device ≡ interface_name u.config.name)
    → (u : Upstream) → In u ups
    → u.config.name ≡ want
    → interface_of ups want ≡ interface_name want
unfolding interface_of
interface_of-named [] want named u m e = absurd m
interface_of-named (x ∷ us) want named u m e = ground (
  arith,
  eq_iff x.config.name want,
  named x (inl refl),
  ap interface_name e,
  interface_of-named us want (λ w n. named w (inr n)) u,
)

candidates-In :
    (ups : List Upstream) (u : Policy.Upstream)
    → In u (candidates ups)
    → (w : Upstream) × In w ups × (w.config.name ≡ u.config.name)
unfolding candidates
candidates-In [] u m = absurd m
candidates-In (x ∷ us) u (inl e) = (x, inl refl, ap (λ (v : Policy.Upstream). v.config.name) e)
candidates-In (x ∷ us) u (inr m) = let (w, n, e) = candidates-In us u m in (w, inr n, e)

-- What Select wants is the name of one of the daemon's upstreams.
pub wanted_upstream :
    (p : Profile) (ups : List Upstream) (current want : String)
    → select p (candidates ups) current ≡ some want
    → (u : Upstream) × In u ups × (u.config.name ≡ want)
wanted_upstream p ups current want h =
    let (u, best, e) = select-IsBest p (candidates ups) current want h in
    let (w, m, f) = candidates-In ups u best.listed in (w, m, f ∙ e)

module _ {World : Type 0} (dp : Dataplane World) (c : Contract dp) where
  pub unroute-cases :
      (ip : Addr) (d : Daemon World)
      → (((dp.unroute ip d.world).0 ≡ none) × (unroute dp ip d ≡ ([], unrouted dp c ip d)))
        ⊎ ((e : String) × ((dp.unroute ip d.world).0 ≡ some e)
            × (unroute dp ip d ≡ (dataplane_failure e ∷ [], unroute_stuck dp c ip d)))
  unfolding unroute
  unroute-cases ip d = elim (Option-cases (dp.unroute ip d.world).0) [
    | inl e ↦ inl (e, rw (e, unroute))
    | inr (s, e) ↦ inr (s, e, rw (e, unroute))
  ]

  pub unroute-IsValid :
      (ip : Addr) (d : Daemon World) → IsValid c.forwards d → IsValid c.forwards (unroute dp ip d).1
  unroute-IsValid ip d v = elim (unroute-cases ip d) [
    | inl (e, f) ↦ rw f (unrouted-IsValid dp c ip d e v)
    | inr (s, e, f) ↦ rw f (unroute_stuck-IsValid dp c ip d v)
  ]

  -- The outcomes of a move.
  abbrev pub moved : Addr → String → Daemon World → Daemon World
  moved ip want d = record d {
    assignments = put d.assignments ip want;
    reroutes = put d.reroutes want (or_zero 0 (get d.reroutes want) + 1);
    world = (dp.route ip (interface_of d.ups want) d.world).1;
  }

  abbrev pub move_failed : Addr → String → Daemon World → Daemon World
  move_failed ip want d = record d { world = (dp.route ip (interface_of d.ups want) d.world).1 }

  pub move-cases :
      (ip : Addr) (want : String) (d : Daemon World)
      → (((dp.route ip (interface_of d.ups want) d.world).0 ≡ none)
          × (move dp ip want d ≡ ([], moved ip want d)))
        ⊎ ((e : String) × ((dp.route ip (interface_of d.ups want) d.world).0 ≡ some e)
            × (move dp ip want d ≡ (dataplane_failure e ∷ [], move_failed ip want d)))
  unfolding move
  move-cases ip want d = elim (Option-cases (dp.route ip (interface_of d.ups want) d.world).0) [
    | inl e ↦ inl (e, rw (e, move))
    | inr (s, e) ↦ inr (s, e, rw (e, move))
  ]

  moved-IsValid :
      (ip : Addr) (want : String) (d : Daemon World)
      → (dp.route ip (interface_of d.ups want) d.world).0 ≡ none
      → interface_of d.ups want ≡ interface_name want
      → want ≢ ""
      → Owned c.forwards d ip
      → IsValid c.forwards d
      → IsValid c.forwards (moved ip want d)
  moved-IsValid ip want d e i n o v = record {
    named = v.named;
    names = v.names;
    recorded = λ a h. ground (
      arith,
      get-put d.assignments ip want a,
      c.route_others ip a (interface_of d.ups want) d.world,
      v.recorded a,
    );
    exact = λ a name h. ground (
      arith,
      get-put d.assignments ip want a,
      c.route_moves ip (interface_of d.ups want) d.world e,
      c.route_others ip a (interface_of d.ups want) d.world,
      v.exact a name,
      i,
    );
    owned = λ a name h. elim (Bool-cases (ip == a)) [
      | inl same ↦ subst (Owned c.forwards d) (ground arith) o
      | inr other ↦ v.owned a name (ground (arith, get-put d.assignments ip want a))
    ];
    assigned = λ a h. ground (arith, get-put d.assignments ip want a, v.assigned a);
  }

  -- The host refused to route the address to some upstream: the one failure is that, and nothing but
  -- the host's own state differs from `s`.
  abbrev pub Refused : Addr → Daemon World → List Failure × Daemon World → Type 0
  Refused ip s r =
      (want : String) × (e : String) × ((dp.route ip (interface_of s.ups want) s.world).0 ≡ some e)
      × (r ≡ (dataplane_failure e ∷ [], move_failed ip want s))

  -- A call leaves a valid daemon, or the host refused to route the address.
  abbrev pub ValidOrRefused : Addr → Daemon World → List Failure × Daemon World → Type 0
  ValidOrRefused ip s r = IsValid c.forwards r.1 ⊎ Refused ip s r

  move-IsValid :
      (ip : Addr) (want : String) (d : Daemon World)
      → interface_of d.ups want ≡ interface_name want
      → want ≢ ""
      → Owned c.forwards d ip
      → IsValid c.forwards d
      → ValidOrRefused ip d (move dp ip want d)
  move-IsValid ip want d i n o v = elim (move-cases ip want d) [
    | inl (e, f) ↦ rw f (inl (moved-IsValid ip want d e i n o v))
    | inr (s, e, f) ↦ inr (want, s, e, f)
  ]

  -- What policy.Select may want of the daemon.
  abbrev pub Wanted : Daemon World → Option String → Type 0
  Wanted d none = Unit
  Wanted d (some want) = (u : Upstream) × In u d.ups × (u.config.name ≡ want)

  assign-IsValid :
      (ip : Addr) (want : Option String) (d : Daemon World)
      → Wanted d want
      → Owned c.forwards d ip
      → IsValid c.forwards d
      → ValidOrRefused ip d (assign dp ip want d)
  unfolding assign
  assign-IsValid ip none d n o v = elim (Bool-cases (or_zero "" (get d.assignments ip) == "")) [
    | inl e ↦ rw (e, assign) (inl v)
    | inr e ↦ rw (e, assign) (inl (unroute-IsValid ip d v))
  ]
  assign-IsValid ip (some want) d (u, m, e) o v =
      elim (Bool-cases (want == or_zero "" (get d.assignments ip))) [
        | inl k ↦ rw (k, assign) (inl v)
        | inr k ↦
            rw (k, assign)
              (move-IsValid ip want d (interface_of-named d.ups want v.named u m e)
                (λ z. v.names u m (e ∙ z)) o v)
      ]

  -- unroute changes neither the upstreams nor the device's peers.
  pub unroute-frame :
      (ip : Addr) (d : Daemon World)
      → ((unroute dp ip d).1.ups ≡ d.ups)
        × ((unroute dp ip d).1.device_peers ≡ d.device_peers)
        × ((unroute dp ip d).1.cfg ≡ d.cfg)
  unfolding unroute
  unroute-frame ip d = ground arith

  pub select_and_assign-IsValid :
      (ip : Addr) (p : Profile) (d : Daemon World)
      → Owned c.forwards d ip
      → IsValid c.forwards d
      → ValidOrRefused ip d (select_and_assign dp ip p d)
  unfolding select_and_assign
  select_and_assign-IsValid ip p d o v =
      elim (Option-cases (select p (candidates d.ups) (or_zero "" (get d.assignments ip)))) [
        | inl e ↦ rw e (assign-IsValid ip none d tt o v)
        | inr (want, e) ↦ rw e (
            assign-IsValid ip (some want) d
              (wanted_upstream p d.ups (or_zero "" (get d.assignments ip)) want e) o v)
      ]
