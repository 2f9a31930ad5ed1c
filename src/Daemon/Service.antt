-- ===== src/Daemon/Service.antt =====
-- Daemon.Reconcile as a whole: whom the host forwards after it, and through what.
use lotsman.Prelude.{
  ◌≡◌, ◌≢◌, refl, sym, ◌∙◌, ap, subst, ◌⊎◌, inl, inr, Bool, true, none, some, List, [], ◌∷◌, map,
  String, In, arith, Option-cases, nat_eq, string_eq, any-In, All, All-In,
}
use lotsman.Prelude.Maps.{Map, get}
use lotsman.Net.{Addr}
use lotsman.Config.{Config, profile, interface_name, Profile}
use lotsman.Policy
use lotsman.Policy.{select, usable}
use lotsman.Policy.Choice.{IsBest, select-IsBest, select_fails_closed}
use lotsman.Dataplane.{Dataplane, Contract}
use lotsman.Daemon.{
  Daemon, Downstream, Upstream, Peer, Key, Failure, route, or_zero, settle, candidates, revoke_all,
  is_wanted, is_held, holds, admit, admit_all, reconcile_with,
}
use lotsman.Daemon.Invariant.{IsValid, Independent}
use lotsman.Daemon.Routing.{settle-Touches}
use lotsman.Daemon.Outcome.{IsAt, route_done, through}
use lotsman.Daemon.Revocation.{revoke_all_lem, key-In, append-nil_parts, is_wanted-In, none-ne-some}
use lotsman.Daemon.Admission.{
  admit-cases, added-IsValid, admit-IsStable, admit-IsValid, added, after_add, IsStable,
  admit_all-IsValid, admit_all-others, admit-Admits,
}

abbrev keys : Map Key Peer → List Key
keys m = map (λ e. e.0) m

module _ {World : Type 0} (dp : Dataplane World) (down : Downstream World) (c : Contract dp)
    (free : Independent c.forwards down) where
  -- The daemon between the two loops.
  abbrev pub revoked : List Peer → Daemon World → Daemon World
  revoked ps d = (revoke_all dp down ps (keys d.device_peers) d).1

  revoked-IsStable :
      (ps : List Peer) (d : Daemon World)
      → IsStable ps d.device_peers
      → IsStable ps (revoked ps d).device_peers
  revoked-IsStable ps d s = record {
    listed = s.listed;
    kept = λ p q m h.
        s.kept p q m
          ((revoke_all_lem dp down c free ps (keys d.device_peers) d).1.fewer p.public_key q h);
  }

  -- Over a host that keeps the dataplane's contract and a device that does not touch forwarding, a
  -- Reconcile of a valid daemon whose second loop, which admits and routes the store's peers, reports
  -- no failure leaves it valid, whichever calls of the first loop, which revokes peers, fail, as long
  -- as each key keeps its address.
  pub reconcile-IsValid :
      (ps : List Peer) (d : Daemon World)
      → IsStable ps d.device_peers
      → IsValid c.forwards d
      → (admit_all dp down (is_held (revoked ps d).device_peers) ps (revoked ps d)).0 ≡ []
      → IsValid c.forwards (reconcile_with dp down ps d).1
  unfolding reconcile_with
  reconcile-IsValid ps d s v h =
      admit_all-IsValid dp down c free (is_held (revoked ps d).device_peers) ps (revoked ps d)
        (revoked-IsStable ps d s) ((revoke_all_lem dp down c free ps (keys d.device_peers) d).0 v) h

  -- Once the first loop has reported no failure, every peer on the device is one of the store's.
  revoked_listed :
      (ps : List Peer) (d : Daemon World)
      → (revoke_all dp down ps (keys d.device_peers) d).0 ≡ []
      → (k : Key) (q : Peer) → get (revoked ps d).device_peers k ≡ some q
      → (get d.device_peers k ≡ some q) × (is_wanted ps k ≡ true)
  revoked_listed ps d h k q e =
      let (_, s, w) = revoke_all_lem dp down c free ps (keys d.device_peers) d in
      let f = s.fewer k q e in (f, w h k q (key-In d.device_peers k q f) e)

  -- After a Reconcile of a valid daemon that reports no failure, an address that no peer of the store
  -- has is unassigned and blocked: whoever was removed from the store is cut off. It holds for a host
  -- that keeps the dataplane's contract, while each key keeps its address.
  pub reconcile_cuts_off :
      (ps : List Peer) (d : Daemon World) (a : Addr)
      → IsStable ps d.device_peers
      → IsValid c.forwards d
      → ((p : Peer) → In p ps → p.ip ≢ a)
      → (reconcile_with dp down ps d).0 ≡ []
      → IsAt dp c a none (reconcile_with dp down ps d).1
  unfolding reconcile_with
  reconcile_cuts_off ps d a s v n h =
      let r = revoke_all dp down ps (keys d.device_peers) d in
      let held = is_held r.1.device_peers in
      let (done, _) = append-nil_parts r.0 (admit_all dp down held ps r.1).0 h in
      let v' = (revoke_all_lem dp down c free ps (keys d.device_peers) d).0 v in
      let rest = admit_all-others dp down c free held ps r.1 a n in
      let gone : get r.1.assignments a ≡ none = elim (Option-cases (get r.1.assignments a)) [
        | inl e ↦ e
        | inr (name, e) ↦
            let (k, q, f, same) = v'.owned a name e in
            let (old, wanted) = revoked_listed ps d done k q f in
            let (p, m, g) = is_wanted-In ps k wanted in
            absurd (n p m (sym (s.kept p q m (ap (λ x. get d.device_peers x) g ∙ old)) ∙ same))
      ] in
      record { assignment = rest.1 ∙ gone; forwarding = rest.0 ∙ v'.recorded a gone }

  -- The peer is where policy.Select wants it, asked with the configuration's profile, the health of
  -- the upstreams, and some current assignment.
  abbrev Placed : Config → List Upstream → Peer → Daemon World → Type 0
  Placed cfg ups p d =
      (prof : Profile)
      → profile cfg p.profile ≡ some prof
      → (current : String) × IsAt dp c p.ip (select prof (candidates ups) current) d

  routed-Placed :
      (p : Peer) (d : Daemon World)
      → IsValid c.forwards d
      → (route dp p d).0 ≡ []
      → Placed d.cfg d.ups p (route dp p d).1
  routed-Placed p d v h prof e =
      let s = (settle dp p.ip d).1 in
      (
        or_zero "" (get s.assignments p.ip),
        subst
            (λ ups.
              IsAt dp c p.ip (select prof (candidates ups) (or_zero "" (get s.assignments p.ip)))
                (route dp p d).1)
            (settle-Touches dp c p.ip d).same_ups (route_done dp c p prof d v e h),
      )

  -- No listed peer is kept off the device by another one that holds its address.
  abbrev Admissible : (Addr → Bool) → List Peer → Daemon World → Type 0
  Admissible held ps d =
      (p : Peer)
      → In p ps
      → held p.ip ≡ true
      → (q : Peer) × (get d.device_peers p.public_key ≡ some q)

  admit-Placed :
      (held : Addr → Bool) (p : Peer) (d : Daemon World)
      → IsValid c.forwards d
      → (held p.ip ≡ true → (q : Peer) × (get d.device_peers p.public_key ≡ some q))
      → (admit dp down held p d).0 ≡ []
      → Placed d.cfg d.ups p (admit dp down held p d).1
  unfolding added after_add
  admit-Placed held p d v free_place h = elim (admit-cases dp down c free held p d) [
    | inl (q, e, f) ↦ rw f (routed-Placed p d v (rw f at h))
    | inr (e, inl (b, f)) ↦ absurd (let (q, k) = free_place b in none-ne-some (sym e ∙ k))
    | inr (e, inr (inl (s, f))) ↦
        absurd (ground (arith, ap (λ (r : List Failure × Daemon World). r.0) f))
    | inr (e, inr (inr f)) ↦ rw f (
        routed-Placed p (added dp down c free p d) (added-IsValid dp down c free p d e v)
          (rw f at h))
  ]

  -- The addresses of the listed peers are distinct.
  abbrev pub Distinct : List Peer → Type 0
  Distinct [] = Unit
  Distinct (p ∷ ps) = All (λ (q : Peer). q.ip ≢ p.ip) ps × Distinct ps

  Placed-others :
      (cfg : Config) (ups : List Upstream) (p : Peer) (d d' : Daemon World)
      → (c.forwards d'.world p.ip ≡ c.forwards d.world p.ip)
        × (get d'.assignments p.ip ≡ get d.assignments p.ip)
      → Placed cfg ups p d
      → Placed cfg ups p d'
  Placed-others cfg ups p d d' (f, g) placed prof e =
      let (current, at) = placed prof e in
      (current, record { assignment = g ∙ at.assignment; forwarding = f ∙ at.forwarding })

  admit_all-Placed :
      (held : Addr → Bool) (ps : List Peer) (d : Daemon World)
      → IsStable ps d.device_peers
      → IsValid c.forwards d
      → Distinct ps
      → Admissible held ps d
      → (admit_all dp down held ps d).0 ≡ []
      → (p : Peer) → In p ps
      → Placed d.cfg d.ups p (admit_all dp down held ps d).1
  unfolding admit_all
  admit_all-Placed held [] d s v n a h p m = absurd m
  admit_all-Placed held (q ∷ ps) d s v n a h p m =
      let d' = (admit dp down held q d).1 in
      let one = admit-Admits dp down c free held q d in
      let (first, rest) =
        append-nil_parts (admit dp down held q d).0 (admit_all dp down held ps d').0 h in
      elim m [
        | inl e ↦
            subst (λ x. Placed d.cfg d.ups x (admit_all dp down held ps d').1) e
              (Placed-others d.cfg d.ups q d' (admit_all dp down held ps d').1
                (admit_all-others dp down c free held ps d' q.ip
                  (λ r i. All-In (λ (x : Peer). x.ip ≢ q.ip) r ps i n.0))
                (admit-Placed held q d v (a q (inl refl)) first))
        | inr i ↦
            subst (λ ups. Placed d.cfg ups p (admit_all dp down held ps d').1) one.same_ups
              (subst (λ cfg. Placed cfg d'.ups p (admit_all dp down held ps d').1) one.same_cfg
                (admit_all-Placed held ps d' (admit-IsStable dp down c free held q ps d s)
                  (admit-IsValid dp down c free held q d (λ r. s.kept q r (inl refl)) v first) n.1
                  (λ r j b. let (o, f) = a r (inr j) b in one.peers_stay r.public_key o f) rest p
                  i))
      ]

  -- The peer is cut off and none of its profile's upstreams is usable, or it is forwarded through a
  -- healthy upstream of the best tier.
  abbrev pub Served : Profile → List Upstream → Peer → Daemon World → Type 0
  Served prof ups p d =
      ((c.forwards d.world p.ip ≡ none)
        × ((u : Policy.Upstream) → In u (candidates ups) → usable prof u ≡ none))
      ⊎ ((u : Policy.Upstream) × IsBest prof (candidates ups) u
          × (c.forwards d.world p.ip ≡ some (interface_name u.config.name)))

  IsAt-Served :
      (prof : Profile) (ups : List Upstream) (p : Peer) (current : String) (d : Daemon World)
      → IsAt dp c p.ip (select prof (candidates ups) current) d
      → Served prof ups p d
  IsAt-Served prof ups p current d at = elim (Option-cases (select prof (candidates ups) current)) [
    | inl e ↦
        inl (at.forwarding ∙ ap through e, (select_fails_closed prof (candidates ups) current).0 e)
    | inr (name, e) ↦
        let (u, best, same) = select-IsBest prof (candidates ups) current name e in
        inr (u, best, at.forwarding ∙ ap through e ∙ ap (λ n. some (interface_name n)) (sym same))
  ]

  held_by :
      (ps : List Peer) (d : Daemon World) (a : Addr)
      → is_held d.device_peers a ≡ true
      → (k : Key) × (q : Peer) × (get d.device_peers k ≡ some q) × (q.ip ≡ a)
  unfolding is_held
  held_by ps d a h =
      let (k, m, e) = any-In (holds d.device_peers a) (keys d.device_peers) h in
      elim (Option-cases (get d.device_peers k)) [
        | inl f ↦ absurd (ground arith)
        | inr (q, f) ↦ (k, q, f, ground arith)
      ]

  Distinct-same :
      (ps : List Peer) (p q : Peer) → Distinct ps → In p ps → In q ps → p.ip ≡ q.ip → p ≡ q
  Distinct-same [] p q n i j e = absurd i
  Distinct-same (x ∷ xs) p q n (inl i) (inl j) e = sym i ∙ j
  Distinct-same (x ∷ xs) p q n (inl i) (inr j) e =
      absurd (All-In (λ (y : Peer). y.ip ≢ x.ip) q xs j n.0 (sym (ap (λ (y : Peer). y.ip) i ∙ e)))
  Distinct-same (x ∷ xs) p q n (inr i) (inl j) e =
      absurd (All-In (λ (y : Peer). y.ip ≢ x.ip) p xs i n.0 (e ∙ sym (ap (λ (y : Peer). y.ip) j)))
  Distinct-same (x ∷ xs) p q n (inr i) (inr j) e = Distinct-same xs p q n.1 i j e

  -- After a Reconcile of a valid daemon that reports no failure, every peer of the store whose profile
  -- is configured is served: the host forwards it through a healthy upstream of the best tier of its
  -- profile, or blocks it, and then no upstream of its profile is usable. It holds for a host that
  -- keeps the dataplane's contract and peers with distinct addresses, each key keeping its address.
  pub reconcile_serves :
      (ps : List Peer) (d : Daemon World) (p : Peer) (prof : Profile)
      → IsStable ps d.device_peers
      → IsValid c.forwards d
      → Distinct ps
      → In p ps
      → profile d.cfg p.profile ≡ some prof
      → (reconcile_with dp down ps d).0 ≡ []
      → Served prof d.ups p (reconcile_with dp down ps d).1
  unfolding reconcile_with
  reconcile_serves ps d p prof s v n m e h =
      let r = revoke_all dp down ps (keys d.device_peers) d in
      let held = is_held r.1.device_peers in
      let (done, admitted) = append-nil_parts r.0 (admit_all dp down held ps r.1).0 h in
      let (valid, shrinks, _) = revoke_all_lem dp down c free ps (keys d.device_peers) d in
      let stable = revoked-IsStable ps d s in
      let place : Admissible held ps r.1 = λ q i b.
        let (k, o, f, same) = held_by ps r.1 q.ip b in
        let (old, wanted) = revoked_listed ps d done k o f in
        let (x, j, g) = is_wanted-In ps k wanted in
        let one =
          Distinct-same ps x q n j i
            (sym (s.kept x o j (ap (λ y. get d.device_peers y) g ∙ old)) ∙ same) in
        (o, ap (λ y. get r.1.device_peers y) (sym (ap (λ (y : Peer). y.public_key) one) ∙ g) ∙ f) in
      let (current, at) =
        admit_all-Placed held ps r.1 stable (valid v) n place admitted p m prof
          (ap (λ cfg. profile cfg p.profile) shrinks.same_cfg ∙ e) in
      subst (λ ups. Served prof ups p (admit_all dp down held ps r.1).1) shrinks.same_ups
        (IsAt-Served prof r.1.ups p current (admit_all dp down held ps r.1).1 at)
