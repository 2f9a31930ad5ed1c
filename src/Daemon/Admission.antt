-- ===== src/Daemon/Admission.antt =====
-- The second loop of Reconcile: peers are added to the device and routed.
use lotsman.Prelude.{
  ◌≡◌, ◌≢◌, refl, sym, ◌∙◌, ap, ◌⊎◌, inl, inr, Bool, true, none, some, List, [], ◌∷◌, String, ◌==◌,
  In, arith, Option-cases, Bool-cases, if◌then◌else◌, nat_eq, string_eq,
}
use lotsman.Prelude.Maps.{Map, get, put, has, get-put}
use lotsman.Net.{Addr}
use lotsman.Dataplane.{Dataplane, Contract}
use lotsman.Daemon.{Daemon, Downstream, Peer, Key, device_failure, route, admit, admit_all}
use lotsman.Daemon.Invariant.{IsValid, Independent}
use lotsman.Daemon.Routing.{routed-IsValid, route-Touches}
use lotsman.Daemon.Revocation.{device_call-IsValid, append-nil_parts}

-- The store never changes the address of a key: two peers listed under one key have one address,
-- and so have a listed peer and what the device has under its key.
pub record IsStable (peers : List Peer) (device_peers : Map Key Peer) : Type 0 where
  pub listed : (p q : Peer) → In p peers → In q peers → p.public_key ≡ q.public_key → p.ip ≡ q.ip
  pub kept : (p q : Peer) → In p peers → get device_peers p.public_key ≡ some q → q.ip ≡ p.ip

module _ {World : Type 0} (dp : Dataplane World) (down : Downstream World) (c : Contract dp)
    (free : Independent c.forwards down) where
  unfoldable pub after_add : Peer → Daemon World → Daemon World
  after_add p d = record d { world = (down.add_peer p.public_key p.ip d.world).1 }

  unfoldable pub added : Peer → Daemon World → Daemon World
  unfolding after_add
  added p d = record (after_add p d) { device_peers = put d.device_peers p.public_key p }

  pub admit-cases :
      (held : Addr → Bool) (p : Peer) (d : Daemon World)
      → ((q : Peer) × (get d.device_peers p.public_key ≡ some q)
          × (admit dp down held p d ≡ route dp p d))
        ⊎ ((get d.device_peers p.public_key ≡ none)
            × (((held p.ip ≡ true) × (admit dp down held p d ≡ ([], d)))
                ⊎ ((e : String) × (admit dp down held p d ≡ (device_failure e ∷ [], after_add p d)))
                ⊎ (admit dp down held p d ≡ route dp p (added p d))))
  unfolding admit added has
  admit-cases held p d = elim (Option-cases (get d.device_peers p.public_key)) [
    | inr (q, e) ↦ inl (q, e, rw (e, has, admit))
    | inl e ↦ inr (
      e,
      elim (Bool-cases (held p.ip)) [
        | inl h ↦ inl (h, rw (e, has, admit) (rw h))
        | inr h ↦ elim (Option-cases (down.add_peer p.public_key p.ip d.world).0) [
          | inr (s, f) ↦ inr (inl (s, rw (e, has, admit) (rw h (rw f))))
          | inl f ↦ inr (inr (rw (e, has, admit) (rw h (rw f))))
        ]
      ],
    )
  ]

  pub added-IsValid :
      (p : Peer) (d : Daemon World)
      → get d.device_peers p.public_key ≡ none
      → IsValid c.forwards d
      → IsValid c.forwards (added p d)
  unfolding added
  added-IsValid p d e v = record {
    named = v.named;
    names = v.names;
    recorded = λ a h. free.add_peer_keeps p.public_key p.ip d.world a ∙ v.recorded a h;
    exact =
        λ a name h. ground (arith, free.add_peer_keeps p.public_key p.ip d.world a, v.exact a name);
    owned = λ a name h.
        let (k, q, f, same) = v.owned a name h in
        (k, q, ground (arith, get-put d.device_peers p.public_key p k), same);
    assigned = v.assigned;
  }

  -- What a round does to the rest: nothing to another address, and the device has at most the peer
  -- besides those it had.
  pub record Admits (p : Peer) (d d' : Daemon World) : Type 0 where
    pub same_ups : d'.ups ≡ d.ups
    pub same_cfg : d'.cfg ≡ d.cfg
    pub same_forwards : (a : Addr) → p.ip ≢ a → c.forwards d'.world a ≡ c.forwards d.world a
    pub same_assignments : (a : Addr) → p.ip ≢ a → get d'.assignments a ≡ get d.assignments a
    pub peers_after :
        (k : Key) (q : Peer)
        → get d'.device_peers k ≡ some q
        → (get d.device_peers k ≡ some q) ⊎ ((k ≡ p.public_key) × (q ≡ p))
    pub peers_stay :
        (k : Key) (q : Peer)
        → get d.device_peers k ≡ some q
        → (r : Peer) × (get d'.device_peers k ≡ some r)

  routed-Admits : (p : Peer) (d : Daemon World) → Admits p d (route dp p d).1
  routed-Admits p d =
      let t = route-Touches dp c p d in
      record {
        same_ups = t.same_ups;
        same_cfg = t.same_cfg;
        same_forwards = t.same_forwards;
        same_assignments = t.same_assignments;
        peers_after = λ k q h. inl (ap (λ m. get m k) (sym t.same_peers) ∙ h);
        peers_stay = λ k q h. (q, ap (λ m. get m k) t.same_peers ∙ h);
      }

  added-Admits : (p : Peer) (d : Daemon World) → Admits p d (route dp p (added p d)).1
  unfolding added
  added-Admits p d =
      let t = route-Touches dp c p (added p d) in
      record {
        same_ups = t.same_ups;
        same_cfg = t.same_cfg;
        same_forwards =
            λ a n. t.same_forwards a n ∙ free.add_peer_keeps p.public_key p.ip d.world a;
        same_assignments = t.same_assignments;
        peers_after = λ k q h.
            let f = ap (λ m. get m k) (sym t.same_peers) ∙ h in
            ground (arith, get-put d.device_peers p.public_key p k);
        peers_stay = λ k q h. (
          if p.public_key == k then p else q,
          ap (λ m. get m k) t.same_peers ∙ ground (arith, get-put d.device_peers p.public_key p k),
        );
      }

  pub admit-Admits :
      (held : Addr → Bool) (p : Peer) (d : Daemon World) → Admits p d (admit dp down held p d).1
  unfolding after_add
  admit-Admits held p d = elim (admit-cases held p d) [
    | inl (q, e, f) ↦ rw f (routed-Admits p d)
    | inr (e, inl (h, f)) ↦ rw f (record {
      same_ups = refl;
      same_cfg = refl;
      same_forwards = λ a n. refl;
      same_assignments = λ a n. refl;
      peers_after = λ k q h. inl h;
      peers_stay = λ k q h. (q, h);
    })
    | inr (e, inr (inl (s, f))) ↦ rw f (record {
      same_ups = refl;
      same_cfg = refl;
      same_forwards = λ a n. free.add_peer_keeps p.public_key p.ip d.world a;
      same_assignments = λ a n. refl;
      peers_after = λ k q h. inl h;
      peers_stay = λ k q h. (q, h);
    })
    | inr (e, inr (inr f)) ↦ rw f (added-Admits p d)
  ]

  pub admit-IsValid :
      (held : Addr → Bool) (p : Peer) (d : Daemon World)
      → ((q : Peer) → get d.device_peers p.public_key ≡ some q → q.ip ≡ p.ip)
      → IsValid c.forwards d
      → (admit dp down held p d).0 ≡ []
      → IsValid c.forwards (admit dp down held p d).1
  unfolding after_add added
  admit-IsValid held p d kept v h = elim (admit-cases held p d) [
    | inl (q, e, f) ↦ rw f (routed-IsValid dp c p d (p.public_key, q, e, kept q e) v (rw f at h))
    | inr (e, inl (b, f)) ↦ rw f v
    | inr (e, inr (inl (s, f))) ↦
        rw f
          (device_call-IsValid dp down c free d _ (free.add_peer_keeps p.public_key p.ip d.world) v)
    | inr (e, inr (inr f)) ↦ rw f (
        routed-IsValid dp c p (added p d)
          (
            p.public_key,
            p,
            ground (arith, get-put d.device_peers p.public_key p p.public_key),
            refl,
          )
          (added-IsValid p d e v) (rw f at h))
  ]

  -- The peers that are still to come stay stable.
  pub admit-IsStable :
      (held : Addr → Bool) (p : Peer) (ps : List Peer) (d : Daemon World)
      → IsStable (p ∷ ps) d.device_peers
      → IsStable ps (admit dp down held p d).1.device_peers
  admit-IsStable held p ps d s = record {
    listed = λ q r m n. s.listed q r (inr m) (inr n);
    kept = λ q r m h. elim ((admit-Admits held p d).peers_after q.public_key r h) [
      | inl old ↦ s.kept q r (inr m) old
      | inr (same, new) ↦ ap (λ (x : Peer). x.ip) new ∙ s.listed p q (inl refl) (inr m) (sym same)
    ];
  }

  pub admit_all-IsValid :
      (held : Addr → Bool) (ps : List Peer) (d : Daemon World)
      → IsStable ps d.device_peers
      → IsValid c.forwards d
      → (admit_all dp down held ps d).0 ≡ []
      → IsValid c.forwards (admit_all dp down held ps d).1
  unfolding admit_all
  admit_all-IsValid held [] d s v h = v
  admit_all-IsValid held (p ∷ ps) d s v h =
      let d' = (admit dp down held p d).1 in
      let (first, rest) =
        append-nil_parts (admit dp down held p d).0 (admit_all dp down held ps d').0 h in
      admit_all-IsValid held ps d' (admit-IsStable held p ps d s)
        (admit-IsValid held p d (λ q. s.kept p q (inl refl)) v first) rest

  -- An address that none of the peers has is left alone.
  pub admit_all-others :
      (held : Addr → Bool) (ps : List Peer) (d : Daemon World) (a : Addr)
      → ((p : Peer) → In p ps → p.ip ≢ a)
      → (c.forwards (admit_all dp down held ps d).1.world a ≡ c.forwards d.world a)
        × (get (admit_all dp down held ps d).1.assignments a ≡ get d.assignments a)
  unfolding admit_all
  admit_all-others held [] d a n = (refl, refl)
  admit_all-others held (p ∷ ps) d a n =
      let rest = admit_all-others held ps (admit dp down held p d).1 a (λ q m. n q (inr m)) in
      let one = admit-Admits held p d in
      (
        rest.0 ∙ one.same_forwards a (n p (inl refl)),
        rest.1 ∙ one.same_assignments a (n p (inl refl)),
      )
