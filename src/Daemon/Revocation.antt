-- ===== src/Daemon/Revocation.antt =====
-- The first loop of Reconcile: peers that the store no longer has are revoked.
use lotsman.Prelude.{
  ◌≡◌, ◌≢◌, refl, sym, ◌∙◌, ap, subst, ◌⊎◌, inl, inr, true, Option, none, some, List, [], ◌∷◌, ◌++◌,
  map, ◌==◌, In, arith, Option-cases, Bool-cases, List-cases, nat_eq, string_eq, any-In,
}
use lotsman.Prelude.Maps.{Map, get, del, get-del}
use lotsman.Net.{Addr}
use lotsman.Dataplane.{Dataplane, Contract}
use lotsman.Daemon.{
  Daemon, Downstream, Peer, Key, Failure, unroute, revoke, revoke_unwanted, revoke_all, is_wanted,
}
use lotsman.Daemon.Invariant.{IsValid, Independent}
use lotsman.Daemon.Steps.{unroute-IsValid}
use lotsman.Daemon.Routing.{unroute-Touches}
use lotsman.Daemon.Outcome.{unroute_done}

pub none-ne-some : {A : Type 0} {a : A} → ◌≢◌ {A = Option A} none (some a)
none-ne-some h = cc

pub append-nil_parts : {A : Type 0} (xs ys : List A) → xs ++ ys ≡ [] → (xs ≡ []) × (ys ≡ [])
append-nil_parts [] ys h = (refl, h)
append-nil_parts (x ∷ xs) ys h = absurd (ground arith)

-- The entries of a map are found under its keys.
pub key-In : (m : Map Key Peer) (k : Key) (q : Peer) → get m k ≡ some q → In k (map (λ e. e.0) m)
unfolding get
key-In [] k q h = absurd (none-ne-some h)
key-In ((j, p) ∷ m) k q h = ground (arith, key-In m k q)

pub is_wanted-In :
    (peers : List Peer) (k : Key)
    → is_wanted peers k ≡ true
    → (p : Peer) × In p peers × (p.public_key ≡ k)
unfolding is_wanted
is_wanted-In peers k h =
    let (p, m, e) = any-In (λ (p : Peer). p.public_key == k) peers h in (p, m, ground arith)

module _ {World : Type 0} (dp : Dataplane World) (down : Downstream World) (c : Contract dp)
    (free : Independent c.forwards down) where
  -- A call of the device leaves the daemon valid.
  pub device_call-IsValid :
      (d : Daemon World) (w : World)
      → ((a : Addr) → c.forwards w a ≡ c.forwards d.world a)
      → IsValid c.forwards d
      → IsValid c.forwards (record d { world = w })
  device_call-IsValid d w same v = record {
    named = v.named;
    names = v.names;
    recorded = λ a h. same a ∙ v.recorded a h;
    exact = λ a name h. ground (arith, same a, v.exact a name);
    owned = v.owned;
    assigned = v.assigned;
  }

  after_removal : Key → Daemon World → Daemon World
  after_removal key d = record d { world = (down.remove_peer key d.world).1 }

  forget : Key → Daemon World → Daemon World
  forget key d = record d { device_peers = del d.device_peers key }

  revoke-cases :
      (key : Key) (p : Peer) (d : Daemon World)
      → (((revoke dp down key p d).0 ≢ [])
          × ((revoke dp down key p d).1 ≡ (unroute dp p.ip (after_removal key d)).1))
        ⊎ (((unroute dp p.ip (after_removal key d)).0 ≡ [])
            × (revoke dp down key p d ≡ ([], forget key (unroute dp p.ip (after_removal key d)).1)))
  unfolding revoke after_removal forget
  revoke-cases key p d = elim (Option-cases (down.remove_peer key d.world).0) [
    | inr (s, e) ↦ inl ((λ z. ground (arith, e)), rw (e, revoke))
    | inl e ↦ elim (List-cases (unroute dp p.ip (after_removal key d)).0) [
      | inl f ↦ inr (f, rw (e, revoke) (rw f))
      | inr (x, xs, f) ↦ inl ((λ z. ground (arith, e, f)), rw (e, revoke) (rw f))
    ]
  ]

  after_removal-IsValid :
      (key : Key) (d : Daemon World)
      → IsValid c.forwards d
      → IsValid c.forwards (after_removal key d)
  unfolding after_removal
  after_removal-IsValid key d v =
      device_call-IsValid d (down.remove_peer key d.world).1 (free.remove_peer_keeps key d.world) v

  -- The peer may be forgotten once its address is unassigned.
  forget-IsValid :
      (key : Key) (p : Peer) (d : Daemon World)
      → get d.device_peers key ≡ some p
      → get d.assignments p.ip ≡ none
      → IsValid c.forwards d
      → IsValid c.forwards (forget key d)
  unfolding forget
  forget-IsValid key p d e gone v = record {
    named = v.named;
    names = v.names;
    recorded = v.recorded;
    exact = v.exact;
    owned = λ a name h.
        let (k, q, f, same) = v.owned a name h in
        (
          k,
          q,
          ground (arith, get-del d.device_peers key k, ap (λ x. get d.assignments x) same),
          same,
        );
    assigned = v.assigned;
  }

  revoke-IsValid :
      (key : Key) (p : Peer) (d : Daemon World)
      → get d.device_peers key ≡ some p
      → IsValid c.forwards d
      → IsValid c.forwards (revoke dp down key p d).1
  unfolding after_removal
  revoke-IsValid key p d e v =
      let v' = unroute-IsValid dp c p.ip (after_removal key d) (after_removal-IsValid key d v) in
      elim (revoke-cases key p d) [
        | inl (_, f) ↦ rw f v'
        | inr (done, f) ↦ rw f (
            forget-IsValid key p (unroute dp p.ip (after_removal key d)).1
              (ap (λ m. get m key) (unroute-Touches dp c p.ip (after_removal key d)).same_peers ∙ e)
              (unroute_done dp c p.ip (after_removal key d) done).0.assignment v')
      ]

  -- The device keeps none but peers that it had, and the configuration stays.
  pub record Shrinks (d d' : Daemon World) : Type 0 where
    pub same_ups : d'.ups ≡ d.ups
    pub same_cfg : d'.cfg ≡ d.cfg
    pub fewer :
        (k : Key) (q : Peer) → get d'.device_peers k ≡ some q → get d.device_peers k ≡ some q

  Shrinks-refl : (d : Daemon World) → Shrinks d d
  Shrinks-refl d = record { same_ups = refl; same_cfg = refl; fewer = λ k q h. h }

  Shrinks-trans : (d e f : Daemon World) → Shrinks d e → Shrinks e f → Shrinks d f
  Shrinks-trans d e f s t = record {
    same_ups = t.same_ups ∙ s.same_ups;
    same_cfg = t.same_cfg ∙ s.same_cfg;
    fewer = λ k q h. s.fewer k q (t.fewer k q h);
  }

  revoke-Shrinks : (key : Key) (p : Peer) (d : Daemon World) → Shrinks d (revoke dp down key p d).1
  unfolding after_removal forget
  revoke-Shrinks key p d =
      let t = unroute-Touches dp c p.ip (after_removal key d) in
      elim (revoke-cases key p d) [
        | inl (_, f) ↦ rw f (record {
          same_ups = t.same_ups;
          same_cfg = t.same_cfg;
          fewer = λ k q h. ap (λ m. get m k) (sym t.same_peers) ∙ h;
        })
        | inr (done, f) ↦ rw f (record {
          same_ups = t.same_ups;
          same_cfg = t.same_cfg;
          fewer = λ k q h.
              ap (λ m. get m k) (sym t.same_peers)
              ∙ ground
                  (arith, get-del (unroute dp p.ip (after_removal key d)).1.device_peers key k);
        })
      ]

  revoke_forgets :
      (key : Key) (p : Peer) (d : Daemon World)
      → (revoke dp down key p d).0 ≡ []
      → get (revoke dp down key p d).1.device_peers key ≡ none
  unfolding forget
  revoke_forgets key p d h = elim (revoke-cases key p d) [
    | inl (n, _) ↦ absurd (n h)
    | inr (done, f) ↦
        rw f
          (ground (arith, get-del (unroute dp p.ip (after_removal key d)).1.device_peers key key))
  ]

  -- One round of the loop.
  abbrev round : List Peer → Key → Daemon World → List Failure × Daemon World
  round peers key d = revoke_unwanted dp down peers key d

  -- Once the round has succeeded the device has the key only if the store has it.
  round_lem :
      (peers : List Peer) (key : Key) (d : Daemon World)
      → (IsValid c.forwards d → IsValid c.forwards (round peers key d).1)
        × Shrinks d (round peers key d).1
        × ((round peers key d).0 ≡ []
            → (q : Peer) → get (round peers key d).1.device_peers key ≡ some q
            → is_wanted peers key ≡ true)
  unfolding revoke_unwanted
  round_lem peers key d = elim (Option-cases (get d.device_peers key)) [
    | inl e ↦
        rw (e, revoke_unwanted) ((λ v. v), Shrinks-refl d, (λ _ q h. absurd (ground (arith, e))))
    | inr (p, e) ↦ elim (Bool-cases (is_wanted peers key)) [
      | inl w ↦ rw (e, revoke_unwanted) (rw w ((λ v. v), Shrinks-refl d, (λ _ q h. refl)))
      | inr w ↦
          rw (e, revoke_unwanted)
            (rw w (
              revoke-IsValid key p d e,
              revoke-Shrinks key p d,
              λ done q h. absurd (none-ne-some (sym (revoke_forgets key p d done) ∙ h)),
            ))
    ]
  ]

  abbrev pub WantedOnly : List Peer → List Key → Daemon World → Type 0
  WantedOnly peers keys d =
      (k : Key) (q : Peer) → In k keys → get d.device_peers k ≡ some q → is_wanted peers k ≡ true

  pub revoke_all_lem :
      (peers : List Peer) (keys : List Key) (d : Daemon World)
      → (IsValid c.forwards d → IsValid c.forwards (revoke_all dp down peers keys d).1)
        × Shrinks d (revoke_all dp down peers keys d).1
        × ((revoke_all dp down peers keys d).0 ≡ []
            → WantedOnly peers keys (revoke_all dp down peers keys d).1)
  unfolding revoke_all
  revoke_all_lem peers [] d = ((λ v. v), Shrinks-refl d, (λ _ k q m. absurd m))
  revoke_all_lem peers (key ∷ keys) d =
      let d' = (round peers key d).1 in
      let (v, s, w) = round_lem peers key d in
      let (v', s', w') = revoke_all_lem peers keys d' in
      (
        (λ h. v' (v h)),
        Shrinks-trans d d' (revoke_all dp down peers keys d').1 s s',
        λ none_failed k q.
            let (first, rest) =
              append-nil_parts (round peers key d).0 (revoke_all dp down peers keys d').0
                none_failed in
            λ m h. elim m [
              | inl e ↦
                  subst (λ x. is_wanted peers x ≡ true) e
                    (w first q (ap (λ x. get d'.device_peers x) e ∙ s'.fewer k q h))
              | inr n ↦ w' rest k q n h
            ],
      )
