-- ===== src/Dataplane/Linux/Revocation.antt =====
-- Unroute revokes the peer's forwarding before it touches a route.
use lotsman.Prelude.{
  ◌≡◌, refl, sym, subst, filter, ◌∙◌, ◌⊎◌, inl, inr, false, none, some, List, String, arith,
  Bool-cases, Option-cases, nat_eq,
}
use lotsman.Prelude.Maps.{get, del, get-del}
use lotsman.Net.{Addr}
use lotsman.Dataplane.Linux.Kernel.{Kernel, Rule, found}
use lotsman.Dataplane.Linux.Plane.{
  Plane, Outcome, ok, err, ◌>>=◌, pure, call, read, for_each, continue,
}
use lotsman.Dataplane.Linux.Routing.{
  authorize, unroute, rules_for, own_rules, rule_del, own_from, is_of_peer, or_false,
}
use lotsman.Dataplane.Linux.Laws.{Laws, Keeps, bind-Keeps, for_each-Keeps, call-Keeps, Read-cases}

module _ {World : Type 0} (k : Kernel World) where
  -- Listing the rules changes nothing, and lists what the kernel has.
  pub own_rules-cases :
      (s : Plane World)
      → ((all : List Rule) × (k.rule_list s.world ≡ found all)
          × (own_rules k s ≡ (own_from s.tables all all, s)))
        ⊎ ((t : String) × (own_rules k s ≡ (err t, s)))
  unfolding own_rules
  own_rules-cases s = elim (Read-cases (k.rule_list s.world)) [
    | inl (all, e) ↦ inl (all, e, rw (e, own_rules, read))
    | inr (t, e) ↦ inr (t, rw (e, own_rules, read))
  ]

  pub own_rules-state : (s : Plane World) → (own_rules k s).1 ≡ s
  own_rules-state s = elim (own_rules-cases s) [ inl (all, e, f) ↦ rw f | inr (t, f) ↦ rw f ]

  rest_of_rules_for :
      (peer : Addr) (r : Outcome (List Rule)) (s : Plane World)
      → (continue r (λ all. pure (filter (is_of_peer peer) all)) s).1 ≡ s
  rest_of_rules_for peer (ok a) s = refl
  rest_of_rules_for peer (err e) s = refl

  pub rules_for-state : (peer : Addr) (s : Plane World) → (rules_for k peer s).1 ≡ s
  unfolding rules_for ◌>>=◌
  rules_for-state peer s =
      rest_of_rules_for peer (own_rules k s).0 (own_rules k s).1 ∙ own_rules-state s

  abbrev pub forgotten : Addr → Plane World → Plane World
  forgotten peer d = record d { allowed = del d.allowed peer; world = (k.disallow peer d.world).1 }

  pub authorize-outcome :
      (peer : Addr) (d : Plane World)
      → ((or_false (get d.allowed peer) ≡ false) × (authorize k peer false d ≡ (ok tt, d)))
        ⊎ (((k.disallow peer d.world).0 ≡ none)
            × (authorize k peer false d ≡ (ok tt, forgotten peer d)))
        ⊎ ((e : String) × ((k.disallow peer d.world).0 ≡ some e)
            × (authorize k peer false d
                ≡ (err e, record d { world = (k.disallow peer d.world).1 })))
  unfolding authorize
  authorize-outcome peer d = elim (Bool-cases (or_false (get d.allowed peer))) [
    | inr b ↦ inl (b, rw (b, authorize))
    | inl b ↦ elim (Option-cases (k.disallow peer d.world).0) [
      | inl e ↦ inr (inl (e, rw (b, authorize) (rw (e, call))))
      | inr (s, e) ↦ inr (inr (s, e, rw (b, authorize) (rw (e, call))))
    ]
  ]

module _ {World : Type 0} (k : Kernel World) (laws : Laws k) (peer : Addr) where
  -- What the daemon remembers of the peer's authorization is what the firewall has.
  abbrev pub Tracks : Plane World → Type 0
  Tracks s = or_false (get s.allowed peer) ≡ laws.admits s.world peer

  abbrev pub Blocked : Plane World → Type 0
  Blocked s = (or_false (get s.allowed peer) ≡ false) × (laws.admits s.world peer ≡ false)

  pub rule_del-Blocked : (r : Rule) → Keeps Blocked (rule_del k r)
  unfolding rule_del
  rule_del-Blocked r =
      call-Keeps Blocked (k.rule_del r) (λ s b. (b.0, laws.del_admits r s.world peer ∙ b.1))

  rules_for-Blocked : Keeps Blocked (rules_for k peer)
  rules_for-Blocked s b = subst Blocked (sym (rules_for-state k peer s)) b

  -- Revoking the peer has failed, and that alone has happened: `r` is its error, with the plane's own
  -- fields, the firewall's set and the rules as they were.
  abbrev pub RevokeFailed : Plane World → Outcome (Unit {0}) × Plane World → Type 0
  RevokeFailed d r =
      (e : String) × ((k.disallow peer d.world).0 ≡ some e)
      × (r ≡ (err e, record d { world = (k.disallow peer d.world).1 }))
      × (laws.admits r.1.world peer ≡ laws.admits d.world peer)
      × (laws.rules r.1.world ≡ laws.rules d.world)

  -- Revoking succeeds only if the firewall has let the peer go, and fails only with the firewall
  -- and the rules as they were.
  authorize-cases :
      (d : Plane World)
      → Tracks d
      → (((authorize k peer false d).0 ≡ ok tt) × Blocked (authorize k peer false d).1)
        ⊎ RevokeFailed d (authorize k peer false d)
  authorize-cases d t = elim (authorize-outcome k peer d) [
    | inl (b, f) ↦ inl (rw f (refl, (b, sym t ∙ b)))
    | inr (inl (e, f)) ↦ inl (
        rw f
          (refl, (ground (arith, get-del d.allowed peer peer), laws.disallow_done peer d.world e)))
    | inr (inr (s, e, f)) ↦ inr (
      s,
      e,
      f,
      rw f (laws.disallow_failed peer d.world s e),
      rw f (laws.disallow_rules peer d.world),
    )
  ]

  after_revoking :
      (r : Outcome (Unit {0})) (d : Plane World)
      → Blocked d
      → Blocked (continue r (λ _. rules_for k peer >>= λ rules. for_each rules (rule_del k)) d).1
  after_revoking (ok tt) d b =
      bind-Keeps Blocked (rules_for k peer) (λ rules. for_each rules (rule_del k)) rules_for-Blocked
        (λ rules. for_each-Keeps Blocked rules (rule_del k) rule_del-Blocked) d b
  after_revoking (err e) d b = b

  -- Whether Unroute succeeds or fails, the peer is then neither in the firewall's set of authorized
  -- peers nor remembered as authorized, unless taking it out of the set was what failed: then that is
  -- the error, and neither the set nor a rule has changed. It holds where the plane knew before whether
  -- the peer was in the set, over a kernel that meets the laws.
  pub unroute_revokes_first :
      (d : Plane World)
      → Tracks d
      → Blocked (unroute k peer d).1 ⊎ RevokeFailed d (unroute k peer d)
  unfolding unroute ◌>>=◌
  unroute_revokes_first d t = elim (authorize-cases d t) [
    | inl (e, b) ↦ inl (after_revoking (authorize k peer false d).0 (authorize k peer false d).1 b)
    | inr (s, e, f, g, h) ↦ inr (s, e, rw f refl, rw f (rw f at g), rw f (rw f at h))
  ]
