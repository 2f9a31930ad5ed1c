-- ===== src/Dataplane/Linux/Scanning.antt =====
-- linux.go: the rules that route a peer, and what the calls that Route makes keep.
use lotsman.Prelude.{
  ◌≡◌, ◌≢◌, refl, sym, ap, subst, ◌∙◌, inl, inr, Bool, true, false, not, ◌&&◌, ℕ, String, In,
  Bool-cases, nat_eq, string_eq, if◌then◌else◌,
}
use lotsman.Prelude.Maps.{Map, get}
use lotsman.Net.{Addr}
use lotsman.Dataplane.Linux.Kernel.{Kernel, Rule}
use lotsman.Dataplane.Linux.Ownership.{peer_rule_priority, interface_of_table}
use lotsman.Dataplane.Linux.Plane.{Plane, Outcome, ok, err, Act, pure, call, call_add}
use lotsman.Dataplane.Linux.Routing.{
  authorize, set_allowed, rule_del, is_from, is_own, or_false, pin_rule, plain_rule, add_pin_rule,
  keep_flow,
}
use lotsman.Dataplane.Linux.Laws.{
  Laws, Keeps, Post, bind-Post, call-Keeps, call-Post, call_add-Keeps,
}
use lotsman.Dataplane.Linux.Revocation.{Tracks}

abbrev pub value_or : {A : Type 0} → A → Outcome A → A
value_or d (ok a) = a
value_or d (err e) = d

module _ {World : Type 0} (k : Kernel World) (laws : Laws k) (peer : Addr) where
  -- The rule "from the peer lookup the table", of the priority of routing, is there.
  abbrev pub Leads : ℕ → Plane World → Type 0
  Leads table s = In (plain_rule peer table peer_rule_priority) (laws.rules s.world)

  -- The rule is one of this instance's that routes the peer.
  abbrev pub IsRouting : Map String ℕ → Rule → Type 0
  IsRouting tables x =
      (is_own tables x ≡ true) × (is_from peer x ≡ true) × (x.priority ≡ peer_rule_priority)

  abbrev pub Tracked : Plane World → Type 0
  Tracked = Tracks k laws peer

  pub rule_del-Tracked : (r : Rule) → Keeps Tracked (rule_del k r)
  unfolding rule_del
  rule_del-Tracked r =
      call-Keeps Tracked (k.rule_del r) (λ s t. t ∙ sym (laws.del_admits r s.world peer))

  pub add-Tracked : (r : Rule) → Keeps Tracked (call_add (k.rule_add r))
  add-Tracked r =
      call_add-Keeps Tracked (k.rule_add r) (λ s t. t ∙ sym (laws.add_admits r s.world peer))

  pub keep_flow-Tracked : (r : Rule) → Keeps Tracked (keep_flow k peer r)
  unfolding keep_flow add_pin_rule
  keep_flow-Tracked r s t =
      elim (Bool-cases (or_false (get s.alive (interface_of_table s.tables r.table)))) [
        | inl e ↦ rw (e, keep_flow) (add-Tracked (pin_rule peer r.table) s t)
        | inr e ↦ rw (e, keep_flow) t
      ]

  -- A deletion takes its rule and no other.
  pub rule_del-In :
      (r x : Rule) (s : Plane World)
      → r ≢ x
      → In x (laws.rules s.world)
      → Post (λ _ t. In x (laws.rules t.world)) (rule_del k r s)
  unfolding rule_del
  rule_del-In r x s n m =
      call-Post (λ _ t. In x (laws.rules t.world)) (k.rule_del r) s
        (λ e. (laws.del_done r s.world e x).1 (m, n))

  abbrev pub Admitted : Plane World → Plane World → Type 0
  Admitted s u = (laws.admits u.world peer ≡ true) × (laws.rules u.world ≡ laws.rules s.world)

  -- Admitting the peer: the rules stay.
  pub authorize-Post :
      (s : Plane World) → Tracked s → Post (λ _ u. Admitted s u) (authorize k peer true s)
  unfolding authorize set_allowed
  authorize-Post s t = elim (Bool-cases (or_false (get s.allowed peer))) [
    | inl e ↦ rw (e, authorize) (λ a h. (sym t ∙ e, refl))
    | inr e ↦
        rw (e, authorize)
          (bind-Post (λ _ u. Admitted s u) (λ _ u. Admitted s u) (call (k.allow peer))
            (λ _. set_allowed k peer true) s
            (call-Post (λ _ u. Admitted s u) (k.allow peer) s
              (λ d. (laws.allow_done peer s.world d, laws.allow_rules peer s.world)))
            (λ a u q. (λ b h. q)))
  ]

  pub pure-Post :
      {A : Type 0} (Q : A → Plane World → Type 0) (a : A) (s : Plane World)
      → Q a s
      → Post Q (pure a s)
  pure-Post Q a s q = λ b h. subst (λ b. Q b s) (ap (value_or a) h) q

  -- The branches of one round, by the three tests.
  pub round :
      {A : Type 0} (Q : A → Plane World → Type 0) (s : Plane World) (stop delete : Act World A)
      (on : Bool → Act World A) (a b c : Bool)
      → (a ≡ true → c ≡ true → Post Q (stop s))
      → (a ≡ true → c ≡ false → Post Q (on true s))
      → (a ≡ false → b ≡ true → Post Q (delete s))
      → (a ≡ false → Post Q (on false s))
      → Post Q ((if a && c then stop else if not a && b && c then delete else on a) s)
  round Q s stop delete on true b true f g h i = f refl refl
  round Q s stop delete on true b false f g h i = g refl refl
  round Q s stop delete on false true true f g h i = h refl refl
  round Q s stop delete on false true false f g h i = i refl
  round Q s stop delete on false false c f g h i = i refl
