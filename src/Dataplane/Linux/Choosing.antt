-- ===== src/Dataplane/Linux/Choosing.antt =====
-- linux.go: the first loop of Route, over the rules that are listed for a peer.
use lotsman.Prelude.{
  ◌≡◌, ◌≢◌, refl, sym, ap, subst, ◌∙◌, ◌⊎◌, inl, inr, true, false, Option, none, some, List, [],
  ◌∷◌, ◌++◌, ℕ, ◌==◌, String, In, All, In-All, All-append, arith, Bool-cases, nat_eq, string_eq,
  if◌then◌else◌,
}
use lotsman.Prelude.Maps.{Map}
use lotsman.Net.{Addr}
use lotsman.Dataplane.Linux.Kernel.{Kernel, Rule}
use lotsman.Dataplane.Linux.Ownership.{host_net, ours, peer_rule_priority, pin_rule_priority}
use lotsman.Dataplane.Linux.Plane.{Plane, ◌>>◌, pure}
use lotsman.Dataplane.Linux.Routing.{
  rule_del, is_of_peer, is_from, is_own, pin_rule, plain_rule, scan,
}
use lotsman.Dataplane.Linux.Laws.{Laws, Post, bind-Post}
use lotsman.Dataplane.Linux.Shapes.{ours-Installed, probe_rule}
use lotsman.Dataplane.Linux.Listing.{Listed}
use lotsman.Dataplane.Linux.Remaining.{Only, Only-weaken, rule_del-Only}
use lotsman.Dataplane.Linux.Scanning.{
  IsRouting, Leads, Tracked, pure-Post, round, rule_del-In, rule_del-Tracked,
}

In-front : (x : Rule) (xs ys : List Rule) → In x xs → In x (xs ++ ys)
In-front x [] ys m = absurd m
In-front x (y ∷ xs) ys (inl e) = inl e
In-front x (y ∷ xs) ys (inr m) = inr (In-front x xs ys m)

In-back : (x : Rule) (xs ys : List Rule) → In x ys → In x (xs ++ ys)
In-back x [] ys m = m
In-back x (y ∷ xs) ys m = inr (In-back x xs ys m)

same_source :
    (peer a : Addr) (t : ℕ) → is_from peer (plain_rule a t peer_rule_priority) ≡ true → a ≡ peer
unfolding is_from plain_rule host_net
same_source peer a t h = ground (arith, h)

pin_apart : (a : Addr) (t : ℕ) → (pin_rule a t).priority ≢ peer_rule_priority
unfolding pin_rule
pin_apart a t h = ground (arith, h)

probe_apart : (a : Addr) (oif : String) (t : ℕ) → (probe_rule a oif t).priority ≢ peer_rule_priority
unfolding probe_rule plain_rule
probe_apart a oif t h = ground (arith, h)

is_own-ours : (tables : Map String ℕ) (r : Rule) → is_own tables r ≡ true → ours r ≡ true
unfolding is_own
is_own-ours tables r h = ground (arith, h)

-- A rule of the instance's for the peer, of the priority of its routing, has no selector but the
-- peer's address.
own-plain :
    (tables : Map String ℕ) (peer : Addr) (r : Rule)
    → is_own tables r ≡ true
    → is_from peer r ≡ true
    → r.priority ≡ peer_rule_priority
    → r ≡ plain_rule peer r.table peer_rule_priority
own-plain tables peer r own from q =
    let (a, range, shape) = ours-Installed r (is_own-ours tables r own) in
    elim shape [
      | inl e ↦ ours_plain a e
      | inr (inl e) ↦ absurd (pin_apart a r.table (sym (ap (λ (y : Rule). y.priority) e) ∙ q))
      | inr (inr (e, _)) ↦
          absurd (probe_apart a r.oif_name r.table (sym (ap (λ (y : Rule). y.priority) e) ∙ q))
    ]
  where
    ours_plain :
        (a : Addr)
        → r ≡ plain_rule a r.table peer_rule_priority
        → r ≡ plain_rule peer r.table peer_rule_priority
    ours_plain a e =
        let same : a ≡ peer = same_source peer a r.table (
          subst {A = Rule} (λ y. is_from peer y ≡ true) {x = r}
            {y = plain_rule a r.table peer_rule_priority} e from) in
        subst {A = Addr} (λ b. r ≡ plain_rule b r.table peer_rule_priority) {x = a} {y = peer} same
          e

-- The first loop, on the rules that were listed at `start`.
module _ {World : Type 0} (k : Kernel World) (laws : Laws k) (peer : Addr)
    (start : Plane World) where
  abbrev pub Routing : Rule → Type 0
  Routing = IsRouting k laws peer start.tables

  -- The loop has met the wanted rule, which was there before; or the old rules look up other tables,
  -- and no other rules route the peer.
  abbrev pub Kept : ℕ → Option (List Rule) → Plane World → Type 0
  Kept table none s =
      Leads k laws peer table start × Leads k laws peer table s × Tracked k laws peer s
  Kept table (some old) s =
      All (λ (r : Rule). r.table ≢ table) old
      × Only k laws Routing (λ x. In x old) s
      × Tracked k laws peer s

  -- What is known of a listed rule: it has another priority, or it routes the peer, was there before
  -- and still is.
  abbrev IsKnown : Plane World → Rule → Type 0
  IsKnown s r =
      (r.priority ≢ peer_rule_priority)
      ⊎ ((r ≡ plain_rule peer r.table peer_rule_priority)
          × In r (laws.rules start.world)
          × In r (laws.rules s.world))

  pub AreKnown : List Rule → Plane World → Type 0
  AreKnown rs s = All (IsKnown s) rs

  plain-priority :
      (table : ℕ) → (plain_rule peer table peer_rule_priority).priority ≡ peer_rule_priority
  unfolding plain_rule
  plain-priority table = refl

  rule_del-AreKnown :
      (r : Rule) (rs : List Rule) (s : Plane World)
      → r.priority ≡ pin_rule_priority
      → AreKnown rs s
      → Post (λ _ t. AreKnown rs t) (rule_del k r s)
  unfolding AreKnown
  rule_del-AreKnown r [] s e l = λ a h. tt
  rule_del-AreKnown r (x ∷ rs) s e (inl n, l) = λ a h. (inl n, rule_del-AreKnown r rs s e l a h)
  rule_del-AreKnown r (x ∷ rs) s e (inr (q, b, m), l) = λ a h.
      (inr (q, b, rule_del-In k laws peer r x s other m a h), rule_del-AreKnown r rs s e l a h)
    where
      other : r ≢ x
      other c =
          let p : x.priority ≡ peer_rule_priority =
            ap (λ (y : Rule). y.priority) q ∙ plain-priority x.table in
          ground (arith, sym e ∙ ap (λ (y : Rule). y.priority) c ∙ p)

  -- The rules that route the peer are the old ones so far and some of those to come.
  abbrev pub Covered : List Rule → List Rule → Plane World → Type 0
  Covered old rs s = Only k laws Routing (λ x. In x old ⊎ In x rs) s

  found_rule :
      (table : ℕ) (r : Rule) (s : Plane World)
      → IsKnown s r
      → (r.priority == peer_rule_priority) ≡ true
      → (r.table == table) ≡ true
      → Leads k laws peer table start × Leads k laws peer table s
  found_rule table r s (inl n) a c = absurd (n (ground (arith, a)))
  found_rule table r s (inr (q, b, m)) a c =
      let same : r ≡ plain_rule peer table peer_rule_priority =
        q ∙ ap (λ t. plain_rule peer t peer_rule_priority) (ground (arith, c)) in
      (
        subst (λ y. In y (laws.rules start.world)) same b,
        subst (λ y. In y (laws.rules s.world)) same m,
      )

  keep_old :
      (r : Rule) (rs old : List Rule) (s : Plane World)
      → Covered old (r ∷ rs) s
      → Covered (old ++ r ∷ []) rs s
  keep_old r rs old s h = Only-weaken k laws Routing s h (λ x _ p. later x p)
    where
      later : (x : Rule) → In x old ⊎ In x (r ∷ rs) → In x (old ++ r ∷ []) ⊎ In x rs
      later x (inl m) = inl (In-front x old (r ∷ []) m)
      later x (inr (inl e)) = inl (In-back x old (r ∷ []) (inl e))
      later x (inr (inr m)) = inr m

  skip_other :
      (r : Rule) (rs old : List Rule) (s : Plane World)
      → (r.priority == peer_rule_priority) ≡ false
      → Covered old (r ∷ rs) s
      → Covered old rs s
  skip_other r rs old s n h = Only-weaken k laws Routing s h later
    where
      later : (x : Rule) → Routing x → In x old ⊎ In x (r ∷ rs) → In x old ⊎ In x rs
      later x kind (inl m) = inl m
      later x kind (inr (inl e)) =
          absurd (ground (arith, n, ap (λ (y : Rule). y.priority) e, kind.2))
      later x kind (inr (inr m)) = inr m

  pub scan-Post :
      (table : ℕ) (rs old : List Rule) (s : Plane World)
      → AreKnown rs s
      → Tracked k laws peer s
      → All (λ (r : Rule). r.table ≢ table) old
      → Covered old rs s
      → Post (Kept table) (scan k table rs old s)
  unfolding scan AreKnown
  scan-Post table [] old s l t h g =
      pure-Post k laws peer (Kept table) (some old) s
        (h, Only-weaken k laws Routing s g (λ x _ p. elim p [ inl m ↦ m | inr m ↦ absurd m ]), t)
  scan-Post table (r ∷ rs) old s (p, l) t h g =
      round k laws peer (Kept table) s (pure none)
        (rule_del k r
          >> scan k table rs (if r.priority == peer_rule_priority then old ++ r ∷ [] else old))
        (λ a. scan k table rs (if a then old ++ r ∷ [] else old)) (r.priority == peer_rule_priority)
        (r.priority == pin_rule_priority) (r.table == table)
        (λ a c.
          let (b, m) = found_rule table r s p a c in
          pure-Post k laws peer (Kept table) none s (b, m, t))
        (λ a c.
          scan-Post table rs (old ++ r ∷ []) s l t
            (All-append (λ (x : Rule). x.table ≢ table) old (r ∷ [])
              (h, ((λ e. ground (arith, c, e)), tt)))
            (keep_old r rs old s g))
        (λ a b. rw a (
          bind-Post (λ _ u. AreKnown rs u × Tracked k laws peer u × Covered old rs u) (Kept table)
            (rule_del k r) (λ _. scan k table rs old) s
            (λ x e. (
              rule_del-AreKnown r rs s (ground (arith, b)) l x e,
              rule_del-Tracked k laws peer r s t,
              Only-weaken k laws Routing (rule_del k r s).1
                  (rule_del-Only k laws Routing r s (skip_other r rs old s a g) x e) (λ y _ q. q.0),
            ))
            (λ _ u q. scan-Post table rs old u q.0 q.1 h q.2)))
        (λ a. scan-Post table rs old s l t h (skip_other r rs old s a g))

  -- What the listing gives to the loop.
  pub listed-AreKnown :
      (rs : List Rule) → Listed k laws peer rs start → AreKnown rs start × Covered [] rs start
  unfolding AreKnown is_of_peer
  listed-AreKnown rs (sound, whole) = (
    In-All (IsKnown start) rs known,
    λ x m (own, from, q). inr (whole x m (own, ground (arith, from, q))),
  )
    where
      known : (r : Rule) → In r rs → IsKnown start r
      known r m =
          let (i, (own, e)) = sound r m in
          elim (Bool-cases (r.priority == peer_rule_priority)) [
            | inl q ↦
                inr
                  (own-plain start.tables peer r own (ground (arith, e)) (ground (arith, q)), i, i)
            | inr q ↦ inl (λ c. ground (arith, q, c))
          ]
