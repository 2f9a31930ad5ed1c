-- ===== src/Dataplane/Linux/Laws.antt =====
-- What the theorems rely on of the kernel, and how actions are reasoned about.
use lotsman.Prelude.{
  ◌≡◌, ◌≢◌, refl, ◌⊎◌, inl, inr, Bool, true, false, Option, none, some, List, [], ◌∷◌, String, In,
  arith, Option-cases, ap, sym, subst, ◌∙◌, ◌↔◌,
}
use lotsman.Net.{Addr}
use lotsman.Dataplane.Linux.Kernel.{Kernel, Rule, Read, found, unread, Added, done, exists, failed}
use lotsman.Dataplane.Linux.Plane.{
  Plane, Outcome, ok, err, Act, ◌>>=◌, call, read, call_add, for_each, continue,
}

-- `rules w` are the kernel's rules, `admits w a` tells whether the peer is in the set of authorized
-- peers. A deletion takes the rule that it is given: that is so as long as no other rule of the same
-- priority, table and source has further selectors.
pub record Laws {World : Type 0} (k : Kernel World) : Type 0 where
  pub rules : World → List Rule
  pub admits : World → Addr → Bool
  pub listed : (w : World) (rs : List Rule) → k.rule_list w ≡ found rs → rs ≡ rules w
  pub add_done :
      (r : Rule) (w : World)
      → (k.rule_add r w).0 ≡ done
      → (x : Rule) → In x (rules (k.rule_add r w).1) ↔ (In x (rules w) ⊎ (r ≡ x))
  pub add_exists :
      (r : Rule) (w : World)
      → (k.rule_add r w).0 ≡ exists
      → In r (rules w) × (rules (k.rule_add r w).1 ≡ rules w)
  pub del_done :
      (r : Rule) (w : World)
      → (k.rule_del r w).0 ≡ none
      → (x : Rule) → In x (rules (k.rule_del r w).1) ↔ (In x (rules w) × (r ≢ x))
  pub add_admits : (r : Rule) (w : World) (a : Addr) → admits (k.rule_add r w).1 a ≡ admits w a
  pub del_admits : (r : Rule) (w : World) (a : Addr) → admits (k.rule_del r w).1 a ≡ admits w a
  pub allow_done : (a : Addr) (w : World) → (k.allow a w).0 ≡ none → admits (k.allow a w).1 a ≡ true
  pub disallow_done :
      (a : Addr) (w : World) → (k.disallow a w).0 ≡ none → admits (k.disallow a w).1 a ≡ false
  pub allow_others : (a b : Addr) (w : World) → a ≢ b → admits (k.allow a w).1 b ≡ admits w b
  pub disallow_others : (a b : Addr) (w : World) → a ≢ b → admits (k.disallow a w).1 b ≡ admits w b
  pub allow_failed :
      (a : Addr) (w : World) (e : String)
      → (k.allow a w).0 ≡ some e
      → admits (k.allow a w).1 a ≡ admits w a
  pub disallow_failed :
      (a : Addr) (w : World) (e : String)
      → (k.disallow a w).0 ≡ some e
      → admits (k.disallow a w).1 a ≡ admits w a
  pub allow_rules : (a : Addr) (w : World) → rules (k.allow a w).1 ≡ rules w
  pub disallow_rules : (a : Addr) (w : World) → rules (k.disallow a w).1 ≡ rules w

Added-cases : (a : Added) → (a ≡ done) ⊎ (a ≡ exists) ⊎ ((t : String) × (a ≡ failed t))
Added-cases done = inl refl
Added-cases exists = inr (inl refl)
Added-cases (failed t) = inr (inr (t, refl))

pub Read-cases :
    {A : Type 0} (r : Read A) → ((a : A) × (r ≡ found a)) ⊎ ((t : String) × (r ≡ unread t))
Read-cases (found a) = inl (a, refl)
Read-cases (unread t) = inr (t, refl)

module _ {World : Type 0} where
  -- The action keeps `P`, whether it succeeds or fails.
  abbrev pub Keeps : {A : Type 0} → (Plane World → Type 0) → Act World A → Type 0
  Keeps P m = (s : Plane World) → P s → P (m s).1

  -- If the action succeeds with `a`, then `Q a` holds of the state that it leaves.
  abbrev pub Post : {A : Type 0} → (A → Plane World → Type 0) → Outcome A × Plane World → Type 0
  Post {A} Q r = (a : A) → r.0 ≡ ok a → Q a r.1

  continue-Keeps :
      {A B : Type 0} (P : Plane World → Type 0) (f : A → Act World B) (r : Outcome A)
      (t : Plane World)
      → ((a : A) → Keeps P (f a))
      → P t
      → P (continue r f t).1
  continue-Keeps P f (ok a) t kf p = kf a t p
  continue-Keeps P f (err e) t kf p = p

  pub bind-Keeps :
      {A B : Type 0} (P : Plane World → Type 0) (m : Act World A) (f : A → Act World B)
      → Keeps P m
      → ((a : A) → Keeps P (f a))
      → Keeps P (m >>= f)
  unfolding ◌>>=◌
  bind-Keeps P m f km kf s p = continue-Keeps P f (m s).0 (m s).1 kf (km s p)

  pub for_each-Keeps :
      {A : Type 0} (P : Plane World → Type 0) (xs : List A) (f : A → Act World (Unit {0}))
      → ((a : A) → Keeps P (f a))
      → Keeps P (for_each xs f)
  unfolding for_each
  for_each-Keeps P [] f kf s p = p
  for_each-Keeps P (x ∷ xs) f kf s p =
      bind-Keeps P (f x) (λ _. for_each xs f) (kf x) (λ _. for_each-Keeps P xs f kf) s p

  read_of : {A : Type 0} → Read A → Plane World → Outcome A × Plane World
  read_of (found a) s = (ok a, s)
  read_of (unread t) s = (err t, s)

  read-read_of :
      {A : Type 0} (f : World → Read A) (s : Plane World) → read f s ≡ read_of (f s.world) s
  unfolding read read_of
  read-read_of f s = ground arith

  read_of-state : {A : Type 0} (r : Read A) (s : Plane World) → (read_of r s).1 ≡ s
  unfolding read_of
  read_of-state (found a) s = refl
  read_of-state (unread t) s = refl

  -- Reading changes nothing.
  pub read-state : {A : Type 0} (f : World → Read A) (s : Plane World) → (read f s).1 ≡ s
  read-state f s = rw (read-read_of f s) (read_of-state (f s.world) s)

  pub read-Keeps : {A : Type 0} (P : Plane World → Type 0) (f : World → Read A) → Keeps P (read f)
  read-Keeps P f s p = subst P (sym (read-state f s)) p

  read_of-ok :
      {A : Type 0} (r : Read A) (s : Plane World) (a : A) → (read_of r s).0 ≡ ok a → r ≡ found a
  unfolding read_of
  read_of-ok (found b) s a h = ground arith
  read_of-ok (unread t) s a h = absurd (ground arith)

  pub read-ok :
      {A : Type 0} (f : World → Read A) (s : Plane World) (a : A)
      → (read f s).0 ≡ ok a
      → f s.world ≡ found a
  read-ok {A} f s a h =
      read_of-ok (f s.world) s a
        (ap (λ (r : Outcome A × Plane World). r.0) (sym (read-read_of f s)) ∙ h)

  continue-Post :
      {A B : Type 0} (Q : A → Plane World → Type 0) (R : B → Plane World → Type 0)
      (f : A → Act World B) (r : Outcome A) (t : Plane World)
      → Post Q (r, t)
      → ((a : A) (u : Plane World) → Q a u → Post R (f a u))
      → Post R (continue r f t)
  continue-Post Q R f (ok a) t q next = next a t (q a refl)
  continue-Post Q R f (err e) t q next = λ b h. absurd (ground arith)

  -- What holds after a success of the first part is what the rest may start from.
  pub bind-Post :
      {A B : Type 0} (Q : A → Plane World → Type 0) (R : B → Plane World → Type 0) (m : Act World A)
      (f : A → Act World B) (s : Plane World)
      → Post Q (m s)
      → ((a : A) (t : Plane World) → Q a t → Post R (f a t))
      → Post R ((m >>= f) s)
  unfolding ◌>>=◌
  bind-Post Q R m f s q next = continue-Post Q R f (m s).0 (m s).1 q next

  pub call-Keeps :
      (P : Plane World → Type 0) (f : World → Option String × World)
      → ((s : Plane World) → P s → P (record s { world = (f s.world).1 }))
      → Keeps P (call f)
  unfolding call
  call-Keeps P f keep s p = elim (Option-cases (f s.world).0) [
    | inl e ↦ rw (e, call) (keep s p)
    | inr (t, e) ↦ rw (e, call) (keep s p)
  ]

  pub call-Post :
      (Q : Unit {0} → Plane World → Type 0) (f : World → Option String × World) (s : Plane World)
      → ((f s.world).0 ≡ none → Q tt (record s { world = (f s.world).1 }))
      → Post Q (call f s)
  unfolding call
  call-Post Q f s q = elim (Option-cases (f s.world).0) [
    | inl e ↦ rw (e, call) (λ a h. q e)
    | inr (t, e) ↦ rw (e, call) (λ a h. absurd (ground arith))
  ]

  pub call_add-Keeps :
      (P : Plane World → Type 0) (f : World → Added × World)
      → ((s : Plane World) → P s → P (record s { world = (f s.world).1 }))
      → Keeps P (call_add f)
  unfolding call_add
  call_add-Keeps P f keep s p = elim (Added-cases (f s.world).0) [
    | inl e ↦ rw (e, call_add) (keep s p)
    | inr (inl e) ↦ rw (e, call_add) (keep s p)
    | inr (inr (t, e)) ↦ rw (e, call_add) (keep s p)
  ]

  pub call_add-Post :
      (Q : Unit {0} → Plane World → Type 0) (f : World → Added × World) (s : Plane World)
      → (((f s.world).0 ≡ done) ⊎ ((f s.world).0 ≡ exists)
          → Q tt (record s { world = (f s.world).1 }))
      → Post Q (call_add f s)
  unfolding call_add
  call_add-Post Q f s q = elim (Added-cases (f s.world).0) [
    | inl e ↦ rw (e, call_add) (λ a h. q (inl e))
    | inr (inl e) ↦ rw (e, call_add) (λ a h. q (inr e))
    | inr (inr (t, e)) ↦ rw (e, call_add) (λ a h. absurd (ground arith))
  ]

  -- A loop whose rounds succeed takes `P xs` to `P []`.
  pub for_each-Post :
      {A : Type 0} (P : List A → Plane World → Type 0) (f : A → Act World (Unit {0}))
      → ((x : A) (xs : List A) (s : Plane World) → P (x ∷ xs) s → Post (λ _ t. P xs t) (f x s))
      → (xs : List A) (s : Plane World) → P xs s
      → Post (λ _ t. P [] t) (for_each xs f s)
  unfolding for_each
  for_each-Post P f one [] s p = λ _ _. p
  for_each-Post P f one (x ∷ xs) s p =
      bind-Post (λ _ t. P xs t) (λ _ t. P [] t) (f x) (λ _. for_each xs f) s (one x xs s p)
        (λ _ t q. for_each-Post P f one xs t q)
