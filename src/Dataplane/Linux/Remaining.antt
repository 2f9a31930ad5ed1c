-- ===== src/Dataplane/Linux/Remaining.antt =====
-- linux.go: which rules of a kind the kernel is left with, as calls add and delete rules.
use lotsman.Prelude.{◌≡◌, ◌≢◌, subst, ◌⊎◌, inl, inr, List, ◌∷◌, In}
use lotsman.Dataplane.Linux.Kernel.{Kernel, Rule}
use lotsman.Dataplane.Linux.Plane.{Plane, call_add}
use lotsman.Dataplane.Linux.Routing.{rule_del}
use lotsman.Dataplane.Linux.Laws.{Laws, Post, call-Post, call_add-Post}

module _ {World : Type 0} (k : Kernel World) (laws : Laws k) (Kind : Rule → Type 0) where
  -- The kernel's rules of the kind all have the property.
  abbrev pub Only : (Rule → Type 0) → Plane World → Type 0
  Only P s = (x : Rule) → In x (laws.rules s.world) → Kind x → P x

  pub Only-weaken :
      {P Q : Rule → Type 0} (s : Plane World)
      → Only P s
      → ((x : Rule) → Kind x → P x → Q x)
      → Only Q s
  Only-weaken s h f = λ x m kind. f x kind (h x m kind)

  pub Only-same :
      {P : Rule → Type 0} (s t : Plane World)
      → laws.rules t.world ≡ laws.rules s.world
      → Only P s
      → Only P t
  Only-same s t same h = λ x m kind. h x (subst (λ rs. In x rs) same m) kind

  -- Deleting a rule takes it from those that remain.
  pub rule_del-Only :
      {P : Rule → Type 0} (r : Rule) (s : Plane World)
      → Only P s
      → Post (λ _ t. Only (λ x. P x × (r ≢ x)) t) (rule_del k r s)
  unfolding rule_del
  rule_del-Only {P} r s h =
      call-Post (λ _ t. Only (λ x. P x × (r ≢ x)) t) (k.rule_del r) s
        (λ e x m kind. let (i, n) = (laws.del_done r s.world e x).0 m in (h x i kind, n))

  -- Adding a rule adds it to those that remain.
  pub add-Only :
      {P : Rule → Type 0} (r : Rule) (s : Plane World)
      → Only P s
      → Post (λ _ t. Only (λ x. P x ⊎ (r ≡ x)) t) (call_add (k.rule_add r) s)
  add-Only {P} r s h =
      call_add-Post (λ _ t. Only (λ x. P x ⊎ (r ≡ x)) t) (k.rule_add r) s
        (λ added x m kind. elim added [
          | inl e ↦ elim ((laws.add_done r s.world e x).0 m) [
            | inl i ↦ inl (h x i kind)
            | inr same ↦ inr same
          ]
          | inr e ↦ inl (h x (subst (λ rs. In x rs) (laws.add_exists r s.world e).1 m) kind)
        ])

  -- One round of a loop that deletes rules.
  pub drop-Only :
      {Q : Rule → Type 0} (r : Rule) (rs : List Rule) (s : Plane World)
      → Only (λ x. In x (r ∷ rs) ⊎ Q x) s
      → Post (λ _ t. Only (λ x. In x rs ⊎ Q x) t) (rule_del k r s)
  drop-Only {Q} r rs s h =
      λ a d. Only-weaken (rule_del k r s).1 (rule_del-Only r s h a d) (λ x kind p. later x p)
    where
      later : (x : Rule) → (In x (r ∷ rs) ⊎ Q x) × (r ≢ x) → In x rs ⊎ Q x
      later x (inl (inl e), n) = absurd (n e)
      later x (inl (inr m), n) = inl m
      later x (inr q, n) = inr q
