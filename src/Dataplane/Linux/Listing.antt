-- ===== src/Dataplane/Linux/Listing.antt =====
-- linux.go: ownRules and rulesFor list a peer's own rules, all of them and no others.
use lotsman.Prelude.{
  ◌≡◌, refl, sym, ap, subst, ◌∙◌, inl, inr, true, false, List, [], ◌∷◌, ℕ, String, In, filter,
  filter-In, In-filter, arith, Bool-cases, string_eq,
}
use mathlib.Core.Bool.{true≢false}
use lotsman.Prelude.Maps.{Map}
use lotsman.Net.{Addr}
use lotsman.Dataplane.Linux.Kernel.{Kernel, Rule}
use lotsman.Dataplane.Linux.Ownership.{probe_deletion_ambiguous}
use lotsman.Dataplane.Linux.Plane.{Plane, Outcome, ok, err, ◌>>=◌, pure, continue}
use lotsman.Dataplane.Linux.Routing.{rules_for, own_from, is_of_peer, is_own}
use lotsman.Dataplane.Linux.Laws.{Laws, Post}
use lotsman.Dataplane.Linux.Revocation.{own_rules-cases}

abbrev list_of : Outcome (List Rule) → List Rule
list_of (ok rs) = rs
list_of (err e) = []

-- The rules that are listed are the own ones among the given ones.
abbrev OwnOf : Map String ℕ → List Rule → Outcome (List Rule) → Type 0
OwnOf tables rs (err e) = Unit
OwnOf tables rs (ok out) =
    ((r : Rule) → In r out → In r rs × (is_own tables r ≡ true))
    × ((r : Rule) → In r rs → is_own tables r ≡ true → In r out)

OwnOf-later :
    (tables : Map String ℕ) (x : Rule) (rs : List Rule) (o : Outcome (List Rule))
    → is_own tables x ≡ false
    → OwnOf tables rs o
    → OwnOf tables (x ∷ rs) o
OwnOf-later tables x rs (err e) n h = tt
OwnOf-later tables x rs (ok out) n (sound, whole) = (
  λ r m. let (i, own) = sound r m in (inr i, own),
  λ r m own. elim m [
    | inl e ↦ absurd (true≢false (subst (λ y. true ≡ is_own tables y) (sym e) (sym own) ∙ n))
    | inr i ↦ whole r i own
  ],
)

OwnOf-front :
    (tables : Map String ℕ) (x : Rule) (rs : List Rule) (o : Outcome (List Rule))
    → is_own tables x ≡ true
    → OwnOf tables rs o
    → OwnOf tables (x ∷ rs) (elim o [ ok out ↦ ok (x ∷ out) | err e ↦ err e ])
OwnOf-front tables x rs (err e) n h = tt
OwnOf-front tables x rs (ok out) n (sound, whole) = (
  λ r m. elim m [
    | inl e ↦ (inl e, subst (λ y. is_own tables y ≡ true) e n)
    | inr i ↦ let (j, own) = sound r i in (inr j, own)
  ],
  λ r m own. elim m [ inl e ↦ inl e | inr i ↦ inr (whole r i own) ],
)

own_from-OwnOf :
    (tables : Map String ℕ) (all rs : List Rule) → OwnOf tables rs (own_from tables all rs)
unfolding own_from
own_from-OwnOf tables all [] = ((λ r m. absurd m), (λ r m own. m))
own_from-OwnOf tables all (x ∷ rs) =
    let rest = own_from tables all rs in
    let listed = own_from-OwnOf tables all rs in
    elim (Bool-cases (is_own tables x)) [
      | inr e ↦ rw (e, own_from) (OwnOf-later tables x rs rest e listed)
      | inl e ↦ elim (Bool-cases (probe_deletion_ambiguous x all)) [
        | inl a ↦ rw (e, own_from) (rw a tt)
        | inr a ↦ rw (e, own_from) (rw a (OwnOf-front tables x rs rest e listed))
      ]
    ]

module _ {World : Type 0} (k : Kernel World) (laws : Laws k) (peer : Addr) where
  -- The rule is one of this instance's for the peer.
  abbrev pub IsPeerRule : Map String ℕ → Rule → Type 0
  IsPeerRule tables r = (is_own tables r ≡ true) × (is_of_peer peer r ≡ true)

  -- The rules that are listed for the peer: those that the kernel has.
  abbrev pub Listed : List Rule → Plane World → Type 0
  Listed rs s =
      ((r : Rule) → In r rs → In r (laws.rules s.world) × IsPeerRule s.tables r)
      × ((r : Rule) → In r (laws.rules s.world) → IsPeerRule s.tables r → In r rs)

  pub rules_for-Post : (s : Plane World) → Post (λ rs t. (t ≡ s) × Listed rs s) (rules_for k peer s)
  unfolding rules_for ◌>>=◌
  rules_for-Post s = elim (own_rules-cases k s) [
    | inr (x, f) ↦ rw f (λ rs h. absurd (ground (arith, h)))
    | inl (all, e, f) ↦ rw f (
        chosen (own_from s.tables all all) (
          subst (λ rs. OwnOf s.tables rs (own_from s.tables all all)) (laws.listed s.world all e)
            (own_from-OwnOf s.tables all all)))
  ]
    where
      chosen :
          (o : Outcome (List Rule))
          → OwnOf s.tables (laws.rules s.world) o
          → Post
              (λ rs t. (t ≡ s) × Listed rs s)
              (continue o (λ all. pure (filter (is_of_peer peer) all)) s)
      chosen (err x) h = λ rs q. absurd (ground (arith, q))
      chosen (ok out) (sound, whole) = λ rs q. (
        refl,
        subst (λ xs. Listed xs s) (ap list_of q)
            (
              λ r m.
                  let (n, e) = filter-In (is_of_peer peer) r out m in
                  let (i, own) = sound r n in (i, (own, e)),
              λ r i (own, e). In-filter (is_of_peer peer) r out (whole r i own) e,
            ),
      )
