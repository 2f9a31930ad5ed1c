-- ===== src/Policy/Choice.antt =====
-- policy.Select: it fails exactly when nothing is usable, it is sticky, and otherwise it takes the
-- fastest upstream of the best tier.
use lotsman.Prelude.{
  ℕ, ◌≤◌, ◌≡◌, refl, sym, ap, subst, ◌∙◌, any-In, In-any, All-In, filter-In, In-filter, true, false,
  Option, none, some, List, [], ◌∷◌, String, ◌==◌, arith, In, filter, any, ◌↔◌, ◌⊎◌, inl, inr,
  Option-cases, Bool-cases, eq_iff, if◌then◌else◌, ◌≢◌, ltb, string_eq, nat_eq,
}
use mathlib.Core.Bool.{false≢true}
use lotsman.Config.{Profile}
use lotsman.Policy.{Upstream, usable, select, choose, before, min_func}
use lotsman.Policy.Candidates.{best_tier, in_tier, merge, same_tier, collect-filter}
use lotsman.Policy.Order.{min_func-Least, min_func-In}

merge-attained : (o b : Option ℕ) (t : ℕ) → merge o b ≡ some t → (o ≡ some t) ⊎ (b ≡ some t)
merge-attained none b t h = inr h
merge-attained (some a) none t h = inl h
merge-attained (some a) (some b) t h = ground arith

none_some : {k : ℕ} → ◌≢◌ {A = Option ℕ} none (some k)
none_some h = cc

-- The upstream is usable, and no other one is in a better tier.
pub record IsBest (p : Profile) (us : List Upstream) (u : Upstream) : Type 0 where
  pub listed : In u us
  pub tier : ℕ
  pub usable_at : usable p u ≡ some tier
  pub lowest : (v : Upstream) (k : ℕ) → In v us → usable p v ≡ some k → tier ≤ k

least_of_two :
    (o b : Option ℕ) (k : ℕ)
    → (o ≡ some k) ⊎ ((t : ℕ) × (b ≡ some t) × (t ≤ k))
    → (t : ℕ) × (merge o b ≡ some t) × (t ≤ k)
least_of_two none b k (inl h) = absurd (ground arith)
least_of_two none b k (inr h) = h
least_of_two (some a) none k (inl h) = (a, refl, ground arith)
least_of_two (some a) none k (inr h) = absurd (ground arith)
least_of_two (some a) (some b) k h = (if ltb b a then b else a, ground arith, ground arith)

same_tier-some : (o b : Option ℕ) → same_tier o b ≡ true → (t : ℕ) × (o ≡ some t) × (b ≡ some t)
same_tier-some none b h = absurd (false≢true h)
same_tier-some (some a) none h = absurd (false≢true h)
same_tier-some (some a) (some b) h = (a, refl, ground arith)

best_tier-attained :
    (p : Profile) (us : List Upstream) (t : ℕ)
    → best_tier p us ≡ some t
    → (v : Upstream) × In v us × (usable p v ≡ some t)
unfolding best_tier
best_tier-attained p [] t h = absurd (ground arith)
best_tier-attained p (u ∷ us) t h = elim (merge-attained (usable p u) (best_tier p us) t h) [
  | inl e ↦ (u, inl refl, e)
  | inr e ↦ let (v, m, f) = best_tier-attained p us t e in (v, inr m, f)
]

-- The best tier bounds the tiers of the usable upstreams from below, and is the tier of one.
best_tier-le :
    (p : Profile) (us : List Upstream) (v : Upstream) (k : ℕ)
    → In v us
    → usable p v ≡ some k
    → (t : ℕ) × (best_tier p us ≡ some t) × (t ≤ k)
unfolding best_tier
best_tier-le p [] v k m e = absurd m
best_tier-le p (u ∷ us) v k (inl m) e =
    least_of_two (usable p u) (best_tier p us) k (inl (subst (λ w. usable p w ≡ some k) (sym m) e))
best_tier-le p (u ∷ us) v k (inr m) e =
    least_of_two (usable p u) (best_tier p us) k (inr (best_tier-le p us v k m e))

-- An upstream of the best tier is one of the best.
in_tier-IsBest :
    (p : Profile) (us : List Upstream) (u : Upstream)
    → In u us
    → in_tier p (best_tier p us) u ≡ true
    → IsBest p us u
unfolding in_tier
in_tier-IsBest p us u m h =
    let (t, e, b) = same_tier-some (usable p u) (best_tier p us) h in
    record {
      listed = m;
      tier = t;
      usable_at = e;
      lowest = λ v k n f. let (t', e', le) = best_tier-le p us v k n f in ground arith;
    }

IsBest-in_tier :
    (p : Profile) (us : List Upstream) (u : Upstream)
    → IsBest p us u
    → in_tier p (best_tier p us) u ≡ true
unfolding in_tier
IsBest-in_tier p us u b =
    let (t, e, le) = best_tier-le p us u b.tier b.listed b.usable_at in
    let (v, m, f) = best_tier-attained p us t e in
    rw (b.usable_at, e) (ground (arith, b.lowest v t m f))

choose-none :
    (cs : List Upstream) (current : String) → choose cs current ≡ none → (u : Upstream) → ¬ In u cs
unfolding choose
choose-none [] current h u m = m
choose-none (c ∷ cs) current h u m = ground arith

choose-In :
    (cs : List Upstream) (current name : String)
    → choose cs current ≡ some name
    → (u : Upstream) × In u cs × (u.config.name ≡ name)
unfolding choose
choose-In [] current name h = absurd (ground arith)
choose-In (c ∷ cs) current name h =
    elim (Bool-cases (any (λ u. u.config.name == current) (c ∷ cs))) [
      | inl e ↦
          let (u, m, k) = any-In (λ (u : Upstream). u.config.name == current) (c ∷ cs) e in
          (u, m, ground (arith, eq_iff u.config.name current))
      | inr e ↦ (min_func c cs, min_func-In c cs, ground arith)
    ]

choose-sticky :
    (cs : List Upstream) (current : String) (u : Upstream)
    → In u cs
    → u.config.name ≡ current
    → choose cs current ≡ some current
unfolding choose
choose-sticky [] current u m h = absurd m
choose-sticky (c ∷ cs) current u m h = rw (
    In-any (λ (v : Upstream). v.config.name == current) u (c ∷ cs) m
      ((eq_iff u.config.name current).1 h))

choose-fastest :
    (cs : List Upstream) (current name : String)
    → ((u : Upstream) → In u cs → u.config.name ≢ current)
    → choose cs current ≡ some name
    → (u : Upstream) × In u cs
      × (u.config.name ≡ name)
      × ((v : Upstream) → In v cs → before v u ≡ false)
unfolding choose
choose-fastest [] current name away h = absurd (ground arith)
choose-fastest (c ∷ cs) current name away h =
    elim (Bool-cases (any (λ u. u.config.name == current) (c ∷ cs))) [
      | inl e ↦
          let (u, m, k) = any-In (λ (u : Upstream). u.config.name == current) (c ∷ cs) e in
          absurd (away u m ((eq_iff u.config.name current).0 k))
      | inr e ↦ (
        min_func c cs,
        min_func-In c cs,
        ground arith,
        λ v m. All-In (λ v. before v (min_func c cs) ≡ false) v (c ∷ cs) m (min_func-Least c cs),
      )
    ]

module _ (p : Profile) (us : List Upstream) (current : String) where
  candidates : List Upstream
  candidates = filter (in_tier p (best_tier p us)) us

  select-choose : select p us current ≡ choose candidates current
  unfolding select candidates
  select-choose = ap (λ c. choose c current) (collect-filter p us)

  candidate-IsBest : (u : Upstream) → In u candidates → IsBest p us u
  unfolding candidates
  candidate-IsBest u m =
      let (listed, top) = filter-In (in_tier p (best_tier p us)) u us m in
      in_tier-IsBest p us u listed top

  IsBest-candidate : (u : Upstream) → IsBest p us u → In u candidates
  unfolding candidates
  IsBest-candidate u b =
      In-filter (in_tier p (best_tier p us)) u us b.listed (IsBest-in_tier p us u b)

  -- Select fails exactly when no upstream is usable: none is both healthy and in a tier.
  pub select_fails_closed :
      (select p us current ≡ none) ↔ ((u : Upstream) → In u us → usable p u ≡ none)
  select_fails_closed = (
    λ h u m. elim (Option-cases (usable p u)) [
      | inl e ↦ e
      | inr (k, e) ↦
          let (t, b, le) = best_tier-le p us u k m e in
          let (v, n, f) = best_tier-attained p us t b in
          absurd (
            choose-none candidates current (sym select-choose ∙ h) v (
              IsBest-candidate v (record {
                listed = n;
                tier = t;
                usable_at = f;
                lowest = λ w j i g. let (t', b', le') = best_tier-le p us w j i g in ground arith;
              })))
    ],
    λ h. elim (Option-cases (select p us current)) [
      | inl e ↦ e
      | inr (name, e) ↦
          let (u, m, f) = choose-In candidates current name (sym select-choose ∙ e) in
          let b = candidate-IsBest u m in absurd (none_some (sym (h u b.listed) ∙ b.usable_at))
    ],
  )

  -- What Select returns is the name of an upstream that is usable, healthy and in a tier of the
  -- profile, and no usable one is in a better tier.
  pub select-IsBest :
      (name : String)
      → select p us current ≡ some name
      → (u : Upstream) × IsBest p us u × (u.config.name ≡ name)
  select-IsBest name h =
      let (u, m, e) = choose-In candidates current name (sym select-choose ∙ h) in
      (u, candidate-IsBest u m, e)

  -- If the current upstream is one of the best, Select keeps it, whatever the latencies.
  pub select_sticky :
      (u : Upstream) → IsBest p us u → u.config.name ≡ current → select p us current ≡ some current
  select_sticky u b e = select-choose ∙ choose-sticky candidates current u (IsBest-candidate u b) e

  -- If the current upstream is not one of the best, what Select returns is one of the best, and no
  -- other one of the best comes before it: none has a lower latency, or the same and a lower name.
  pub select_fastest :
      (name : String)
      → ((u : Upstream) → IsBest p us u → u.config.name ≢ current)
      → select p us current ≡ some name
      → (u : Upstream) × IsBest p us u
        × (u.config.name ≡ name)
        × ((v : Upstream) → IsBest p us v → before v u ≡ false)
  select_fastest name away h =
      let (u, m, e, least) =
        choose-fastest candidates current name (λ u m. away u (candidate-IsBest u m))
          (sym select-choose ∙ h) in
      (u, candidate-IsBest u m, e, λ v b. least v (IsBest-candidate v b))
