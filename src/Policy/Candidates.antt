-- ===== src/Policy/Candidates.antt =====
-- The one pass of policy.Select collects the healthy upstreams of the best tier, in their order.
use lotsman.Prelude.{
  ℕ, ◌≡◌, refl, Bool, true, false, Option, none, some, List, [], ◌∷◌, ◌++◌, ltb, ◌==◌, nat_eq,
  if◌then◌else◌, filter, arith,
}
use mathlib.Core.List.{append_assoc, append-nil}
use lotsman.Config.{Profile}
use lotsman.Policy.{Upstream, usable, keep, collect}

-- The better of two tiers.
abbrev pub merge : Option ℕ → Option ℕ → Option ℕ
merge none b = b
merge (some a) none = some a
merge (some a) (some b) = if ltb b a then some b else some a

-- The lowest tier of a usable upstream.
unfoldable pub best_tier : Profile → List Upstream → Option ℕ
best_tier p [] = none
best_tier p (u ∷ us) = merge (usable p u) (best_tier p us)

abbrev pub same_tier : Option ℕ → Option ℕ → Bool
same_tier (some a) (some b) = a == b
same_tier none _ = false
same_tier (some a) none = false

-- The upstream is usable and in the tier `best`.
unfoldable pub in_tier : Profile → Option ℕ → Upstream → Bool
in_tier p best u = same_tier (usable p u) best

-- `t` is a lower tier than the best one.
abbrev ltb_best : ℕ → Option ℕ → Bool
ltb_best t none = true
ltb_best t (some b) = ltb t b

-- What the rest of the loop makes of the candidates `c` of tier `t`, where `f k` are the upstreams
-- still to come of tier `k` and `best` is the best tier among them.
abbrev extended : (ℕ → List Upstream) → ℕ → List Upstream → Option ℕ → List Upstream
extended f t c none = c
extended f t c (some b) = if ltb b t then f b else c ++ f t

below_step :
    (o b : Option ℕ) (t : ℕ) (u : Upstream) (f : List Upstream)
    → (ltb_best t b ≡ true → f ≡ [])
    → ltb_best t (merge o b) ≡ true
    → (if same_tier o (some t) then u ∷ f else f) ≡ []
below_step none b t u f ih h = ih h
below_step (some k) none t u f ih h = ground (arith, ih refl)
below_step (some k) (some m) t u f ih h = ground arith

-- No usable upstream lies below the best tier.
filter_below :
    (p : Profile) (t : ℕ) (us : List Upstream)
    → ltb_best t (best_tier p us) ≡ true
    → filter (in_tier p (some t)) us ≡ []
unfolding best_tier filter in_tier
filter_below p t [] h = refl
filter_below p t (u ∷ us) h =
    below_step (usable p u) (best_tier p us) t u (filter (in_tier p (some t)) us)
      (filter_below p t us) h

-- One round of the loop, with the rest of the loop and the filters after it left open.
step :
    (o b : Option ℕ) (t : ℕ) (c : List Upstream) (u : Upstream)
    (rest : Option ℕ → List Upstream → List Upstream) (f : ℕ → List Upstream)
    → ((k : ℕ) (d : List Upstream) → rest (some k) d ≡ extended f k d b)
    → ((k : ℕ) → ltb_best k b ≡ true → f k ≡ [])
    → rest (keep o c u (some t)).0 (keep o c u (some t)).1
      ≡ extended (λ k. if same_tier o (some k) then u ∷ f k else f k) t c (merge o b)
unfolding keep
step none b t c u rest f ih below = ih t c
step (some k) none t c u rest f ih below =
    ground (arith, ih k (u ∷ []), ih t c, ih t (c ++ u ∷ []), below k, below t, append-nil c)
step (some k) (some m) t c u rest f ih below =
    ground (arith, ih k (u ∷ []), ih t c, ih t (c ++ u ∷ []), append_assoc c (u ∷ []) (f t))

collect_from :
    (p : Profile) (us : List Upstream) (t : ℕ) (c : List Upstream)
    → collect p us (some t) c ≡ extended (λ k. filter (in_tier p (some k)) us) t c (best_tier p us)
unfolding collect best_tier filter in_tier
collect_from p [] t c = refl
collect_from p (u ∷ us) t c =
    step (usable p u) (best_tier p us) t c u (collect p us) (λ k. filter (in_tier p (some k)) us)
      (λ k d. collect_from p us k d) (λ k. filter_below p k us)

first_step :
    (o b : Option ℕ) (u : Upstream) (rest : Option ℕ → List Upstream → List Upstream)
    (f : Option ℕ → List Upstream)
    → ((k : ℕ) (d : List Upstream) → rest (some k) d ≡ extended (λ n. f (some n)) k d b)
    → rest none [] ≡ f b
    → ((k : ℕ) → ltb_best k b ≡ true → f (some k) ≡ [])
    → rest (keep o [] u none).0 (keep o [] u none).1
      ≡ (if same_tier o (merge o b) then u ∷ f (merge o b) else f (merge o b))
unfolding keep
first_step none b u rest f ih start below = start
first_step (some k) none u rest f ih start below = ground (arith, ih k (u ∷ []), below k refl)
first_step (some k) (some m) u rest f ih start below = ground (arith, ih k (u ∷ []))

-- The loop of Select leaves exactly the usable upstreams of the best tier, in the order given.
pub collect-filter :
    (p : Profile) (us : List Upstream)
    → collect p us none [] ≡ filter (in_tier p (best_tier p us)) us
unfolding collect best_tier filter in_tier
collect-filter p [] = refl
collect-filter p (u ∷ us) =
    first_step (usable p u) (best_tier p us) u (collect p us) (λ o. filter (in_tier p o) us)
      (λ k d. collect_from p us k d) (collect-filter p us) (λ k. filter_below p k us)
