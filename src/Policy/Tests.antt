-- ===== src/Policy/Tests.antt =====
-- Runs of policy.Select, and its theorems at concrete inputs.
use lotsman.Prelude.{
  ℕ, ◌≡◌, ◌≢◌, refl, sym, ap, subst, ◌∙◌, ◌↔◌, inl, inr, Bool, true, false, none, some, List, [],
  ◌∷◌, String, In, filter, arith, eq_iff,
}
use mathlib.Core.Bool.{false≢true}
use lotsman.Config.{Profile}
use lotsman.Policy.{Upstream, select, usable, collect, before}
use lotsman.Policy.Candidates.{collect-filter, in_tier, best_tier}
use lotsman.Policy.Choice.{
  IsBest, select_fails_closed, select-IsBest, select_sticky, select_fastest,
}

-- Dutch upstreams first, then any.
abbrev dutch : Profile
dutch = record {
  name = "dutch";
  prefer = record { geo = "nl"; provider = "" } ∷ record { geo = ""; provider = "" } ∷ [];
}

abbrev upstream : String → String → Bool → ℕ → Upstream
upstream name geo healthy latency = record {
  config = record { name = name; conf = ""; geo = geo; provider = "" };
  healthy = healthy;
  latency = latency;
}

abbrev slow : Upstream
slow = upstream "nl1" "nl" true 30

abbrev fast : Upstream
fast = upstream "nl2" "nl" true 10

abbrev german : Upstream
german = upstream "de" "de" true 1

abbrev three : List Upstream
three = slow ∷ german ∷ fast ∷ []

-- Another tier is no candidate, however fast; the current one is kept; the fastest is taken.
keeps_run : select dutch three "nl1" ≡ some "nl1"
unfolding select
keeps_run = refl

takes_run : select dutch three "de" ≡ some "nl2"
unfolding select
takes_run = refl

fails_run : select dutch (upstream "nl1" "nl" false 30 ∷ []) "nl1" ≡ none
unfolding select
fails_run = refl

slow-IsBest : IsBest dutch three slow
unfolding usable
slow-IsBest = record {
  listed = inl refl;
  tier = 0;
  usable_at = refl;
  lowest = λ v k m e. omega arith;
}

german_worse : ¬ IsBest dutch three german
unfolding usable
german_worse b = ground (arith, b.lowest slow 0 (inl refl) refl, b.usable_at)

-- No upstream of the best tier is called "de".
away : (u : Upstream) → IsBest dutch three u → u.config.name ≢ "de"
away u b e = elim b.listed [
  | inl f ↦ false≢true ((eq_iff "nl1" "de").1 (ap (λ (x : Upstream). x.config.name) f ∙ e))
  | inr (inl f) ↦ german_worse (subst (IsBest dutch three) (sym f) b)
  | inr (inr (inl f)) ↦
      false≢true ((eq_iff "nl2" "de").1 (ap (λ (x : Upstream). x.config.name) f ∙ e))
  | inr (inr (inr n)) ↦ absurd n
]

collect-filter_example :
    collect dutch three none [] ≡ filter (in_tier dutch (best_tier dutch three)) three
collect-filter_example = collect-filter dutch three

select_fails_closed_example :
    (select dutch three "nl1" ≡ none) ↔ ((u : Upstream) → In u three → usable dutch u ≡ none)
select_fails_closed_example = select_fails_closed dutch three "nl1"

select-IsBest_example : (u : Upstream) × IsBest dutch three u × (u.config.name ≡ "nl2")
select-IsBest_example = select-IsBest dutch three "de" "nl2" takes_run

select_sticky_example : select dutch three "nl1" ≡ some "nl1"
select_sticky_example = select_sticky dutch three "nl1" slow slow-IsBest refl

select_fastest_example :
    (u : Upstream) × IsBest dutch three u
    × (u.config.name ≡ "nl2")
    × ((v : Upstream) → IsBest dutch three v → before v u ≡ false)
select_fastest_example = select_fastest dutch three "de" "nl2" away takes_run
