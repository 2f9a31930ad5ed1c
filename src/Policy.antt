-- ===== src/Policy.antt =====
-- internal/policy/policy.go: the choice of an upstream for a profile. A tier is `some` of an index,
-- and `none` where Go has -1. A latency is in nanoseconds and never negative.
pub mod Candidates
pub mod Order
pub mod Choice
pub mod Tests
use Prim.Native.Char.{code}
use lotsman.Prelude.{
  ℕ, zero, suc, ◌+◌, ◌≡◌, Bool, true, false, not, Option, none, some, List, [], ◌∷◌, ◌++◌, String,
  ◌==◌, ltb, if◌then◌else◌, any, string_eq, Ordering, compare, nat_eq,
}
use lotsman.Config
use lotsman.Config.{Profile, Match, matches}

pub record Upstream : Type 0 where
  pub config : Config.Upstream
  pub healthy : Bool
  pub latency : ℕ

-- The loop over `p.Prefer`, from index `i`.
tier_from : List Match → Config.Upstream → ℕ → Option ℕ
unfolding matches
tier_from [] u i = none
tier_from (m ∷ ms) u i = if matches m u then some i else tier_from ms u (i + 1)

unfoldable pub tier_of : Profile → Config.Upstream → Option ℕ
unfolding tier_from
tier_of p u = elim p.prefer [ [] ↦ some 0 | m ∷ ms ↦ tier_from p.prefer u 0 ]

-- One round of the loop over the upstreams: the best tier and the candidates so far.
keep : Option ℕ → List Upstream → Upstream → Option ℕ → Option ℕ × List Upstream
keep none candidates u best = (best, candidates)
keep (some t) candidates u none = (some t, u ∷ [])
keep (some t) candidates u (some b) =
    if ltb t b
    then (some t, u ∷ [])
    else if t == b
    then (some b, candidates ++ u ∷ [])
    else (some b, candidates)

-- `!u.Healthy || tier < 0` skips the upstream.
unfoldable pub usable : Profile → Upstream → Option ℕ
unfolding tier_of
usable p u = if not u.healthy then none else tier_of p u.config

pub collect : Profile → List Upstream → Option ℕ → List Upstream → List Upstream
unfolding keep usable
collect p [] best candidates = candidates
collect p (u ∷ us) best candidates =
    let (b, c) = keep (usable p u) candidates u best in collect p us b c

-- strings.Compare: by the characters' numbers, as the order of their UTF-8 bytes is.
unfoldable pub compare_text : String → String → Ordering
compare_text String.[] String.[] = Ordering.eq
compare_text String.[] (String.◌∷◌ d t) = Ordering.lt
compare_text (String.◌∷◌ c s) String.[] = Ordering.gt
compare_text (String.◌∷◌ c s) (String.◌∷◌ d t) = elim (compare (code c) (code d)) [
  | Ordering.lt ↦ Ordering.lt
  | Ordering.eq ↦ compare_text s t
  | Ordering.gt ↦ Ordering.gt
]

-- cmp.Or(cmp.Compare(a.Latency, b.Latency), strings.Compare(a.Name, b.Name)) < 0
unfoldable pub before : Upstream → Upstream → Bool
unfolding compare_text
before a b = elim (compare a.latency b.latency) [
  | Ordering.lt ↦ true
  | Ordering.eq ↦ elim (compare_text a.config.name b.config.name) [ Ordering.lt ↦ true | _ ↦ false ]
  | Ordering.gt ↦ false
]

-- slices.MinFunc: the first of the least.
unfoldable pub min_func : Upstream → List Upstream → Upstream
unfolding before
min_func m [] = m
min_func m (u ∷ us) = min_func (if before u m then u else m) us

-- What Select does with the candidates.
unfoldable pub choose : List Upstream → String → Option String
unfolding any min_func
choose [] current = none
choose (c ∷ cs) current =
    if any (λ u. u.config.name == current) (c ∷ cs)
    then some current
    else some (min_func c cs).config.name

unfoldable pub select : Profile → List Upstream → String → Option String
unfolding collect choose
select p upstreams current = choose (collect p upstreams none []) current
