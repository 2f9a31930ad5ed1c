-- ===== src/Identity/Tests.antt =====
-- A new identity, two callers that create it at once, and the theorems at concrete inputs. The file's
-- content is the struct itself.
use mathlib.Core.Option.{some-injective}
use lotsman.Prelude.{
  ◌-◌, ◌<◌, ◌≡◌, refl, sym, subst, true, none, some, List, [], ◌∷◌, All, In, length, inl, inr,
  arith,
}
use lotsman.Awgconf.{Key, zeros}
use lotsman.Awgconf.Values.{hex, unhex}
use lotsman.Awgconf.Tests.{codec}
use lotsman.Identity.{
  Identity, Random, IdentityFile, Json, Caller, starting, loaded, fresh_params, new_identity, clamp,
  load_identity, save_identity, interleave,
}
use lotsman.Identity.Fresh.{IsRandom, IsClamped, AreFresh, new_identity-AreFresh}
use lotsman.Identity.File.{IsSaveable, load_identity-save_identity, callers_agree}

-- The greatest results that rand.Int can give.
abbrev greatest : Random
greatest = record { bytes = some (255 ∷ zeros 31); draw = λ k n. n - 1 }

greatest-IsRandom : IsRandom greatest
greatest-IsRandom = (
  λ k n h. omega (arith, h),
  λ bs e.
      subst (λ (cs : Key). (length cs ≡ 32) × All (λ b. b < 256) cs)
        (some-injective (255 ∷ zeros 31) bs e) (refl, small),
)
  where
    small : All (λ b. b < 256) (255 ∷ zeros 31)
    small = ground arith

abbrev pub fresh : Identity
fresh = record { private_key = clamp (255 ∷ zeros 31); params = fresh_params greatest }

new_identity-AreFresh_example : IsClamped fresh.private_key × AreFresh fresh.params
unfolding new_identity
new_identity-AreFresh_example = new_identity-AreFresh greatest fresh greatest-IsRandom refl

pub fresh-AreFresh : AreFresh fresh.params
unfolding new_identity
fresh-AreFresh = (new_identity-AreFresh greatest fresh greatest-IsRandom refl).1

abbrev struct : Json IdentityFile
struct = record { marshal = λ f. f; unmarshal = λ f. some f }

fresh-IsSaveable : IsSaveable codec fresh
unfolding fresh_params hex unhex clamp
fresh-IsSaveable = (
  refl,
  refl,
  (
    (omega arith, omega arith),
    (omega arith, omega arith),
    (omega arith, omega arith),
    (omega arith, omega arith),
  ),
  refl,
)

load_identity-save_identity_example :
    load_identity codec struct (save_identity codec struct fresh) ≡ some fresh
load_identity-save_identity_example =
    load_identity-save_identity codec struct fresh fresh-IsSaveable refl

-- The other caller's identity has another S1.
abbrev other : Identity
other = record fresh { params = record fresh.params { s1 = 20 } }

other-IsSaveable : IsSaveable codec other
unfolding fresh_params hex unhex clamp
other-IsSaveable = (
  refl,
  refl,
  (
    (omega arith, omega arith),
    (omega arith, omega arith),
    (omega arith, omega arith),
    (omega arith, omega arith),
  ),
  refl,
)

-- Both find no file; the first one's link succeeds, the second's fails.
abbrev callers : List Caller
callers = starting (some fresh) true ∷ starting (some other) true ∷ []

race_run :
    (interleave codec struct (0 ∷ 1 ∷ 0 ∷ 1 ∷ []) callers none).0 ≡ loaded fresh ∷ loaded fresh ∷ []
unfolding interleave fresh_params clamp hex unhex
race_run = refl

callers_agree_example : fresh ≡ fresh
callers_agree_example =
    callers_agree codec struct (0 ∷ 1 ∷ 0 ∷ 1 ∷ []) callers none fresh fresh
      (
        load_identity-save_identity codec struct fresh fresh-IsSaveable refl,
        (load_identity-save_identity codec struct other other-IsSaveable refl, tt),
      )
      (subst (λ cs. In (loaded fresh) cs) (sym race_run) (inl refl))
      (subst (λ cs. In (loaded fresh) cs) (sym race_run) (inr (inl refl)))
