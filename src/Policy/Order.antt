-- ===== src/Policy/Order.antt =====
-- The order of policy.Select on candidates: by latency, then by name.
use lotsman.Prelude.{
  ◌≡◌, refl, Bool, true, false, String, Ordering, arith, inl, List, [], ◌∷◌, In, All, if◌then◌else◌,
}
use lotsman.Policy.{Upstream, compare_text, before, min_func}

abbrev flip : Ordering → Ordering
flip Ordering.lt = Ordering.gt
flip Ordering.eq = Ordering.eq
flip Ordering.gt = Ordering.lt

compare_text-flip : (s t : String) → compare_text t s ≡ flip (compare_text s t)
unfolding compare_text
compare_text-flip String.[] String.[] = refl
compare_text-flip String.[] (String.◌∷◌ d t) = refl
compare_text-flip (String.◌∷◌ c s) String.[] = refl
compare_text-flip (String.◌∷◌ c s) (String.◌∷◌ d t) = ground (arith, compare_text-flip s t)

-- Texts that compare equal compare alike with every other.
compare_text-eq :
    (s t r : String) → compare_text s t ≡ Ordering.eq → compare_text s r ≡ compare_text t r
unfolding compare_text
compare_text-eq String.[] String.[] r h = refl
compare_text-eq String.[] (String.◌∷◌ d t) r h = absurd (ground arith)
compare_text-eq (String.◌∷◌ c s) String.[] r h = absurd (ground arith)
compare_text-eq (String.◌∷◌ c s) (String.◌∷◌ d t) String.[] h = refl
compare_text-eq (String.◌∷◌ c s) (String.◌∷◌ d t) (String.◌∷◌ e r) h =
    ground (arith, compare_text-eq s t r)

compare_text_trans :
    (s t r : String)
    → compare_text s t ≡ Ordering.lt
    → compare_text t r ≡ Ordering.lt
    → compare_text s r ≡ Ordering.lt
unfolding compare_text
compare_text_trans String.[] String.[] r h k = k
compare_text_trans String.[] (String.◌∷◌ d t) String.[] h k = absurd (ground arith)
compare_text_trans String.[] (String.◌∷◌ d t) (String.◌∷◌ e r) h k = refl
compare_text_trans (String.◌∷◌ c s) String.[] r h k = absurd (ground arith)
compare_text_trans (String.◌∷◌ c s) (String.◌∷◌ d t) String.[] h k = absurd (ground arith)
compare_text_trans (String.◌∷◌ c s) (String.◌∷◌ d t) (String.◌∷◌ e r) h k = ground (
  arith,
  compare_text_trans s t r,
  compare_text-eq s t r,
  compare_text-eq t s r,
  compare_text-flip s t,
  compare_text-eq r t s,
  compare_text-flip r t,
  compare_text-flip s r,
  compare_text-flip t r,
)

module _ (a b c : Upstream) where
  abbrev an : String
  an = a.config.name

  abbrev bn : String
  bn = b.config.name

  abbrev cn : String
  cn = c.config.name

  pub before_trans : before a b ≡ true → before b c ≡ true → before a c ≡ true
  unfolding before
  before_trans h k = ground (arith, compare_text_trans an bn cn)

  pub before_negative : before a b ≡ false → before b c ≡ false → before a c ≡ false
  unfolding before
  before_negative h k =
      ground (arith, compare_text-eq an bn cn, compare_text-flip an bn, compare_text_trans bn an cn)

before_asymm : (a b : Upstream) → before a b ≡ true → before b a ≡ false
unfolding before
before_asymm a b h = ground (arith, compare_text-flip a.config.name b.config.name)

before_irrefl : (a : Upstream) → before a a ≡ false
unfolding before
before_irrefl a = ground (arith, compare_text-flip a.config.name a.config.name)

abbrev pub Least : Upstream → Upstream → List Upstream → Type 0
Least r m us = (before m r ≡ false) × All (λ v. before v r ≡ false) us

Least-step :
    (b : Bool) (r m u : Upstream) (us : List Upstream)
    → before u m ≡ b
    → Least r (if b then u else m) us
    → Least r m (u ∷ us)
Least-step true r m u us e h = (before_negative m u r (before_asymm u m e) h.0, (h.0, h.1))
Least-step false r m u us e h = (h.0, (before_negative u m r e h.0, h.1))

-- No candidate comes before the result of MinFunc.
pub min_func-Least : (m : Upstream) (us : List Upstream) → Least (min_func m us) m us
unfolding min_func
min_func-Least m [] = (before_irrefl m, tt)
min_func-Least m (u ∷ us) =
    Least-step (before u m) (min_func m (u ∷ us)) m u us refl
      (min_func-Least (if before u m then u else m) us)

-- The result of MinFunc is one of the candidates.
pub min_func-In : (m : Upstream) (us : List Upstream) → In (min_func m us) (m ∷ us)
unfolding min_func
min_func-In m [] = inl refl
min_func-In m (u ∷ us) = ground (arith, min_func-In (if before u m then u else m) us)
