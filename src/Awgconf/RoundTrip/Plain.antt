-- ===== src/Awgconf/RoundTrip/Plain.antt =====
-- The prints of numbers, ranges and lists can stand on a line of a configuration.
use lotsman.Prelude.{
  ℕ, ◌+◌, refl, List, [], ◌∷◌, ◌++◌, ◌==◌, nat_eq, inl, inr, All, All-append, Bool-cases, ℤ, pos,
  negsuc,
}
use lotsman.Bytes.{Text, decimal, integer, join}
use lotsman.Bytes.Trim.{Starts-append, Ends-append, decimal-Starts, decimal-Ends}
use lotsman.Bytes.Cut.{Lacks}
use lotsman.Awgconf.{Range}
use lotsman.Awgconf.Values.{print_range, join_list}
use lotsman.Awgconf.Values.RoundTrip.{decimal-Lacks}
use lotsman.Awgconf.Lines.{IsPlain}

pub decimal-IsPlain : (n : ℕ) → IsPlain (decimal n)
decimal-IsPlain n =
    (decimal-Starts n, decimal-Ends n, decimal-Lacks b'#' n refl, decimal-Lacks 10 n refl)

-- Two plain texts around a text with no comment and no line feed in it.
around-IsPlain :
    (t u v : Text) → IsPlain t → Lacks b'#' u → Lacks 10 u → IsPlain v → IsPlain (t ++ (u ++ v))
around-IsPlain t u v (s, e, c, l) cu lu (s', e', c', l') = (
  Starts-append t (u ++ v) s,
  Ends-append t (u ++ v) (Ends-append u v e'),
  All-append _ t (u ++ v) (c, All-append _ u v (cu, c')),
  All-append _ t (u ++ v) (l, All-append _ u v (lu, l')),
)

pub print_range-IsPlain : (r : Range) → IsPlain (print_range r)
unfolding print_range
print_range-IsPlain r = elim (Bool-cases (r.lo == r.hi)) [
  | inl e ↦ rw (e, print_range) (decimal-IsPlain r.lo)
  | inr e ↦
      rw (e, print_range)
        (around-IsPlain (decimal r.lo) (b'-' ∷ []) (decimal r.hi) (decimal-IsPlain r.lo) (refl, tt)
          (refl, tt) (decimal-IsPlain r.hi))
]

pub integer-IsPlain : (z : ℤ) → IsPlain (integer z)
unfolding integer
integer-IsPlain (pos n) = decimal-IsPlain n
integer-IsPlain (negsuc n) =
    let (s, e, c, l) = decimal-IsPlain (n + 1) in
    (refl, Ends-append (b'-' ∷ []) (decimal (n + 1)) e, (refl, c), (refl, l))

module _ {A : Type 0} (print : A → Text) where
  -- The item's print can stand on a line.
  abbrev pub Prints : A → Type 0
  Prints a = IsPlain (print a)

  pub join_list-IsPlain :
      (a : A) (as' : List A) → Prints a → All Prints as' → IsPlain (join_list print (a ∷ as'))
  unfolding join_list join
  join_list-IsPlain a [] h hs = h
  join_list-IsPlain a (b ∷ bs) h (k, ks) =
      around-IsPlain (print a) (b',' ∷ b' ' ∷ []) (join_list print (b ∷ bs)) h (refl, (refl, tt))
        (refl, (refl, tt)) (join_list-IsPlain b bs k ks)
