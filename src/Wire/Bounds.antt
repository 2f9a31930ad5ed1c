-- ===== src/Wire/Bounds.antt =====
-- CheckWireSizes of internal/awgconf/wire.go: what the sizes of an accepted configuration are.
use lotsman.Prelude.{
  ◌↔◌, ℕ, ◌+◌, ◌≤◌, ◌≡◌, refl, none, some, List, [], ◌∷◌, All, inl, inr, arith, length, ℤ, pos,
  negsuc, Option-cases,
}
use lotsman.Bytes.{Text}
use lotsman.Wire.{
  Params, initiation_size, response_size, cookie_reply_size, tag_sizes, check_sizes,
  check_signature, check_signatures, check_wire_sizes,
}

-- No size is negative, and together with `total` they fit.
abbrev pub Fits : ℕ → ℕ → List ℤ → Type 0
Fits payload_max total [] = total ≤ payload_max
Fits payload_max total (pos n ∷ ns) = Fits payload_max (total + n) ns
Fits payload_max total (negsuc n ∷ ns) = ⊥

Fits-total : (payload_max total : ℕ) (ns : List ℤ) → Fits payload_max total ns → total ≤ payload_max
Fits-total payload_max total [] h = h
Fits-total payload_max total (pos n ∷ ns) h = omega (arith, Fits-total payload_max (total + n) ns h)
Fits-total payload_max total (negsuc n ∷ ns) h = absurd h

check_sizes-Fits :
    (payload_max total : ℕ) (ns : List ℤ)
    → total ≤ payload_max
    → check_sizes payload_max total ns ≡ none
    → Fits payload_max total ns
unfolding check_sizes
check_sizes-Fits payload_max total [] h e = h
check_sizes-Fits payload_max total (pos n ∷ ns) h e =
    check_sizes-Fits payload_max (total + n) ns (ground arith) (ground arith)
check_sizes-Fits payload_max total (negsuc n ∷ ns) h e = absurd (ground arith)

Fits-check_sizes :
    (payload_max total : ℕ) (ns : List ℤ)
    → Fits payload_max total ns
    → check_sizes payload_max total ns ≡ none
unfolding check_sizes
Fits-check_sizes payload_max total [] h = refl
Fits-check_sizes payload_max total (pos n ∷ ns) h =
    ground (
      arith,
      Fits-check_sizes payload_max (total + n) ns h,
      Fits-total payload_max (total + n) ns h,
    )
Fits-check_sizes payload_max total (negsuc n ∷ ns) h = absurd h

-- The chain of the signature, if the runtime builds it, has sizes that fit.
abbrev pub IsBounded : ℕ → Text → Type 0
IsBounded payload_max spec =
    (sizes : List ℤ) → tag_sizes (length spec) spec ≡ some sizes → Fits payload_max 0 sizes

check_signature-IsBounded :
    (spec : Text) (payload_max : ℕ)
    → check_signature spec payload_max ≡ none
    → IsBounded payload_max spec
unfolding check_signature
check_signature-IsBounded spec payload_max h sizes e =
    check_sizes-Fits payload_max 0 sizes (omega arith) (ground (arith, e))

IsBounded-check_signature :
    (spec : Text) (payload_max : ℕ)
    → IsBounded payload_max spec
    → check_signature spec payload_max ≡ none
unfolding check_signature
IsBounded-check_signature spec payload_max h = elim (Option-cases (tag_sizes (length spec) spec)) [
  | inl e ↦ rw (e, check_signature) refl
  | inr (sizes, e) ↦ rw (e, check_signature) (Fits-check_sizes payload_max 0 sizes (h sizes e))
]

signatures-All :
    (specs : List Text) (payload_max : ℕ)
    → check_signatures specs payload_max ≡ none
    → All (IsBounded payload_max) specs
unfolding check_signatures
signatures-All [] payload_max h = tt
signatures-All (spec ∷ specs) payload_max h =
    elim (Option-cases (check_signature spec payload_max)) [
      | inl e ↦ (
        check_signature-IsBounded spec payload_max e,
        signatures-All specs payload_max (ground (arith, e)),
      )
      | inr (x, e) ↦ absurd (ground (arith, e))
    ]

All-signatures :
    (specs : List Text) (payload_max : ℕ)
    → All (IsBounded payload_max) specs
    → check_signatures specs payload_max ≡ none
unfolding check_signatures
All-signatures [] payload_max h = refl
All-signatures (spec ∷ specs) payload_max h =
    ground
      (arith, IsBounded-check_signature spec payload_max h.0, All-signatures specs payload_max h.1)

-- A configuration is accepted exactly if the three padded handshake messages fit the payload limit
-- and, of every signature that the runtime builds, no tag is negative and all together fit.
pub check_wire_sizes_iff :
    (p : Params) (payload_max : ℕ)
    → (check_wire_sizes p payload_max ≡ none) ↔ (
        (p.s1 + initiation_size ≤ payload_max)
        × (p.s2 + response_size ≤ payload_max)
        × (p.s3 + cookie_reply_size ≤ payload_max)
        × All (IsBounded payload_max) p.i)
unfolding check_wire_sizes
check_wire_sizes_iff p payload_max = (
  λ h. ground (arith, signatures-All p.i payload_max),
  λ h. ground (arith, All-signatures p.i payload_max),
)
