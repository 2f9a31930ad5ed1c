-- ===== src/Wire/Fuel.antt =====
-- The loop of checkSignature in internal/awgconf/wire.go ends: the length of the text is fuel enough.
use lotsman.Prelude.{
  ℕ, ◌+◌, ◌≤◌, zero, suc, ◌≡◌, refl, ap, Option, none, some, List, [], ◌∷◌, inl, inr, arith, length,
  ℤ, Option-cases, nat_eq, ◌==◌, Bool-cases,
}
use lotsman.Bytes.{Text, cut}
use lotsman.Wire.{fields, tag_sizes, size_of_fields}

-- What cut drops and keeps is the text.
cut-length : (c : ℕ) (bs l r : Text) → cut c bs ≡ some (l, r) → length l + length r + 1 ≡ length bs
unfolding cut
cut-length c [] l r h = absurd (ground arith)
cut-length c (b ∷ bs) l r h = elim (Bool-cases (b == c)) [
  | inl e ↦ ground arith
  | inr e ↦ elim (Option-cases (cut c bs)) [
    | inl f ↦ absurd (ground arith)
    | inr ((m, q), f) ↦ ground (arith, cut-length c bs m q f)
  ]
]

-- With any fuel of at least the length of the text, the loop over a signature's tags gives the same.
pub tag_sizes_enough :
    (m n : ℕ) (spec : Text)
    → length spec ≤ m
    → length spec ≤ n
    → tag_sizes m spec ≡ tag_sizes n spec
unfolding tag_sizes cut
tag_sizes_enough zero zero spec h k = refl
tag_sizes_enough zero (suc n) [] h k = refl
tag_sizes_enough zero (suc n) (b ∷ spec) h k = absurd (omega (arith, h))
tag_sizes_enough (suc m) zero [] h k = refl
tag_sizes_enough (suc m) zero (b ∷ spec) h k = absurd (omega (arith, k))
tag_sizes_enough (suc m) (suc n) spec h k = elim (Option-cases (cut b'<' spec)) [
  | inl e ↦ rw (e, tag_sizes)
  | inr ((l, opened), e) ↦ elim (Option-cases (cut b'>' opened)) [
    | inl f ↦ rw (e, f, tag_sizes)
    | inr ((tag, rest), f) ↦
        let first = cut-length b'<' spec l opened e in
        let second = cut-length b'>' opened tag rest f in
        rw (e, f, tag_sizes)
          (ap
            (λ (o : Option (List ℤ)). elim (size_of_fields (fields tag)) as (λ _. Option (List ℤ)) [
              | none ↦ none
              | some s ↦ elim o as (λ _. Option (List ℤ)) [ none ↦ none | some ns ↦ some (s ∷ ns) ]
            ])
            (tag_sizes_enough m n rest (omega (arith, h, first, second))
              (omega (arith, k, first, second))))
  ]
]
