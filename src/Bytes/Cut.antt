-- ===== src/Bytes/Cut.antt =====
-- Cutting, splitting and joining texts at a byte.
use lotsman.Prelude.{
  ℕ, ◌≡◌, refl, false, none, some, List, [], ◌∷◌, ◌++◌, arith, All, Bool-cases, inl, inr, ◌==◌,
  nat_eq,
}
use lotsman.Bytes.{Text, cut, split}

-- The byte does not stand in the text.
abbrev pub Lacks : ℕ → Text → Type 0
Lacks c = All (λ b. (b == c) ≡ false)

pub cut-Lacks : (c : ℕ) (t : Text) → Lacks c t → cut c t ≡ none
unfolding cut
cut-Lacks c [] h = refl
cut-Lacks c (b ∷ bs) (p, h) = rw (p, cut) (rw (cut-Lacks c bs h))

pub cut-append : (c : ℕ) (t u : Text) → Lacks c t → cut c (t ++ c ∷ u) ≡ some (t, u)
unfolding cut
cut-append c [] u h = ground arith
cut-append c (b ∷ bs) u (p, h) = rw (p, cut) (rw (cut-append c bs u h))

pub split-Lacks : (c : ℕ) (t : Text) → Lacks c t → split c t ≡ t ∷ []
unfolding split
split-Lacks c [] h = refl
split-Lacks c (b ∷ bs) (p, h) = rw (p, split) (rw (split-Lacks c bs h))

pub split-append : (c : ℕ) (t u : Text) → Lacks c t → split c (t ++ c ∷ u) ≡ t ∷ split c u
unfolding split
split-append c [] u h = ground arith
split-append c (b ∷ bs) u (p, h) = rw (p, split) (rw (split-append c bs u h))

-- There is a first part.
pub split_cons : (c : ℕ) (t : Text) → (p : Text) × (ps : List Text) × (split c t ≡ p ∷ ps)
unfolding split
split_cons c [] = ([], [], refl)
split_cons c (b ∷ bs) = elim (Bool-cases (b == c)) [
  | inl e ↦ ([], split c bs, rw (e, split))
  | inr e ↦ let (p, ps, g) = split_cons c bs in (b ∷ p, ps, rw (e, split) (rw g))
]
