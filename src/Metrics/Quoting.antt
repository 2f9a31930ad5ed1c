-- ===== src/Metrics/Quoting.antt =====
-- A label's value is read back from its quoted form, whatever bytes it has.
use lotsman.Prelude.{
  ℕ, ◌≡◌, refl, ap, false, Option, none, some, [], ◌∷◌, ◌++◌, ◌==◌, nat_eq, if◌then◌else◌,
  Bool-cases, inl, inr, arith,
}
use lotsman.Bytes.{Text}
use lotsman.Metrics.{escape}

-- How the text format is read: up to the first bare quote, where `\\`, `\"` and `\n` stand for one byte.
abbrev onto_value : ℕ → Option (Text × Text) → Option (Text × Text)
onto_value b none = none
onto_value b (some (v, rest)) = some (b ∷ v, rest)

abbrev unescaped : ℕ → Option ℕ
unescaped c =
    if c == b'\\'
    then some b'\\'
    else if c == b'"'
    then some b'"'
    else if c == b'n'
    then some 10
    else none

abbrev onto_escaped : Option ℕ → Option (Text × Text) → Option (Text × Text)
onto_escaped none r = none
onto_escaped (some b) r = onto_value b r

unfoldable pub unquote : Text → Option (Text × Text)
unquote [] = none
unquote (b ∷ []) = if b == b'"' then some ([], []) else none
unquote (b ∷ c ∷ cs) =
    let rest = unquote (c ∷ cs) in
    let after = unquote cs in
    if b == b'"'
    then some ([], c ∷ cs)
    else if b == b'\\'
    then onto_escaped (unescaped c) after
    else onto_value b rest

unquote_plain :
    (b : ℕ) (t : Text) (v rest : Text)
    → (b == b'"') ≡ false
    → (b == b'\\') ≡ false
    → unquote t ≡ some (v, rest)
    → unquote (b ∷ t) ≡ some (b ∷ v, rest)
unfolding unquote
unquote_plain b [] v rest p q h = absurd (ground (arith, h))
unquote_plain b (c ∷ cs) v rest p q h = rw (p, unquote) (rw (q, unquote) (rw (h, unquote) refl))

unquote_bare : (rest : Text) → unquote (b'"' ∷ rest) ≡ some ([], rest)
unfolding unquote
unquote_bare [] = refl
unquote_bare (c ∷ cs) = refl

unquote_escaped :
    (c b : ℕ) (t v rest : Text)
    → unescaped c ≡ some b
    → unquote t ≡ some (v, rest)
    → unquote (b'\\' ∷ c ∷ t) ≡ some (b ∷ v, rest)
unfolding unquote
unquote_escaped c b t v rest e h = rw (e, unquote) (rw (h, unquote) refl)

-- The value that a label is given, and whatever follows its closing quote, are read back: no quote,
-- backslash or line feed in a value can end it early or run over into the text behind it.
pub unquote-escape : (v rest : Text) → unquote (escape v ++ b'"' ∷ rest) ≡ some (v, rest)
unfolding escape
unquote-escape [] rest = unquote_bare rest
unquote-escape (b ∷ bs) rest =
    let ih = unquote-escape bs rest in
    elim (Bool-cases (b == b'\\')) [
      | inl e ↦ rw (e, escape) (unquote_escaped b'\\' b _ bs rest (ap some (ground (arith, e))) ih)
      | inr e ↦ elim (Bool-cases (b == b'"')) [
        | inl q ↦
            rw (e, escape)
              (rw (q, escape) (unquote_escaped b'"' b _ bs rest (ap some (ground (arith, q))) ih))
        | inr q ↦ elim (Bool-cases (b == 10)) [
          | inl n ↦
              rw (e, escape)
                (rw (q, escape)
                  (rw (n, escape)
                    (unquote_escaped b'n' b _ bs rest (ap some (ground (arith, n))) ih)))
          | inr n ↦
              rw (e, escape) (rw (q, escape) (rw (n, escape) (unquote_plain b _ bs rest q e ih)))
        ]
      ]
    ]
