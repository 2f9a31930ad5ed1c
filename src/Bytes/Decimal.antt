-- ===== src/Bytes/Decimal.antt =====
-- Numbers are read back from their decimal print.
use lotsman.Prelude.{
  ℕ, ◌+◌, ◌*◌, ◌/◌, ◌%◌, ◌^◌, ◌≤◌, ◌<◌, zero, suc, ◌≡◌, sym, ap, ◌∙◌, inl, inr, true, some, [], ◌∷◌,
  arith, ltb, nat_eq, ℤ, pos, negsuc, All, Bool-cases,
}
use lotsman.Bytes.{Text, is_digit, digits, number, atoi, emit, decimal, integer}

abbrev pub IsDigits : Text → Type 0
IsDigits = All (λ b. is_digit b ≡ true)

pow10 : ℕ → ℕ
pow10 zero = 1
pow10 (suc f) = 10 * pow10 f

digits-last : (n : ℕ) (out : Text) → digits (n / 10) ((b'0' + n % 10) ∷ out) ≡ digits n out
unfolding digits
digits-last n out = ground arith

digits_first : (n : ℕ) (out : Text) → n < 10 → digits 0 ((b'0' + n) ∷ out) ≡ digits n out
unfolding digits
digits_first n out h = ground arith

-- Reading the digits that `emit` puts before `out` is reading `out` from the number.
digits-emit : (f n : ℕ) (out : Text) → n < pow10 f → digits 0 (emit f n out) ≡ digits n out
unfolding emit pow10
digits-emit zero n out h = ground arith
digits-emit (suc f) n out h = elim (Bool-cases (ltb n 10)) [
  | inl e ↦ rw (e, emit) (digits_first n out (ground arith))
  | inr e ↦
      rw (e, emit)
        (digits-emit f (n / 10) ((b'0' + n % 10) ∷ out) (omega (arith, h)) ∙ digits-last n out)
]

emit-IsDigits : (f n : ℕ) (out : Text) → IsDigits out → IsDigits (emit f n out)
unfolding emit
emit-IsDigits zero n out h = h
emit-IsDigits (suc f) n out h = elim (Bool-cases (ltb n 10)) [
  | inl e ↦ rw (e, emit) (ground arith, h)
  | inr e ↦ rw (e, emit) (emit-IsDigits f (n / 10) ((b'0' + n % 10) ∷ out) (ground arith, h))
]

pub decimal-IsDigits : (n : ℕ) → IsDigits (decimal n)
unfolding decimal
decimal-IsDigits n = emit-IsDigits 20 n [] tt

-- The print has a first digit.
pub emit_cons : (f n : ℕ) (out : Text) → (b : ℕ) × (bs : Text) × (emit (suc f) n out ≡ b ∷ bs)
unfolding emit
emit_cons zero n out = elim (Bool-cases (ltb n 10)) [
  | inl e ↦ (b'0' + n, out, rw (e, emit))
  | inr e ↦ (b'0' + n % 10, out, rw (e, emit))
]
emit_cons (suc f) n out = elim (Bool-cases (ltb n 10)) [
  | inl e ↦ (b'0' + n, out, rw (e, emit))
  | inr e ↦ let (b, bs, g) = emit_cons f (n / 10) ((b'0' + n % 10) ∷ out) in (b, bs, rw (e, emit) g)
]

pub decimal_cons :
    (n : ℕ) → (b : ℕ) × (bs : Text) × (decimal n ≡ b ∷ bs) × (is_digit b ≡ true) × IsDigits bs
unfolding decimal
decimal_cons n =
    let (b, bs, e) = emit_cons 19 n [] in
    let d = rw e at (decimal-IsDigits n) in (b, bs, e, d.0, d.1)

number-digits :
    (bound b n : ℕ) (bs : Text)
    → digits 0 (b ∷ bs) ≡ some n
    → n < bound
    → number bound (b ∷ bs) ≡ some n
unfolding number
number-digits bound b n bs e h = rw (e, number) (ground arith)

-- Every number below the bound, and below 2 ^ 64, is read back from its print.
pub number-decimal : (bound n : ℕ) → n < bound → bound ≤ 2 ^ 64 → number bound (decimal n) ≡ some n
unfolding decimal pow10 digits
number-decimal bound n h k =
    let (b, bs, e) = emit_cons 19 n [] in
    rw e (
      number-digits bound b n bs (ap (digits 0) (sym e) ∙ digits-emit 20 n [] (omega (arith, h, k)))
        h)

abbrev pub IsInt64 : ℤ → Type 0
IsInt64 (pos n) = n < 2 ^ 63
IsInt64 (negsuc n) = n < 2 ^ 63

atoi_digits :
    (n b : ℕ) (bs : Text)
    → is_digit b ≡ true
    → number (2 ^ 63) (b ∷ bs) ≡ some n
    → atoi (b ∷ bs) ≡ some (pos n)
unfolding atoi
atoi_digits n b bs d h = ground (arith, h)

atoi_minus :
    (n : ℕ) (bs : Text) → number (2 ^ 63 + 1) bs ≡ some (suc n) → atoi (b'-' ∷ bs) ≡ some (negsuc n)
unfolding atoi
atoi_minus n bs h = rw (h, atoi)

-- Every int is read back from its print.
pub atoi-integer : (z : ℤ) → IsInt64 z → atoi (integer z) ≡ some z
unfolding integer
atoi-integer (pos n) h =
    let (b, bs, e, d, ds) = decimal_cons n in
    rw e (atoi_digits n b bs d (rw e at (number-decimal (2 ^ 63) n h (omega arith))))
atoi-integer (negsuc n) h =
    atoi_minus n (decimal (n + 1))
      (number-decimal (2 ^ 63 + 1) (n + 1) (omega (arith, h)) (omega arith) ∙ ap some (omega arith))
