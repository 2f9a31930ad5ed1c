-- ===== src/Bytes/Trim.antt =====
-- Texts that TrimSpace leaves alone.
use lotsman.Prelude.{ℕ, ◌≡◌, ap, ◌∙◌, true, false, [], ◌∷◌, ◌++◌, arith, All, nat_eq}
use lotsman.Bytes.{Text, is_space, is_digit, trim_left, trim_right, trim, decimal}
use lotsman.Bytes.Decimal.{decimal_cons}

-- The text is not empty and has no space in front; and none behind.
abbrev pub Starts : Text → Type 0
Starts [] = ⊥
Starts (b ∷ bs) = is_space b ≡ false

abbrev pub Ends : Text → Type 0
Ends [] = ⊥
Ends (b ∷ []) = is_space b ≡ false
Ends (b ∷ c ∷ cs) = Ends (c ∷ cs)

pub Starts-append : (t u : Text) → Starts t → Starts (t ++ u)
Starts-append [] u h = absurd h
Starts-append (b ∷ bs) u h = h

pub Ends-append : (t u : Text) → Ends u → Ends (t ++ u)
Ends-append [] u h = h
Ends-append (b ∷ []) [] h = absurd h
Ends-append (b ∷ []) (c ∷ cs) h = h
Ends-append (b ∷ c ∷ cs) u h = Ends-append (c ∷ cs) u h

pub trim_left-Starts : (t : Text) → Starts t → trim_left t ≡ t
unfolding trim_left
trim_left-Starts [] h = absurd h
trim_left-Starts (b ∷ bs) h = rw (h, trim_left)

pub trim_right-Ends : (t : Text) → Ends t → trim_right t ≡ t
unfolding trim_right
trim_right-Ends [] h = absurd h
trim_right-Ends (b ∷ []) h = rw (h, trim_right)
trim_right-Ends (b ∷ c ∷ cs) h = rw (trim_right-Ends (c ∷ cs) h)

pub trim-tight : (t : Text) → Starts t → Ends t → trim t ≡ t
unfolding trim
trim-tight t h k = ap trim_right (trim_left-Starts t h) ∙ trim_right-Ends t k

-- One space on either side is dropped.
pub trim_before : (t : Text) → Starts t → Ends t → trim (b' ' ∷ t) ≡ t
unfolding trim trim_left
trim_before t h k = ap trim_right (trim_left-Starts t h) ∙ trim_right-Ends t k

trim_right_after : (t : Text) → Ends t → trim_right (t ++ b' ' ∷ []) ≡ t
unfolding trim_right
trim_right_after [] h = absurd h
trim_right_after (b ∷ []) h = rw (h, trim_right)
trim_right_after (b ∷ c ∷ cs) h = rw (trim_right_after (c ∷ cs) h)

pub trim_after : (t : Text) → Starts t → Ends t → trim (t ++ b' ' ∷ []) ≡ t
unfolding trim
trim_after t h k =
    ap trim_right (trim_left-Starts (t ++ b' ' ∷ []) (Starts-append t (b' ' ∷ []) h))
    ∙ trim_right_after t k

pub IsDigits-Ends :
    (b : ℕ) (bs : Text) → is_digit b ≡ true → All (λ c. is_digit c ≡ true) bs → Ends (b ∷ bs)
IsDigits-Ends b [] d ds = ground arith
IsDigits-Ends b (c ∷ cs) d ds = IsDigits-Ends c cs ds.0 ds.1

pub decimal-Starts : (n : ℕ) → Starts (decimal n)
decimal-Starts n = let (b, bs, e, d, ds) = decimal_cons n in rw e (ground arith)

pub decimal-Ends : (n : ℕ) → Ends (decimal n)
decimal-Ends n = let (b, bs, e, d, ds) = decimal_cons n in rw e (IsDigits-Ends b bs d ds)

-- So does a number's print stay as it is.
pub trim-decimal : (n : ℕ) → trim (decimal n) ≡ decimal n
trim-decimal n = trim-tight (decimal n) (decimal-Starts n) (decimal-Ends n)
