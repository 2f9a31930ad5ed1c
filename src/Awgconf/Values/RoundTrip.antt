-- ===== src/Awgconf/Values/RoundTrip.antt =====
-- The values of internal/awgconf are read back from their prints.
use lotsman.Prelude.{
  ℕ, ◌/◌, ◌%◌, ◌^◌, ◌≤◌, ◌<◌, ◌≡◌, refl, ap, ◌∙◌, false, Option, none, some, List, [], ◌∷◌, length,
  ◌==◌, nat_eq, inl, inr, All, Bool-cases, arith,
}
use lotsman.Bytes.{Text, trim, trim_left, cut, split, join, number, decimal, is_digit, onto_first}
use lotsman.Bytes.Trim.{Starts, Ends, trim-tight, trim-decimal}
use lotsman.Bytes.Cut.{Lacks, cut-Lacks, cut-append, split-Lacks, split-append, split_cons}
use lotsman.Bytes.Decimal.{IsDigits, decimal-IsDigits, number-decimal}
use lotsman.Awgconf.{Range, Key}
use lotsman.Awgconf.Values.{
  parse_range, print_range, bounds, hex, unhex, hex_digit, hex_value, parse_hex_key, parse_items,
  parse_list, join_list,
}

abbrev pub IsRange : Range → Type 0
IsRange r = (r.lo ≤ r.hi) × (r.hi < 2 ^ 32)

IsDigits-Lacks : (c : ℕ) → is_digit c ≡ false → (t : Text) → IsDigits t → Lacks c t
IsDigits-Lacks c h [] d = tt
IsDigits-Lacks c h (b ∷ bs) d = (ground (arith, h, d), IsDigits-Lacks c h bs d.1)

-- No byte that is not a digit stands in a number's print.
pub decimal-Lacks : (c n : ℕ) → is_digit c ≡ false → Lacks c (decimal n)
decimal-Lacks c n h = IsDigits-Lacks c h (decimal n) (decimal-IsDigits n)

parse_range_one :
    (t : Text) (n : ℕ)
    → cut b'-' t ≡ none
    → number (2 ^ 32) (trim t) ≡ some n
    → parse_range t ≡ some (record { lo = n; hi = n })
unfolding parse_range
parse_range_one t n c e = rw (c, parse_range) (rw (e, parse_range) (ground arith))

parse_range_two :
    (t l h : Text) (n m : ℕ)
    → cut b'-' t ≡ some (l, h)
    → number (2 ^ 32) (trim l) ≡ some n
    → number (2 ^ 32) (trim h) ≡ some m
    → n ≤ m
    → parse_range t ≡ some (record { lo = n; hi = m })
unfolding parse_range
parse_range_two t l h n m c e f k =
    let b : bounds t ≡ (l, h) = rw (c, bounds) refl in
    rw (b, parse_range) (rw e (rw b (rw f (ground (arith, k)))))

-- Every range of 32-bit bounds in order is read back from its print.
pub parse_range-print_range : (r : Range) → IsRange r → parse_range (print_range r) ≡ some r
unfolding print_range
parse_range-print_range r (h, k) =
    let el =
      ap (number (2 ^ 32)) (trim-decimal r.lo)
      ∙ number-decimal (2 ^ 32) r.lo (omega (arith, h, k)) (omega arith) in
    let eh =
      ap (number (2 ^ 32)) (trim-decimal r.hi) ∙ number-decimal (2 ^ 32) r.hi k (omega arith) in
    let dash = decimal-Lacks b'-' r.lo refl in
    elim (Bool-cases (r.lo == r.hi)) [
      | inl e ↦
          rw (e, print_range)
            (parse_range_one (decimal r.lo) r.lo (cut-Lacks b'-' (decimal r.lo) dash) el
              ∙ ap (λ n. some (record { lo = r.lo; hi = n })) (ground (arith, e)))
      | inr e ↦
          rw (e, print_range)
            (parse_range_two _ (decimal r.lo) (decimal r.hi) r.lo r.hi
              (cut-append b'-' (decimal r.lo) (decimal r.hi) dash) el eh h)
    ]

module _ {A : Type 0} (parse : Text → Option A) where
  -- A space in front of the first item makes no difference.
  items_space :
      (t : Text) (ts : List Text)
      → parse_items parse (onto_first b' ' (t ∷ ts)) ≡ parse_items parse (t ∷ ts)
  unfolding parse_items trim trim_left
  items_space t ts = refl

  module _ (print : A → Text) where
    -- The item's print is read back, and has no space at its ends and no comma.
    abbrev pub IsItem : A → Type 0
    IsItem a = (parse (print a) ≡ some a) × Starts (print a) × Ends (print a) × Lacks b',' (print a)

    item_last : (a : A) → IsItem a → parse (trim (print a)) ≡ some a
    item_last a (e, s, k, c) = ap parse (trim-tight (print a) s k) ∙ e

    -- A list of one item or more is read back from its print.
    pub parse_list-join_list :
        (a : A) (as' : List A)
        → IsItem a
        → All IsItem as'
        → parse_list parse (join_list print (a ∷ as')) ≡ some (a ∷ as')
    unfolding parse_list join_list join parse_items
    parse_list-join_list a [] h hs =
        rw (split-Lacks b',' (print a) h.3) (rw (item_last a h, parse_items))
    parse_list-join_list a (b ∷ bs) h (k, ks) =
        let rest = join_list print (b ∷ bs) in
        let (p, ps, e) = split_cons b',' rest in
        let ih = parse_list-join_list b bs k ks in
        rw (split-append b',' (print a) (b' ' ∷ rest) h.3)
          (rw (item_last a h, parse_items) (rw (e, split) (rw (rw e at ih, parse_items) refl)))

-- Two hex digits are read back as the byte.
hex_byte_lem :
    (b : ℕ)
    → b < 256
    → (hex_value (hex_digit (b / 16)) ≡ some (b / 16))
      × (hex_value (hex_digit (b % 16)) ≡ some (b % 16))
hex_byte_lem b h = (hex_digit_lem (b / 16) (omega (arith, h)), hex_digit_lem (b % 16) (omega arith))
  where
    hex_digit_lem : (d : ℕ) → d < 16 → hex_value (hex_digit d) ≡ some d
    hex_digit_lem d k = ground (arith, k)

pub unhex-hex : (k : Key) → All (λ b. b < 256) k → unhex (hex k) ≡ some k
unfolding unhex hex
unhex-hex [] h = refl
unhex-hex (b ∷ bs) (h, hs) =
    let (p, q) = hex_byte_lem b h in
    rw (p, q) (rw (unhex-hex bs hs) (ap (λ n. some (n ∷ bs)) (omega arith)))

-- Every key of 32 bytes is read back from its hex form.
pub parse_hex_key-hex :
    (k : Key) → length k ≡ 32 → All (λ b. b < 256) k → parse_hex_key (hex k) ≡ some k
unfolding parse_hex_key
parse_hex_key-hex k n h = rw (unhex-hex k h) (rw n refl)
