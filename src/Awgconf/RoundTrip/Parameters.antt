-- ===== src/Awgconf/RoundTrip/Parameters.antt =====
-- The obfuscation parameters of a configuration are read back from the lines that String writes.
use lotsman.Prelude.{
  ℕ, ◌^◌, ◌<◌, ◌≤◌, ◌≡◌, refl, sym, ap, ◌∙◌, Bool, true, false, not, some, List, [], ◌∷◌, nat_eq,
  arith, String,
}
use mathlib.Core.Bool.{false≢true}
use lotsman.Bytes.{Text, codes, lower, number, decimal}
use lotsman.Bytes.Decimal.{number-decimal}
use lotsman.Awgconf.{Range, Params, Interface, Peer, Codec, zero_params, zero_range, is_zero_range}
use lotsman.Awgconf.Parse.{put, set_interface}
use lotsman.Awgconf.Scan.{State}
use lotsman.Awgconf.Values.{parse_range, print_range}
use lotsman.Awgconf.Values.RoundTrip.{IsRange, parse_range-print_range}
use lotsman.Awgconf.Print.{
  line_if, is_empty, has_junk, junk_lines, padding_lines, header_lines, signature_lines,
  params_lines,
}
use lotsman.Awgconf.Lines.{IsPlain, is_word}
use lotsman.Awgconf.RoundTrip.{Runs, ◌then_runs◌}
use lotsman.Awgconf.RoundTrip.Plain.{decimal-IsPlain, print_range-IsPlain}
use lotsman.Awgconf.RoundTrip.Sections.{at_interface, interface_field}

-- A signature is left out, or can stand on a line.
abbrev pub IsText : Text → Type 0
IsText [] = Unit
IsText (b ∷ bs) = IsPlain (b ∷ bs)

-- The parameters within the fields' sizes.
abbrev pub IsParams : Params → Type 0
IsParams p =
    ((p.jc < 2 ^ 32) × (p.jmin < 2 ^ 32) × (p.jmax < 2 ^ 32))
    × ((p.s1 < 2 ^ 16) × (p.s2 < 2 ^ 16) × (p.s3 < 2 ^ 16) × (p.s4 < 2 ^ 16))
    × (IsRange p.h1 × IsRange p.h2 × IsRange p.h3 × IsRange p.h4)
    × (IsText p.i1 × IsText p.i2 × IsText p.i3 × IsText p.i4 × IsText p.i5)

zero_range_lem : (r : Range) → not (is_zero_range r) ≡ false → zero_range ≡ r
zero_range_lem r h =
    let a : 0 ≡ r.lo = ground (arith, h) in
    let b : 0 ≡ r.hi = ground (arith, h) in
    ap (λ n. record zero_range { lo = n }) a ∙ ap (λ n. record r { hi = n }) b

module _ (codec : Codec) (ps : List Peer) where
  number_field :
      (b : Bool) (k : String) (bound n : ℕ) (f : ℕ → Interface)
      → is_word (codes k) ≡ true
      → set_interface codec (lower (codes k)) (decimal n) (f 0) ≡ put (number bound (decimal n)) f
      → n < bound
      → bound ≤ 2 ^ 64
      → (b ≡ false → 0 ≡ n)
      → Runs codec
          (line_if b k (decimal n))
          (at_interface codec ps (f 0))
          (at_interface codec ps (f n))
  number_field b k bound n f w s h m g =
      interface_field codec ps b k (decimal n) (number bound (decimal n)) f 0 n w s
        (λ e. (decimal-IsPlain n, number-decimal bound n h m)) g

  range_field :
      (k : String) (r : Range) (f : Range → Interface)
      → is_word (codes k) ≡ true
      → set_interface codec (lower (codes k)) (print_range r) (f zero_range)
        ≡ put (parse_range (print_range r)) f
      → IsRange r
      → Runs codec
          (line_if (not (is_zero_range r)) k (print_range r))
          (at_interface codec ps (f zero_range))
          (at_interface codec ps (f r))
  range_field k r f w s h =
      interface_field codec ps (not (is_zero_range r)) k (print_range r)
        (parse_range (print_range r)) f zero_range r w s
        (λ e. (print_range-IsPlain r, parse_range-print_range r h)) (zero_range_lem r)

  text_field :
      (k : String) (t : Text) (f : Text → Interface)
      → is_word (codes k) ≡ true
      → set_interface codec (lower (codes k)) t (f []) ≡ put (some t) f
      → IsText t
      → Runs codec
          (line_if (not (is_empty t)) k t)
          (at_interface codec ps (f []))
          (at_interface codec ps (f t))
  text_field k [] f w s h =
      interface_field codec ps false k [] (some []) f [] [] w s (λ e. absurd (false≢true e))
        (λ e. refl)
  text_field k (b ∷ bs) f w s h =
      interface_field codec ps true k (b ∷ bs) (some (b ∷ bs)) f [] (b ∷ bs) w s (λ e. (h, refl))
        (λ e. absurd (false≢true (sym e)))

  module _ (i : Interface) where
    abbrev pub at : Params → State
    at p = at_interface codec ps (record i { params = p })

    has_junk-false : (p : Params) → has_junk p ≡ false → (0 ≡ p.jc) × (0 ≡ p.jmin) × (0 ≡ p.jmax)
    has_junk-false p h = (ground (arith, h), ground (arith, h), ground (arith, h))

    abbrev with_junk : Params → Params
    with_junk p = record zero_params { jc = p.jc; jmin = p.jmin; jmax = p.jmax }

    junk-Runs :
        (p : Params) → IsParams p → Runs codec (junk_lines p) (at zero_params) (at (with_junk p))
    unfolding junk_lines set_interface lower
    junk-Runs p h =
        let (hc, hn, hx) = h.0 in
        let q0 = zero_params in
        let q1 = record q0 { jc = p.jc } in
        let q2 = record q1 { jmin = p.jmin } in
        number_field (has_junk p) "Jc" (2 ^ 32) p.jc
          (λ n. record i { params = record q0 { jc = n } }) refl refl hc (omega arith)
          (λ e. (has_junk-false p e).0)
        then_runs number_field (has_junk p) "Jmin" (2 ^ 32) p.jmin
            (λ n. record i { params = record q1 { jmin = n } }) refl refl hn (omega arith)
            (λ e. (has_junk-false p e).1)
        then_runs number_field (has_junk p) "Jmax" (2 ^ 32) p.jmax
            (λ n. record i { params = record q2 { jmax = n } }) refl refl hx (omega arith)
            (λ e. (has_junk-false p e).2)

    abbrev with_padding : Params → Params
    with_padding p = record (with_junk p) { s1 = p.s1; s2 = p.s2; s3 = p.s3; s4 = p.s4 }

    -- The lines of S1 to S4 are always there.
    padding_field :
        (k : String) (n : ℕ) (f : ℕ → Interface)
        → is_word (codes k) ≡ true
        → set_interface codec (lower (codes k)) (decimal n) (f 0)
          ≡ put (number (2 ^ 16) (decimal n)) f
        → n < 2 ^ 16
        → Runs codec
            (line_if true k (decimal n))
            (at_interface codec ps (f 0))
            (at_interface codec ps (f n))
    padding_field k n f w s h =
        number_field true k (2 ^ 16) n f w s h (omega arith) (λ e. absurd (false≢true (sym e)))

    padding-Runs :
        (p : Params)
        → IsParams p
        → Runs codec (padding_lines p) (at (with_junk p)) (at (with_padding p))
    unfolding padding_lines set_interface lower
    padding-Runs p h =
        let (k1, k2, k3, k4) = h.1 in
        let q0 = with_junk p in
        let q1 = record q0 { s1 = p.s1 } in
        let q2 = record q1 { s2 = p.s2 } in
        let q3 = record q2 { s3 = p.s3 } in
        padding_field "S1" p.s1 (λ n. record i { params = record q0 { s1 = n } }) refl refl k1
        then_runs padding_field "S2" p.s2 (λ n. record i { params = record q1 { s2 = n } }) refl
            refl k2
        then_runs padding_field "S3" p.s3 (λ n. record i { params = record q2 { s3 = n } }) refl
            refl k3
        then_runs padding_field "S4" p.s4 (λ n. record i { params = record q3 { s4 = n } }) refl
            refl k4

    abbrev with_headers : Params → Params
    with_headers p = record (with_padding p) { h1 = p.h1; h2 = p.h2; h3 = p.h3; h4 = p.h4 }

    header-Runs :
        (p : Params)
        → IsParams p
        → Runs codec (header_lines p) (at (with_padding p)) (at (with_headers p))
    unfolding header_lines set_interface lower
    header-Runs p h =
        let (k1, k2, k3, k4) = h.2 in
        let q0 = with_padding p in
        let q1 = record q0 { h1 = p.h1 } in
        let q2 = record q1 { h2 = p.h2 } in
        let q3 = record q2 { h3 = p.h3 } in
        range_field "H1" p.h1 (λ r. record i { params = record q0 { h1 = r } }) refl refl k1
        then_runs range_field "H2" p.h2 (λ r. record i { params = record q1 { h2 = r } }) refl refl
            k2
        then_runs range_field "H3" p.h3 (λ r. record i { params = record q2 { h3 = r } }) refl refl
            k3
        then_runs range_field "H4" p.h4 (λ r. record i { params = record q3 { h4 = r } }) refl refl
            k4

    signature-Runs :
        (p : Params) → IsParams p → Runs codec (signature_lines p) (at (with_headers p)) (at p)
    unfolding signature_lines set_interface lower
    signature-Runs p h =
        let (k1, k2, k3, k4, k5) = h.3 in
        let q0 = with_headers p in
        let q1 = record q0 { i1 = p.i1 } in
        let q2 = record q1 { i2 = p.i2 } in
        let q3 = record q2 { i3 = p.i3 } in
        let q4 = record q3 { i4 = p.i4 } in
        text_field "I1" p.i1 (λ t. record i { params = record q0 { i1 = t } }) refl refl k1
        then_runs text_field "I2" p.i2 (λ t. record i { params = record q1 { i2 = t } }) refl refl
            k2
        then_runs text_field "I3" p.i3 (λ t. record i { params = record q2 { i3 = t } }) refl refl
            k3
        then_runs text_field "I4" p.i4 (λ t. record i { params = record q3 { i4 = t } }) refl refl
            k4
        then_runs text_field "I5" p.i5 (λ t. record i { params = record q4 { i5 = t } }) refl refl
            k5

    pub params-Runs :
        (p : Params) → IsParams p → Runs codec (params_lines p) (at zero_params) (at p)
    unfolding params_lines
    params-Runs p h =
        junk-Runs p h
        then_runs padding-Runs p h
        then_runs header-Runs p h
        then_runs signature-Runs p h
