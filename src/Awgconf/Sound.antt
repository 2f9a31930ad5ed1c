-- ===== src/Awgconf/Sound.antt =====
-- What a configuration that Parse of internal/awgconf/config.go returns is sure to have.
pub mod Checks
pub mod Loop
use lotsman.Prelude.{
  String, ℕ, ◌+◌, ◌*◌, ◌-◌, ◌^◌, ◌<◌, ◌≤◌, ◌≡◌, ◌≢◌, refl, sym, ap, subst, ◌∙◌, ◌↔◌, Bool, true,
  false, not, ◌&&◌, Option, none, some, List, [], ◌∷◌, ◌++◌, ◌==◌, nat_eq, arith, All, All-append,
  length, ltb, zero, suc, if◌then◌else◌, Bool-cases, ◌⊎◌, inl, inr, ℤ, pos, negsuc,
}
use lotsman.Bytes.{Text, codes, same_text, digits, number, atoi, negate, cut, trim}
use lotsman.Bytes.Decimal.{IsInt64}
use lotsman.Awgconf.{
  Range, Params, Interface, Peer, Config, Codec, Key, zero_interface, zero_peer, zeros,
}
use lotsman.Awgconf.Parse.{
  Result, ok, err, KeyError, unsupported, put, put_param, ignored_key, set_interface, set_peer,
  Line, blank, malformed, header, entry, lines, read_line,
}
use lotsman.Awgconf.Scan.{
  State, Section, outside, in_interface, in_peer, run, start, accept, parse, step, open_section,
  on_last, set_key,
}
use lotsman.Awgconf.Accept.{refused}
use lotsman.Awgconf.Values.{bounds, parse_range, parse_key, sized_key, parse_list, parse_prefix}
use lotsman.Awgconf.Values.RoundTrip.{IsRange}

-- A result is an error, or its value has the property; the same for an option.
abbrev pub AtOk : {E A : Type 0} → (A → Type 0) → Result E A → Type 0
AtOk P (err e) = Unit
AtOk P (ok a) = P a

pub record Holds {E A : Type 0} (P : A → Type 0) (r : Result E A) : Type 0 where
  pub holds : AtOk P r

abbrev pub Meets : {A : Type 0} → (A → Type 0) → Option A → Type 0
Meets P none = Unit
Meets P (some a) = P a

pub number-Meets : (bound : ℕ) (t : Text) → Meets (λ n. n < bound) (number bound t)
unfolding number
number-Meets bound [] = tt
number-Meets bound (b ∷ bs) = ground arith

-- The fields are within their types' sizes, and the header ranges are in order.
abbrev pub IsSized : Params → Type 0
IsSized p =
    ((p.jc < 2 ^ 32) × (p.jmin < 2 ^ 32) × (p.jmax < 2 ^ 32))
    × ((p.s1 < 2 ^ 16) × (p.s2 < 2 ^ 16) × (p.s3 < 2 ^ 16) × (p.s4 < 2 ^ 16))
    × (IsRange p.h1 × IsRange p.h2 × IsRange p.h3 × IsRange p.h4)

abbrev pub IsSizedInterface : Interface → Type 0
IsSizedInterface i =
    (length i.private_key ≡ 32) × (i.listen_port < 2 ^ 16) × IsInt64 i.mtu × IsSized i.params

abbrev pub IsSizedPeer : Peer → Type 0
IsSizedPeer p =
    (length p.public_key ≡ 32) × (length p.preshared_key ≡ 32) × (p.persistent_keepalive < 2 ^ 32)

parse_range-Meets : (t : Text) → Meets IsRange (parse_range t)
unfolding parse_range
parse_range-Meets t =
    both (number (2 ^ 32) (trim (bounds t).0)) (number (2 ^ 32) (trim (bounds t).1))
      (number-Meets (2 ^ 32) (trim (bounds t).1))
  where
    both :
        (o p : Option ℕ)
        → Meets (λ n. n < 2 ^ 32) p
        → Meets IsRange (elim o [
          | none ↦ none
          | some l ↦ elim p [
            | none ↦ none
            | some h ↦ if ltb h l then none else some (record { lo = l; hi = h })
          ]
        ])
    both none p m = tt
    both (some l) none m = tt
    both (some l) (some h) m = ordered (Bool-cases (ltb h l))
      where
        ordered :
            (ltb h l ≡ true) ⊎ (ltb h l ≡ false)
            → Meets IsRange (if ltb h l then none else some (record { lo = l; hi = h }))
        ordered (inl e) = rw e tt
        ordered (inr e) = rw e (ground (arith, e), m)

pub key-Meets : (codec : Codec) (t : Text) → Meets (λ (k : Key). length k ≡ 32) (parse_key codec t)
unfolding parse_key
key-Meets codec t = sized (codec.decode_key t)
  where
    sized : (o : Option (List ℕ)) → Meets (λ (k : Key). length k ≡ 32) (sized_key o)
    sized none = tt
    sized (some bs) = pick (Bool-cases (length bs == 32))
      where
        pick :
            (length bs == 32 ≡ true) ⊎ (length bs == 32 ≡ false)
            → Meets (λ (k : Key). length k ≡ 32) (sized_key (some bs))
        pick (inl e) = rw (e, sized_key) (ground (arith, e))
        pick (inr e) = rw (e, sized_key) tt

atoi-Meets : (t : Text) → Meets IsInt64 (atoi t)
unfolding atoi
atoi-Meets [] = tt
atoi-Meets (b ∷ bs) = pick (Bool-cases (b == b'-'))
  where
    minus :
        (o : Option ℕ)
        → Meets (λ n. n < 2 ^ 63 + 1) o
        → Meets IsInt64 (elim o [ none ↦ none | some n ↦ some (negate n) ])
    minus none m = tt
    minus (some zero) m = omega arith
    minus (some (suc n)) m = omega (arith, m)

    plus :
        (o : Option ℕ)
        → Meets (λ n. n < 2 ^ 63) o
        → Meets IsInt64 (elim o [ none ↦ none | some n ↦ some (pos n) ])
    plus none m = tt
    plus (some n) m = m

    pick : (b == b'-' ≡ true) ⊎ (b == b'-' ≡ false) → Meets IsInt64 (atoi (b ∷ bs))
    pick (inl e) = rw (e, atoi) (minus (number (2 ^ 63 + 1) bs) (number-Meets (2 ^ 63 + 1) bs))
    pick (inr e) =
        rw (e, atoi)
          (plus (number (2 ^ 63) (if b == b'+' then bs else b ∷ bs))
            (number-Meets (2 ^ 63) (if b == b'+' then bs else b ∷ bs)))

module _ {E B : Type 0} {P : B → Type 0} where
  pub err-Holds : (e : E) → Holds P (err e)
  err-Holds e = record { holds = tt }

  pub ok-Holds : (b : B) → P b → Holds {E = E} P (ok b)
  ok-Holds b h = record { holds = h }

  pub if-Holds :
      (b : Bool) {r s : Result E B} → Holds P r → Holds P s → Holds P (if b then r else s)
  if-Holds true h k = h
  if-Holds false h k = k

module _ {A B : Type 0} {P : B → Type 0} where
  pub put-Holds :
      (Q : A → Type 0) (o : Option A) (f : A → B)
      → Meets Q o
      → ((x : A) → Q x → P (f x))
      → Holds P (put o f)
  unfolding put
  put-Holds Q none f m g = record { holds = tt }
  put-Holds Q (some x) f m g = record { holds = g x m }

pub any_Meets : {A : Type 0} (o : Option A) → Meets (λ a. Unit) o
any_Meets none = tt
any_Meets (some a) = tt

module _ (codec : Codec) (key value : Text) (i : Interface) (h : IsSizedInterface i) where
  -- A number put into a parameter.
  param_Holds :
      (bound : ℕ) (f : ℕ → Params)
      → ((n : ℕ) → n < bound → IsSized (f n))
      → Holds IsSizedInterface (put_param (number bound value) f i)
  param_Holds bound f g =
      put-Holds (λ n. n < bound) (number bound value) (λ n. record i { params = f n })
        (number-Meets bound value) (λ n k. (h.0, h.1, h.2, g n k))

  range_Holds :
      (f : Range → Params)
      → ((r : Range) → IsRange r → IsSized (f r))
      → Holds IsSizedInterface (put_param (parse_range value) f i)
  range_Holds f g =
      put-Holds IsRange (parse_range value) (λ n. record i { params = f n })
        (parse_range-Meets value) (λ n k. (h.0, h.1, h.2, g n k))

  when :
      (name : String) {r s : Result KeyError Interface}
      → Holds IsSizedInterface r
      → Holds IsSizedInterface s
      → Holds IsSizedInterface (if same_text key (codes name) then r else s)
  when name = if-Holds (same_text key (codes name))

  pub set_interface-Holds : Holds IsSizedInterface (set_interface codec key value i)
  unfolding set_interface
  set_interface-Holds =
      let ((jc, jn, jx), (s1, s2, s3, s4), (h1, h2, h3, h4)) = h.3 in
      when "privatekey"
        (put-Holds _ (parse_key codec value) (λ k. record i { private_key = k })
          (key-Meets codec value) (λ k n. (n, h.1, h.2, h.3)))
        (when "address"
          (put-Holds (λ a. Unit) (parse_list (parse_prefix codec) value)
            (λ as'. record i { addresses = as' }) (any_Meets _) (λ k n. h))
          (when "dns"
            (put-Holds (λ a. Unit) (parse_list codec.parse_addr value)
              (λ as'. record i { dns = as' }) (any_Meets _) (λ k n. h))
            (when "listenport"
              (put-Holds _ (number (2 ^ 16) value) (λ n. record i { listen_port = n })
                (number-Meets (2 ^ 16) value) (λ n k. (h.0, k, h.2, h.3)))
              (when "mtu"
                (put-Holds _ (atoi value) (λ n. record i { mtu = n }) (atoi-Meets value)
                  (λ n k. (h.0, h.1, k, h.3)))
                (when "jc"
                  (param_Holds (2 ^ 32) (λ n. record i.params { jc = n })
                    (λ n k. ((k, jn, jx), h.3.1, h.3.2)))
                  (when "jmin"
                    (param_Holds (2 ^ 32) (λ n. record i.params { jmin = n })
                      (λ n k. ((jc, k, jx), h.3.1, h.3.2)))
                    (when "jmax"
                      (param_Holds (2 ^ 32) (λ n. record i.params { jmax = n })
                        (λ n k. ((jc, jn, k), h.3.1, h.3.2)))
                      (when "s1"
                        (param_Holds (2 ^ 16) (λ n. record i.params { s1 = n })
                          (λ n k. (h.3.0, (k, s2, s3, s4), h.3.2)))
                        (when "s2"
                          (param_Holds (2 ^ 16) (λ n. record i.params { s2 = n })
                            (λ n k. (h.3.0, (s1, k, s3, s4), h.3.2)))
                          (when "s3"
                            (param_Holds (2 ^ 16) (λ n. record i.params { s3 = n })
                              (λ n k. (h.3.0, (s1, s2, k, s4), h.3.2)))
                            (when "s4"
                              (param_Holds (2 ^ 16) (λ n. record i.params { s4 = n })
                                (λ n k. (h.3.0, (s1, s2, s3, k), h.3.2)))
                              (when "h1"
                                (range_Holds (λ r. record i.params { h1 = r })
                                  (λ r k. (h.3.0, h.3.1, (k, h2, h3, h4))))
                                (when "h2"
                                  (range_Holds (λ r. record i.params { h2 = r })
                                    (λ r k. (h.3.0, h.3.1, (h1, k, h3, h4))))
                                  (when "h3"
                                    (range_Holds (λ r. record i.params { h3 = r })
                                      (λ r k. (h.3.0, h.3.1, (h1, h2, k, h4))))
                                    (when "h4"
                                      (range_Holds (λ r. record i.params { h4 = r })
                                        (λ r k. (h.3.0, h.3.1, (h1, h2, h3, k))))
                                      (when "i1"
                                        (ok-Holds
                                          (record i { params = record i.params { i1 = value } }) h)
                                        (when "i2"
                                          (ok-Holds
                                            (record i { params = record i.params { i2 = value } })
                                            h)
                                          (when "i3"
                                            (ok-Holds
                                              (record i { params = record i.params { i3 = value } })
                                              h)
                                            (when "i4"
                                              (ok-Holds
                                                (record i {
                                                  params = record i.params { i4 = value };
                                                })
                                                h)
                                              (when "i5"
                                                (ok-Holds
                                                  (record i {
                                                    params = record i.params { i5 = value };
                                                  })
                                                  h)
                                                (if-Holds (ignored_key key) (ok-Holds i h)
                                                  (err-Holds unsupported))))))))))))))))))))))
