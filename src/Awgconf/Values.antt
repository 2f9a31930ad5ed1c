-- ===== src/Awgconf/Values.antt =====
-- The values of internal/awgconf/config.go, params.go and key.go: ParseRange, ParseKey, the hex form,
-- lists and prefixes, each with its print.

pub mod RoundTrip
use lotsman.Prelude.{
  ℕ, ◌+◌, ◌-◌, ◌*◌, ◌/◌, ◌%◌, ◌^◌, Bool, true, false, ◌&&◌, ◌||◌, Option, none, some, List, [], ◌∷◌,
  ◌++◌, map, length, ltb, leb, ◌==◌, nat_eq, if◌then◌else◌,
}
use lotsman.Bytes.{Text, trim, cut, split, join, number, decimal, is_digit}
use lotsman.Awgconf.{Range, Key, IpAddr, IpPrefix, Codec}

abbrev pub bounds : Text → Text × Text
bounds s = elim (cut b'-' s) [ none ↦ (s, s) | some p ↦ p ]

unfoldable pub parse_range : Text → Option Range
unfolding cut trim number
parse_range s =
    let (lo, hi) = bounds s in
    elim (number (2 ^ 32) (trim lo)) [
      | none ↦ none
      | some l ↦ elim (number (2 ^ 32) (trim hi)) [
        | none ↦ none
        | some h ↦ if ltb h l then none else some (record { lo = l; hi = h })
      ]
    ]

unfoldable pub print_range : Range → Text
unfolding decimal
print_range r = if r.lo == r.hi then decimal r.lo else decimal r.lo ++ b'-' ∷ decimal r.hi

-- ParseKey, and ParseHexKey below, after the decoding.
abbrev pub sized_key : Option (List ℕ) → Option Key
sized_key none = none
sized_key (some bs) = if length bs == 32 then some bs else none

unfoldable pub parse_key : Codec → Text → Option Key
parse_key codec s = sized_key (codec.decode_key s)

-- hex.EncodeToString
abbrev hex_digit : ℕ → ℕ
hex_digit d = if ltb d 10 then b'0' + d else b'a' + (d - 10)

unfoldable pub hex : Key → Text
hex [] = []
hex (b ∷ bs) = hex_digit (b / 16) ∷ hex_digit (b % 16) ∷ hex bs

-- hex.DecodeString
abbrev hex_value : ℕ → Option ℕ
hex_value c =
    if is_digit c
    then some (c - b'0')
    else if leb b'a' c && leb c b'f'
    then some (c - b'a' + 10)
    else if leb b'A' c && leb c b'F'
    then some (c - b'A' + 10)
    else none

abbrev hex_byte : Option ℕ → Option ℕ → Option (List ℕ) → Option (List ℕ)
hex_byte (some h) (some l) (some bs) = some ((16 * h + l) ∷ bs)
hex_byte _ _ _ = none

unfoldable pub unhex : Text → Option (List ℕ)
unhex [] = some []
unhex (c ∷ []) = none
unhex (c ∷ d ∷ s) = hex_byte (hex_value c) (hex_value d) (unhex s)

unfoldable pub parse_hex_key : Text → Option Key
unfolding unhex
parse_hex_key s = sized_key (unhex s)

-- The loop of parseList: the first item that is refused ends it.
unfoldable pub parse_items : {A : Type 0} → (Text → Option A) → List Text → Option (List A)
unfolding trim
parse_items parse [] = some []
parse_items parse (item ∷ items) = elim (parse (trim item)) [
  | none ↦ none
  | some v ↦ elim (parse_items parse items) [ none ↦ none | some vs ↦ some (v ∷ vs) ]
]

unfoldable pub parse_list : {A : Type 0} → (Text → Option A) → Text → Option (List A)
unfolding split parse_items
parse_list parse s = parse_items parse (split b',' s)

unfoldable pub join_list : {A : Type 0} → (A → Text) → List A → Text
unfolding join
join_list print items = join (b',' ∷ b' ' ∷ []) (map print items)

-- A bare address is its own prefix.
abbrev host_prefix : IpAddr → IpPrefix
host_prefix a = record { addr = a; bits = if a.is4 then 32 else 128 }

unfoldable pub parse_prefix : Codec → Text → Option IpPrefix
parse_prefix codec s = elim (codec.parse_prefix s) [
  | some p ↦ some p
  | none ↦ elim (codec.parse_addr s) [ none ↦ none | some a ↦ some (host_prefix a) ]
]
