-- ===== src/Wire.antt =====
-- internal/awgconf/wire.go: the sizes of the packets that an AmneziaWG configuration asks for. A
-- signature is the list of its bytes, in ASCII; `payload_max` is a Go int, never negative here.
pub mod Bounds
pub mod Fuel
pub mod Tests
use lotsman.Bytes.{Text, cut, is_space, is_digit, atoi, same_text}
use lotsman.Prelude.{
  ℕ, ◌+◌, ◌-◌, ◌*◌, ◌/◌, ◌%◌, ◌^◌, zero, suc, Bool, true, false, not, ◌&&◌, ◌||◌, Option, none,
  some, List, [], ◌∷◌, length, ltb, leb, ◌==◌, nat_eq, if◌then◌else◌, ℤ, pos, negsuc,
}

abbrev pub initiation_size : ℕ
initiation_size = 148

abbrev pub response_size : ℕ
response_size = 92

abbrev pub cookie_reply_size : ℕ
cookie_reply_size = 64

-- The fields of awgconf.Params that the check reads: S1 to S3 and the signatures I1 to I5.
pub record Params : Type 0 where
  pub s1 : ℕ
  pub s2 : ℕ
  pub s3 : ℕ
  pub i : List Text

pub data Oversized : Type 0 where
  padding : ℕ → Oversized
  negative_tag packet : Oversized

-- strings.Fields; `word` is what the current word has so far.
unfoldable fields_from : Text → Text → List Text
fields_from [] [] = []
fields_from (c ∷ word) [] = (c ∷ word) ∷ []
fields_from [] (b ∷ bs) = if is_space b then fields_from [] bs else fields_from (b ∷ []) bs
fields_from (c ∷ word) (b ∷ bs) =
    if is_space b then (c ∷ word) ∷ fields_from [] bs else fields_from (c ∷ append_byte word b) bs
  where
    append_byte : Text → ℕ → Text
    append_byte [] b = b ∷ []
    append_byte (c ∷ cs) b = c ∷ append_byte cs b

unfoldable pub fields : Text → List Text
unfolding fields_from
fields bs = fields_from [] bs

abbrev is_hex : ℕ → Bool
is_hex b = is_digit b || (leb b'a' b && leb b b'f') || (leb b'A' b && leb b b'F')

unfoldable all_hex : Text → Bool
all_hex [] = true
all_hex (b ∷ bs) = is_hex b && all_hex bs

-- strings.TrimPrefix(val, "0x")
abbrev trim_0x : Text → Text
trim_0x (a ∷ b ∷ bs) = if (a == b'0') && (b == b'x') then bs else a ∷ b ∷ bs
trim_0x bs = bs

-- The length of what hex.DecodeString makes of the text.
unfoldable hex_length : Text → Option ℕ
unfolding all_hex
hex_length bs = if (length bs % 2 == 0) && all_hex bs then some (length bs / 2) else none

-- The size of a tag from its name and its value; `none` where the runtime refuses the chain.
unfoldable tag_size : Text → Text → Option ℤ
unfolding hex_length atoi
tag_size name val =
    if same_text name (b't' ∷ [])
    then some (pos 4)
    else if same_text name (b'd' ∷ []) || same_text name (b'd' ∷ b's' ∷ [])
    then some (pos 0)
    else if same_text name (b'b' ∷ [])
    then elim (hex_length (trim_0x val)) [
      | none ↦ none
      | some n ↦ if n == 0 then none else some (pos n)
    ]
    else if same_text name (b'r' ∷ [])
        || same_text name (b'r' ∷ b'c' ∷ [])
        || same_text name (b'r' ∷ b'd' ∷ [])
        || same_text name (b'd' ∷ b'z' ∷ [])
    then atoi val
    else none

abbrev size_of_fields : List Text → Option ℤ
size_of_fields [] = none
size_of_fields (name ∷ []) = tag_size name []
size_of_fields (name ∷ val ∷ more) = tag_size name val

-- The loop over the tags; a round drops two bytes at least, so the length of the text is fuel
-- enough. `none` where a `return nil` ends the check.
unfoldable pub tag_sizes : ℕ → Text → Option (List ℤ)
unfolding cut fields tag_size
tag_sizes zero spec = some []
tag_sizes (suc fuel) spec = elim (cut b'<' spec) [
  | none ↦ some []
  | some (_, opened) ↦ elim (cut b'>' opened) [
    | none ↦ none
    | some (tag, rest) ↦ elim (size_of_fields (fields tag)) [
      | none ↦ none
      | some n ↦ elim (tag_sizes fuel rest) [ none ↦ none | some ns ↦ some (n ∷ ns) ]
    ]
  ]
]

-- Each size against the room that is left: `total` never exceeds `payload_max`.
unfoldable pub check_sizes : ℕ → ℕ → List ℤ → Option Oversized
check_sizes payload_max total [] = none
check_sizes payload_max total (negsuc n ∷ ns) = some negative_tag
check_sizes payload_max total (pos n ∷ ns) =
    let rest = check_sizes payload_max (total + n) ns in
    if ltb (payload_max - total) n then some packet else rest

unfoldable pub check_signature : Text → ℕ → Option Oversized
unfolding tag_sizes check_sizes
check_signature spec payload_max = elim (tag_sizes (length spec) spec) [
  | none ↦ none
  | some sizes ↦ check_sizes payload_max 0 sizes
]

unfoldable pub check_signatures : List Text → ℕ → Option Oversized
unfolding check_signature
check_signatures [] payload_max = none
check_signatures (spec ∷ specs) payload_max = elim (check_signature spec payload_max) [
  | some e ↦ some e
  | none ↦ check_signatures specs payload_max
]

-- The loop over S1 to S3, written out.
unfoldable pub check_wire_sizes : Params → ℕ → Option Oversized
unfolding check_signatures
check_wire_sizes p payload_max =
    if ltb payload_max (p.s1 + initiation_size)
    then some (padding 1)
    else if ltb payload_max (p.s2 + response_size)
    then some (padding 2)
    else if ltb payload_max (p.s3 + cookie_reply_size)
    then some (padding 3)
    else check_signatures p.i payload_max
