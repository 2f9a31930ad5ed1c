-- ===== src/Bytes.antt =====
-- Go's texts as lists of bytes, and what the code uses of `strings` and `strconv` on them. Spaces are
-- ASCII, letters too.
pub mod Decimal
pub mod Trim
pub mod Cut
use Prim.Native.Char.{code}
use Prim.Native.String.{String}
use lotsman.Prelude.{
  ℕ, ◌+◌, ◌-◌, ◌*◌, ◌/◌, ◌%◌, ◌^◌, zero, suc, Bool, true, false, ◌&&◌, ◌||◌, Option, none, some,
  List, [], ◌∷◌, ◌++◌, ltb, leb, ◌==◌, nat_eq, if◌then◌else◌, ℤ, pos, negsuc,
}

abbrev pub Text : Type 0
Text = List ℕ

-- The bytes of an ASCII literal.
abbrev pub codes : String → Text
codes String.[] = []
codes (String.◌∷◌ c s) = code c ∷ codes s

abbrev pub same_text : Text → Text → Bool
same_text [] [] = true
same_text (a ∷ xs) (b ∷ ys) = (a == b) && same_text xs ys
same_text _ _ = false

abbrev pub is_space : ℕ → Bool
is_space b = (b == 32) || (leb 9 b && leb b 13)

abbrev pub is_digit : ℕ → Bool
is_digit b = leb b'0' b && leb b b'9'

-- strings.TrimSpace
unfoldable pub trim_left : Text → Text
trim_left [] = []
trim_left (b ∷ bs) = let rest = trim_left bs in if is_space b then rest else b ∷ bs

unfoldable pub trim_right : Text → Text
trim_right [] = []
trim_right (b ∷ bs) = elim (trim_right bs) [
  | [] ↦ if is_space b then [] else b ∷ []
  | c ∷ cs ↦ b ∷ c ∷ cs
]

unfoldable pub trim : Text → Text
unfolding trim_left trim_right
trim t = trim_right (trim_left t)

-- strings.ToLower
abbrev pub lower_byte : ℕ → ℕ
lower_byte b = if leb b'A' b && leb b b'Z' then b + 32 else b

unfoldable pub lower : Text → Text
lower [] = []
lower (b ∷ bs) = lower_byte b ∷ lower bs

-- The text before and after the first byte `c`: strings.Cut, or IndexByte and the two slices.
unfoldable pub cut : ℕ → Text → Option (Text × Text)
cut c [] = none
cut c (b ∷ bs) =
    let rest = cut c bs in
    if b == c then some ([], bs) else elim rest [ none ↦ none | some (l, r) ↦ some (b ∷ l, r) ]

-- strings.Split by one byte: at least one part. `first_part` and `more_parts` put a byte in front.
abbrev pub onto_first : ℕ → List Text → List Text
onto_first b [] = (b ∷ []) ∷ []
onto_first b (t ∷ ts) = (b ∷ t) ∷ ts

unfoldable pub split : ℕ → Text → List Text
split c [] = [] ∷ []
split c (b ∷ bs) = let rest = split c bs in if b == c then [] ∷ rest else onto_first b rest

-- strings.Join
unfoldable pub join : Text → List Text → Text
join sep [] = []
join sep (t ∷ []) = t
join sep (t ∷ u ∷ ts) = t ++ (sep ++ join sep (u ∷ ts))

unfoldable pub digits : ℕ → Text → Option ℕ
digits n [] = some n
digits n (b ∷ bs) = let rest = digits (10 * n + (b - b'0')) bs in if is_digit b then rest else none

-- A number of one digit or more, below the bound: ParseUint in base 10.
unfoldable pub number : ℕ → Text → Option ℕ
unfolding digits
number bound [] = none
number bound (b ∷ bs) = elim (digits 0 (b ∷ bs)) [
  | none ↦ none
  | some n ↦ if ltb n bound then some n else none
]

abbrev pub negate : ℕ → ℤ
negate zero = pos 0
negate (suc n) = negsuc n

-- strconv.Atoi, on a 64-bit int.
unfoldable pub atoi : Text → Option ℤ
unfolding number
atoi [] = none
atoi (b ∷ bs) =
    if b == b'-'
    then elim (number (2 ^ 63 + 1) bs) [ none ↦ none | some n ↦ some (negate n) ]
    else elim (number (2 ^ 63) (if b == b'+' then bs else b ∷ bs)) [
      | none ↦ none
      | some n ↦ some (pos n)
    ]

-- FormatUint in base 10. A number below 2 ^ 64 has at most twenty digits.
unfoldable pub emit : ℕ → ℕ → Text → Text
emit zero n out = out
emit (suc fuel) n out =
    let more = emit fuel (n / 10) ((b'0' + n % 10) ∷ out) in
    if ltb n 10 then (b'0' + n) ∷ out else more

unfoldable pub decimal : ℕ → Text
unfolding emit
decimal n = emit 20 n []

unfoldable pub integer : ℤ → Text
unfolding decimal
integer (pos n) = decimal n
integer (negsuc n) = b'-' ∷ decimal (n + 1)
