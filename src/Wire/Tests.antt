-- ===== src/Wire/Tests.antt =====
-- Runs of CheckWireSizes, and its theorem at a concrete input.
use lotsman.Prelude.{◌+◌, ◌≤◌, ◌≡◌, refl, ◌↔◌, none, some, [], ◌∷◌, ◌++◌, All}
use native.Mathlib.Omega.{arith}
use lotsman.Bytes.{Text}
use lotsman.Wire.{
  tag_sizes, Params, packet, negative_tag, check_signature, check_wire_sizes, initiation_size,
  response_size, cookie_reply_size,
}
use lotsman.Wire.Fuel.{tag_sizes_enough}
use lotsman.Wire.Bounds.{IsBounded, check_wire_sizes_iff}

-- <r 90>, and <r -1>
abbrev random : Text
random = b'<' ∷ b'r' ∷ b' ' ∷ b'9' ∷ b'0' ∷ b'>' ∷ []

abbrev negative : Text
negative = b'<' ∷ b'r' ∷ b' ' ∷ b'-' ∷ b'1' ∷ b'>' ∷ []

fits_run : check_signature (random ++ random) 180 ≡ none
unfolding check_signature
fits_run = refl

exceeds_run : check_signature (random ++ random) 179 ≡ some packet
unfolding check_signature
exceeds_run = refl

negative_run : check_signature negative 1000 ≡ some negative_tag
unfolding check_signature
negative_run = refl

abbrev padded : Params
padded = record { s1 = 20; s2 = 30; s3 = 0; i = random ∷ [] }

check_wire_sizes_iff_example : (check_wire_sizes padded 168 ≡ none) ↔ (
    (20 + initiation_size ≤ 168)
    × (30 + response_size ≤ 168)
    × (0 + cookie_reply_size ≤ 168)
    × All (IsBounded 168) (random ∷ []))
check_wire_sizes_iff_example = check_wire_sizes_iff padded 168

tag_sizes_enough_example : tag_sizes 6 random ≡ tag_sizes 99 random
tag_sizes_enough_example = tag_sizes_enough 6 99 random (omega arith) (omega arith)
