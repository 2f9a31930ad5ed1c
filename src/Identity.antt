-- ===== src/Identity.antt =====
-- internal/daemon/identity.go: the downstream device's key and the parameters that it shares with the
-- clients, and GeneratePrivateKey of internal/awgconf/key.go. The random source, JSON and base64 are
-- parameters. A `uint16` or `uint32` conversion is written out.
pub mod Fresh
pub mod File
pub mod Tests
use lotsman.Prelude.{
  ℕ, ◌+◌, ◌-◌, ◌*◌, ◌/◌, ◌%◌, ◌^◌, Bool, true, false, Option, none, some, List, [], ◌∷◌, zero, suc,
}
use lotsman.Bytes.{Text}
use lotsman.Awgconf.{Range, Params, Key, Codec, zero_params}
use lotsman.Awgconf.Values.{parse_range, print_range, parse_key}

pub record Identity : Type 0 where
  pub private_key : Key
  pub params : Params

-- `bytes` is what rand.Read fills the key with; `draw k n` is the k-th result of rand.Int below `n`.
pub record Random : Type 0 where
  pub bytes : Option (List ℕ)
  pub draw : ℕ → ℕ → ℕ

-- `b & 248`, and `b & 127 | 64`.
abbrev pub clear_low : ℕ → ℕ
clear_low b = b / 8 * 8

abbrev pub set_high : ℕ → ℕ
set_high b = b % 64 + 64

unfoldable pub clamp_last : Key → Key
clamp_last [] = []
clamp_last (b ∷ []) = set_high b ∷ []
clamp_last (b ∷ c ∷ cs) = b ∷ clamp_last (c ∷ cs)

unfoldable pub clamp : Key → Key
unfolding clamp_last
clamp [] = []
clamp (b ∷ bs) = clamp_last (clear_low b ∷ bs)

unfoldable pub generate_private_key : Random → Option Key
unfolding clamp
generate_private_key r = elim r.bytes [ none ↦ none | some bs ↦ some (clamp bs) ]

-- Random integers of [lo, hi]; `k` counts the draws.
unfoldable pub rand_int : Random → ℕ → ℕ → ℕ → ℕ
rand_int r k lo hi = lo + r.draw k (hi - lo + 1)

-- The i-th header range.
unfoldable pub header_range : ℕ → ℕ → Range
header_range base i =
    let lo = (base + i * 2 ^ 20) % 2 ^ 32 in record { lo = lo; hi = (lo + 4095) % 2 ^ 32 }

unfoldable pub fresh_params : Random → Params
unfolding rand_int header_range
fresh_params r =
    let base = rand_int r 4 (2 ^ 16) (2 ^ 30) % 2 ^ 32 in
    record zero_params {
      s1 = rand_int r 0 15 100 % 2 ^ 16;
      s2 = rand_int r 1 15 100 % 2 ^ 16;
      s3 = rand_int r 2 10 60 % 2 ^ 16;
      s4 = rand_int r 3 8 16 % 2 ^ 16;
      h1 = header_range base 0;
      h2 = header_range base 1;
      h3 = header_range base 2;
      h4 = header_range base 3;
    }

unfoldable pub new_identity : Random → Option Identity
unfolding generate_private_key fresh_params
new_identity r = elim (generate_private_key r) [
  | none ↦ none
  | some k ↦ some (record { private_key = k; params = fresh_params r })
]

-- identity.json
pub record IdentityFile : Type 0 where
  pub private_key : Text
  pub s1 : ℕ
  pub s2 : ℕ
  pub s3 : ℕ
  pub s4 : ℕ
  pub h1 : Text
  pub h2 : Text
  pub h3 : Text
  pub h4 : Text

-- What saveIdentity writes, before it is JSON.
unfoldable pub to_file : Codec → Identity → IdentityFile
unfolding print_range
to_file codec id = record {
  private_key = codec.encode_key id.private_key;
  s1 = id.params.s1;
  s2 = id.params.s2;
  s3 = id.params.s3;
  s4 = id.params.s4;
  h1 = print_range id.params.h1;
  h2 = print_range id.params.h2;
  h3 = print_range id.params.h3;
  h4 = print_range id.params.h4;
}

unfoldable pub four_ranges :
    Option Range → Option Range → Option Range → Option Range → Params → Option Params
four_ranges (some a) (some b) (some c) (some d) p =
    some (record p { h1 = a; h2 = b; h3 = c; h4 = d })
four_ranges _ _ _ _ p = none

-- loadIdentity, after the JSON.
unfoldable pub of_file : Codec → IdentityFile → Option Identity
unfolding parse_key parse_range four_ranges
of_file codec f = elim (parse_key codec f.private_key) [
  | none ↦ none
  | some k ↦
      elim (four_ranges (parse_range f.h1) (parse_range f.h2) (parse_range f.h3) (parse_range f.h4)
        (record zero_params { s1 = f.s1; s2 = f.s2; s3 = f.s3; s4 = f.s4 })) [
          | none ↦ none
          | some p ↦ some (record { private_key = k; params = p })
        ]
]

-- encoding/json on the struct; a `Doc` is a file's content.
pub record Json (Doc : Type 0) : Type 0 where
  pub marshal : IdentityFile → Doc
  pub unmarshal : Doc → Option IdentityFile

module _ {Doc : Type 0} (codec : Codec) (json : Json Doc) where
  unfoldable pub load_identity : Doc → Option Identity
  unfolding of_file
  load_identity d = elim (json.unmarshal d) [ none ↦ none | some f ↦ of_file codec f ]

  unfoldable pub save_identity : Identity → Doc
  unfolding to_file
  save_identity id = json.marshal (to_file codec id)

-- A caller of LoadOrCreateIdentity, in one process or another: before it reads the file, with what
-- newIdentity will give it and whether it can write its temporary file; before it links that file into
-- place; with an identity; with an error.
pub data Caller : Type 0 where
  starting : Option Identity → Bool → Caller
  creating : Identity → Bool → Caller
  loaded : Identity → Caller
  failed : Caller

abbrev pub with_identity : Option Identity → Caller
with_identity none = failed
with_identity (some id) = loaded id

abbrev with_new : Option Identity → Bool → Caller
with_new none ok = failed
with_new (some id) ok = creating id ok

module _ {Doc : Type 0} (codec : Codec) (json : Json Doc) where
  -- One access to identity.json: the read, or the link, which fails if the file is there, and then the
  -- file is read.
  unfoldable pub access : Caller → Option Doc → Caller × Option Doc
  unfolding load_identity save_identity
  access (starting made ok) none = (with_new made ok, none)
  access (starting made ok) (some d) = (with_identity (load_identity codec json d), some d)
  access (creating id false) file = (failed, file)
  access (creating id true) none = (loaded id, some (save_identity codec json id))
  access (creating id true) (some d) = (with_identity (load_identity codec json d), some d)
  access (loaded id) file = (loaded id, file)
  access failed file = (failed, file)

  -- The n-th caller makes its next access; a schedule says who is next.
  unfoldable pub advance : ℕ → List Caller → Option Doc → List Caller × Option Doc
  unfolding access
  advance n [] file = ([], file)
  advance zero (c ∷ cs) file = let (d, after) = access c file in (d ∷ cs, after)
  advance (suc n) (c ∷ cs) file = let (ds, after) = advance n cs file in (c ∷ ds, after)

  unfoldable pub interleave : List ℕ → List Caller → Option Doc → List Caller × Option Doc
  unfolding advance
  interleave [] cs file = (cs, file)
  interleave (n ∷ ns) cs file = let (ds, after) = advance n cs file in interleave ns ds after
