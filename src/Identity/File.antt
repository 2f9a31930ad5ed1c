-- ===== src/Identity/File.antt =====
-- identity.json of internal/daemon/identity.go: what is saved is read back, and callers that create it
-- at the same time agree.
use mathlib.Core.Option.{some-injective}
use lotsman.Prelude.{
  ℕ, ◌≡◌, refl, sym, ap, ◌∙◌, subst, true, false, Option, none, some, List, [], ◌∷◌, All, In,
  All-In, length, zero, suc, inl, inr, Option-cases,
}
use lotsman.Awgconf.{Params, Codec, zero_params}
use lotsman.Awgconf.Values.{parse_key, sized_key}
use lotsman.Awgconf.Values.RoundTrip.{IsRange, parse_range-print_range}
use lotsman.Identity.{
  Identity, Json, four_ranges, to_file, of_file, load_identity, save_identity, Caller, starting,
  creating, loaded, failed, with_identity, access, advance, interleave,
}

-- The file holds the key, the paddings and the header ranges, and nothing else of the parameters.
abbrev pub shared : Params → Params
shared p = record zero_params {
  s1 = p.s1;
  s2 = p.s2;
  s3 = p.s3;
  s4 = p.s4;
  h1 = p.h1;
  h2 = p.h2;
  h3 = p.h3;
  h4 = p.h4;
}

abbrev pub IsSaveable : Codec → Identity → Type 0
IsSaveable codec id =
    (length id.private_key ≡ 32)
    × (codec.decode_key (codec.encode_key id.private_key) ≡ some id.private_key)
    × (IsRange id.params.h1 × IsRange id.params.h2 × IsRange id.params.h3 × IsRange id.params.h4)
    × (shared id.params ≡ id.params)

of_file-to_file :
    (codec : Codec) (id : Identity)
    → IsSaveable codec id
    → of_file codec (to_file codec id) ≡ some id
unfolding of_file to_file parse_key four_ranges
of_file-to_file codec id (n, e, (h1, h2, h3, h4), s) =
    let key : parse_key codec (codec.encode_key id.private_key) ≡ some id.private_key =
      rw (e, parse_key, sized_key) (rw n refl) in
    rw (key, of_file)
      (rw (parse_range-print_range id.params.h1 h1, parse_range-print_range id.params.h2 h2)
        (rw (parse_range-print_range id.params.h3 h3, parse_range-print_range id.params.h4 h4)
          (ap (λ p. some (record { private_key = id.private_key; params = p })) s)))

module _ {Doc : Type 0} (codec : Codec) (json : Json Doc) where
  -- An identity is read back from the file that it is saved to, if base64 and JSON give back its key of 32
  -- bytes and the file's struct, its header ranges are in order and below 2 ^ 32, and it has no other
  -- parameters than those that the file holds.
  pub load_identity-save_identity :
      (id : Identity)
      → IsSaveable codec id
      → json.unmarshal (json.marshal (to_file codec id)) ≡ some (to_file codec id)
      → load_identity codec json (save_identity codec json id) ≡ some id
  unfolding load_identity save_identity
  load_identity-save_identity id h e = rw (e, load_identity) (of_file-to_file codec id h)

  abbrev Reads : Doc → Identity → Type 0
  Reads d id = load_identity codec json d ≡ some id

  -- What a caller would publish is read back; one that has an identity has the file's.
  abbrev pub Agrees : Option Doc → Caller → Type 0
  Agrees file (starting none ok) = Unit
  Agrees file (starting (some id) ok) = Reads (save_identity codec json id) id
  Agrees file (creating id ok) = Reads (save_identity codec json id) id
  Agrees none (loaded id) = ⊥
  Agrees (some d) (loaded id) = Reads d id
  Agrees file failed = Unit

  -- The file is written once.
  abbrev Grows : Option Doc → Option Doc → Type 0
  Grows none after = Unit
  Grows (some d) after = after ≡ some d

  with_identity-Agrees : (d : Doc) → Agrees (some d) (with_identity (load_identity codec json d))
  with_identity-Agrees d = elim (Option-cases (load_identity codec json d)) [
    | inl e ↦ rw e tt
    | inr (id, e) ↦ rw e e
  ]

  access_lem :
      (c : Caller) (file : Option Doc)
      → Agrees file c
      → let (d, after) = access codec json c file in Agrees after d × Grows file after
  unfolding access
  access_lem (starting none ok) none h = (tt, tt)
  access_lem (starting (some id) ok) none h = (h, tt)
  access_lem (starting made ok) (some d) h = (with_identity-Agrees d, refl)
  access_lem (creating id false) none h = (tt, tt)
  access_lem (creating id false) (some d) h = (tt, refl)
  access_lem (creating id true) none h = (h, tt)
  access_lem (creating id true) (some d) h = (with_identity-Agrees d, refl)
  access_lem (loaded id) none h = absurd h
  access_lem (loaded id) (some d) h = (h, refl)
  access_lem failed none h = (tt, tt)
  access_lem failed (some d) h = (tt, refl)

  -- The other callers go on agreeing.
  Grows-Agrees :
      (c : Caller) (file after : Option Doc) → Grows file after → Agrees file c → Agrees after c
  Grows-Agrees (starting none ok) file after g h = tt
  Grows-Agrees (starting (some id) ok) file after g h = h
  Grows-Agrees (creating id ok) file after g h = h
  Grows-Agrees (loaded id) none after g h = absurd h
  Grows-Agrees (loaded id) (some d) after g h = subst (λ f. Agrees f (loaded id)) (sym g) h
  Grows-Agrees failed file after g h = tt

  all-Grows :
      (cs : List Caller) (file after : Option Doc)
      → Grows file after
      → All (Agrees file) cs
      → All (Agrees after) cs
  all-Grows [] file after g h = tt
  all-Grows (c ∷ cs) file after g (h, hs) =
      (Grows-Agrees c file after g h, all-Grows cs file after g hs)

  Grows-refl : (file : Option Doc) → Grows file file
  Grows-refl none = tt
  Grows-refl (some d) = refl

  advance_lem :
      (n : ℕ) (cs : List Caller) (file : Option Doc)
      → All (Agrees file) cs
      → let (ds, after) = advance codec json n cs file in All (Agrees after) ds × Grows file after
  unfolding advance
  advance_lem n [] file h = (tt, Grows-refl file)
  advance_lem zero (c ∷ cs) file (h, hs) =
      let (a, g) = access_lem c file h in ((a, all-Grows cs file _ g hs), g)
  advance_lem (suc n) (c ∷ cs) file (h, hs) =
      let (a, g) = advance_lem n cs file hs in ((Grows-Agrees c file _ g h, a), g)

  interleave-Agrees :
      (ns : List ℕ) (cs : List Caller) (file : Option Doc)
      → All (Agrees file) cs
      → let (ds, after) = interleave codec json ns cs file in All (Agrees after) ds
  unfolding interleave
  interleave-Agrees [] cs file h = h
  interleave-Agrees (n ∷ ns) cs file h =
      let (ds, after) = advance codec json n cs file in
      interleave-Agrees ns ds after (advance_lem n cs file h).0

  same_file :
      (file : Option Doc) (a b : Identity) → Agrees file (loaded a) → Agrees file (loaded b) → a ≡ b
  same_file none a b h k = absurd h
  same_file (some d) a b h k = some-injective a b (sym h ∙ k)

  -- However the callers' accesses to the file interleave, any two that end up with an identity have
  -- the same one, if what each of them would save is read back, and those that had one at the start
  -- had the file's.
  pub callers_agree :
      (ns : List ℕ) (cs : List Caller) (file : Option Doc) (a b : Identity)
      → All (Agrees file) cs
      → In (loaded a) (interleave codec json ns cs file).0
      → In (loaded b) (interleave codec json ns cs file).0
      → a ≡ b
  callers_agree ns cs file a b h m k =
      let agree = interleave-Agrees ns cs file h in
      let after = (interleave codec json ns cs file).1 in
      same_file after a b (All-In (Agrees after) (loaded a) _ m agree)
        (All-In (Agrees after) (loaded b) _ k agree)
