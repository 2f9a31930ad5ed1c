-- ===== src/Awgconf/RoundTrip/Sections.antt =====
-- A line of an [Interface] or of a [Peer] section of a configuration, read back into its field.
use lotsman.Prelude.{
  ◌≡◌, refl, ap, ◌∙◌, Bool, true, false, Option, some, List, [], ◌∷◌, ◌++◌, String,
}
use lotsman.Bytes.{Text, codes, lower}
use lotsman.Awgconf.{Interface, Peer, Codec}
use lotsman.Awgconf.Parse.{Result, ok, KeyError, put, set_interface, set_peer}
use lotsman.Awgconf.Scan.{State, in_interface, in_peer, on_last, map_ok, set_in, set_key}
use lotsman.Awgconf.Print.{line_if}
use lotsman.Awgconf.Lines.{IsPlain, is_word}
use lotsman.Awgconf.RoundTrip.{Runs, Runs-key}

put-some : {A B : Type 0} (o : Option A) (x : A) (f : A → B) → o ≡ some x → put o f ≡ ok (f x)
unfolding put
put-some o x f e = rw (e, put) refl

on_last-append :
    {A : Type 0} (set : A → Result KeyError A) (ps : List A) (p q : A)
    → set p ≡ ok q
    → on_last set (ps ++ p ∷ []) ≡ ok (ps ++ q ∷ [])
unfolding on_last
on_last-append set [] p q e = rw (e, on_last) refl
on_last-append set (a ∷ []) p q e = rw (e, on_last) refl
on_last-append set (a ∷ b ∷ ps) p q e = rw (on_last-append set (b ∷ ps) p q e) refl

module _ (codec : Codec) (ps : List Peer) where
  abbrev pub at_interface : Interface → State
  at_interface i = record { section = in_interface; interface = i; peers = ps }

  -- A field `x` of the interface: printed as `v`, read by `read`, `z` where the line is left out.
  pub interface_field :
      {A : Type 0} (b : Bool) (k : String) (v : Text) (read : Option A) (f : A → Interface)
      (z x : A)
      → is_word (codes k) ≡ true
      → set_interface codec (lower (codes k)) v (f z) ≡ put read f
      → (b ≡ true → IsPlain v × (read ≡ some x))
      → (b ≡ false → z ≡ x)
      → Runs codec (line_if b k v) (at_interface (f z)) (at_interface (f x))
  unfolding set_key map_ok
  interface_field b k v read f z x w s h g =
      Runs-key codec b k v (at_interface (f z)) (at_interface (f x)) w
        (λ e. ((h e).0, rw (s ∙ put-some read x f (h e).1, set_in) refl))
        (λ e. ap (λ y. at_interface (f y)) (g e))

module _ (codec : Codec) (i : Interface) (ps : List Peer) where
  abbrev pub at_peer : Peer → State
  at_peer p = record { section = in_peer; interface = i; peers = ps ++ p ∷ [] }

  pub peer_field :
      {A : Type 0} (b : Bool) (k : String) (v : Text) (read : Option A) (f : A → Peer) (z x : A)
      → is_word (codes k) ≡ true
      → set_peer codec (lower (codes k)) v (f z) ≡ put read f
      → (b ≡ true → IsPlain v × (read ≡ some x))
      → (b ≡ false → z ≡ x)
      → Runs codec (line_if b k v) (at_peer (f z)) (at_peer (f x))
  unfolding set_key map_ok
  peer_field b k v read f z x w s h g =
      Runs-key codec b k v (at_peer (f z)) (at_peer (f x)) w
        (λ e. (
          (h e).0,
          rw
              (
                on_last-append (set_peer codec (lower (codes k)) v) ps (f z) (f x)
                    (s ∙ put-some read x f (h e).1),
                set_in,
              )
              refl,
        ))
        (λ e. ap (λ y. at_peer (f y)) (g e))
