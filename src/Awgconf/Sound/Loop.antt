-- ===== src/Awgconf/Sound/Loop.antt =====
-- The loop of Parse, in internal/awgconf/config.go, keeps every field within its type's size.
use lotsman.Prelude.{
  String, ℕ, ◌+◌, ◌^◌, ◌<◌, ◌≡◌, refl, ap, subst, Option, none, some, List, [], ◌∷◌, ◌++◌, nat_eq,
  arith, All, All-append, length, ltb, if◌then◌else◌,
}
use lotsman.Bytes.{Text, codes, same_text, number}
use lotsman.Awgconf.{Peer, Config, Codec, zero_range, zero_peer}
use lotsman.Awgconf.Parse.{
  Result, ok, err, KeyError, unsupported, set_interface, set_peer, Line, blank, malformed, header,
  entry, lines, line_limit, read_line,
}
use lotsman.Awgconf.Scan.{
  State, ParseError, Section, outside, in_interface, in_peer, run, start, accept, parse, step,
  open_section, on_last, set_in, set_key, map_ok, refusal, at_key, too_long, unknown_section,
}
use lotsman.Awgconf.Accept.{Refusal, refused}
use lotsman.Awgconf.Values.{parse_key, parse_list, parse_prefix}
use lotsman.Awgconf.Values.RoundTrip.{IsRange}
use lotsman.Awgconf.Sound.{
  Holds, IsSizedInterface, IsSizedPeer, err-Holds, ok-Holds, if-Holds, put-Holds, key-Meets,
  any_Meets, number-Meets, set_interface-Holds,
}
use lotsman.Awgconf.Sound.Checks.{IsAccepted, refused_iff}

module _ (codec : Codec) (key value : Text) where
  when :
      (name : String) {r s : Result KeyError Peer}
      → Holds IsSizedPeer r
      → Holds IsSizedPeer s
      → Holds IsSizedPeer (if same_text key (codes name) then r else s)
  when name = if-Holds (same_text key (codes name))

  set_peer-Holds : (p : Peer) → IsSizedPeer p → Holds IsSizedPeer (set_peer codec key value p)
  unfolding set_peer
  set_peer-Holds p h =
      when "publickey"
        (put-Holds _ (parse_key codec value) (λ k. record p { public_key = k })
          (key-Meets codec value) (λ k n. (n, h.1, h.2)))
        (when "presharedkey"
          (put-Holds _ (parse_key codec value) (λ k. record p { preshared_key = k })
            (key-Meets codec value) (λ k n. (h.0, n, h.2)))
          (when "endpoint" (ok-Holds (record p { endpoint = value }) h) (
            when "allowedips"
              (put-Holds (λ a. Unit) (parse_list (parse_prefix codec) value)
                (λ ps. record p { allowed_ips = ps }) (any_Meets _) (λ ps n. h))
              (when "persistentkeepalive"
                (put-Holds _ (number (2 ^ 32) value) (λ n. record p { persistent_keepalive = n })
                  (number-Meets (2 ^ 32) value) (λ n k. (h.0, h.1, k)))
                (err-Holds unsupported)))))

on_last-Holds :
    {A : Type 0} (P : A → Type 0) (set : A → Result KeyError A) (ps : List A)
    → ((p : A) → P p → Holds P (set p))
    → All P ps
    → Holds (All P) (on_last set ps)
unfolding on_last
on_last-Holds P set [] f h = record { holds = tt }
on_last-Holds P set (p ∷ []) f h = last (set p) (f p h.0)
  where
    last :
        (r : Result KeyError _)
        → Holds P r
        → Holds (All P) (elim r [ err e ↦ err e | ok q ↦ ok (q ∷ []) ])
    last (err e) k = record { holds = tt }
    last (ok q) k = record { holds = (k.holds, tt) }
on_last-Holds P set (p ∷ q ∷ ps) f h =
    more (on_last set (q ∷ ps)) (on_last-Holds P set (q ∷ ps) f h.1)
  where
    more :
        (r : Result KeyError (List _))
        → Holds (All P) r
        → Holds (All P) (elim r [ err e ↦ err e | ok qs ↦ ok (p ∷ qs) ])
    more (err e) k = record { holds = tt }
    more (ok qs) k = record { holds = (h.0, k.holds) }

-- The parser's state has every field within its type's size.
abbrev IsSizedState : State → Type 0
IsSizedState s = IsSizedInterface s.interface × All IsSizedPeer s.peers

map-Holds :
    {E A B : Type 0} (P : A → Type 0) (Q : B → Type 0) (f : A → B) (r : Result E A)
    → Holds P r
    → ((a : A) → P a → Q (f a))
    → Holds Q (map_ok f r)
unfolding map_ok
map-Holds P Q f (err e) h g = record { holds = tt }
map-Holds P Q f (ok a) h g = record { holds = g a h.holds }

module _ (codec : Codec) where
  set_in-Holds :
      (key value : Text) (at : Section) (s : State)
      → IsSizedState s
      → Holds IsSizedState (set_in codec key value at s)
  unfolding set_in
  set_in-Holds key value outside s h = record { holds = tt }
  set_in-Holds key value in_interface s h =
      map-Holds IsSizedInterface IsSizedState (λ i. record s { interface = i })
        (set_interface codec key value s.interface)
        (set_interface-Holds codec key value s.interface h.0) (λ i k. (k, h.1))
  set_in-Holds key value in_peer s h =
      map-Holds (All IsSizedPeer) IsSizedState (λ ps. record s { peers = ps })
        (on_last (set_peer codec key value) s.peers)
        (on_last-Holds IsSizedPeer (set_peer codec key value) s.peers
          (set_peer-Holds codec key value) h.1)
        (λ ps k. (h.0, k))

  open-Holds :
      (n : ℕ) (name : Text) (s : State)
      → IsSizedState s
      → Holds IsSizedState (open_section n name s)
  unfolding open_section
  open-Holds n name s h =
      let more =
        All-append IsSizedPeer s.peers (zero_peer ∷ []) (h.1, ((refl, refl, omega arith), tt)) in
      if-Holds (same_text name (codes "interface"))
        (ok-Holds (record s { section = in_interface }) h)
        (if-Holds (same_text name (codes "peer"))
          (ok-Holds (record s { section = in_peer; peers = s.peers ++ zero_peer ∷ [] }) (h.0, more))
          (err-Holds (unknown_section n)))

  step-Holds :
      (n : ℕ) (l : Line) (s : State) → IsSizedState s → Holds IsSizedState (step codec n l s)
  unfolding step set_key
  step-Holds n blank s h = record { holds = h }
  step-Holds n malformed s h = record { holds = tt }
  step-Holds n (header name) s h = open-Holds n name s h
  step-Holds n (entry key value) s h =
      at (set_in codec key value s.section s) (set_in-Holds key value s.section s h)
    where
      at :
          (r : Result KeyError State)
          → Holds IsSizedState r
          → Holds IsSizedState (elim r [ err e ↦ err (at_key n e) | ok t ↦ ok t ])
      at (err e) k = record { holds = tt }
      at (ok t) k = record { holds = k.holds }

  run-Holds :
      (n : ℕ) (s : State) (ls : List Text) → IsSizedState s → Holds IsSizedState (run codec n s ls)
  unfolding run
  run-Holds n s [] h = record { holds = h }
  run-Holds n s (l ∷ ls) h = if-Holds (ltb line_limit (length l)) (err-Holds (too_long n)) (
      next (step codec n (read_line l) s) (step-Holds n (read_line l) s h)
        (λ t. run-Holds (n + 1) t ls))
    where
      next :
          (r : Result ParseError State)
          → Holds IsSizedState r
          → ((t : State) → IsSizedState t → Holds IsSizedState (run codec (n + 1) t ls))
          → Holds IsSizedState (elim r [ err e ↦ err e | ok t ↦ run codec (n + 1) t ls ])
      next (err e) k f = record { holds = tt }
      next (ok t) k f = f t k.holds

start-IsSized : IsSizedState start
start-IsSized =
    let word : 0 < 2 ^ 32 = omega arith in
    let short : 0 < 2 ^ 16 = omega arith in
    let range : IsRange zero_range = (omega arith, word) in
    (
      (
        refl,
        short,
        omega arith,
        ((word, word, word), (short, short, short, short), (range, range, range, range)),
      ),
      tt,
    )

abbrev value_or : {E A : Type 0} → A → Result E A → A
value_or d (err e) = d
value_or d (ok a) = a

-- A configuration that is parsed has keys of 32 bytes, numbers that fit their fields and header ranges
-- in order, in the interface and in every peer, and passes the checks at the end.
pub parse-IsAccepted :
    (codec : Codec) (text : Text) (c : Config)
    → parse codec text ≡ ok c
    → IsSizedInterface c.interface × All IsSizedPeer c.peers × IsAccepted c
unfolding parse accept
parse-IsAccepted codec text c h =
    at (run codec 1 start (lines text)) (run-Holds codec 1 start (lines text) start-IsSized) h
  where
    checked :
        (s : State)
        → IsSizedState s
        → (o : Option Refusal) → refused (record { interface = s.interface; peers = s.peers }) ≡ o
        → (elim o [
          | none ↦ ok (record { interface = s.interface; peers = s.peers })
          | some e ↦ err (refusal e)
        ])
          ≡ ok c
        → IsSizedInterface c.interface × All IsSizedPeer c.peers × IsAccepted c
    checked s k none e h =
        subst
          (λ (d : Config). IsSizedInterface d.interface × All IsSizedPeer d.peers × IsAccepted d)
          (ap (value_or c) h)
          (k.0, k.1, (refused_iff (record { interface = s.interface; peers = s.peers })).0 e)
    checked s k (some x) e h = absurd (ground (arith, h))

    at :
        (r : Result ParseError State)
        → Holds IsSizedState r
        → (elim r [ err e ↦ err e | ok s ↦ accept s ]) ≡ ok c
        → IsSizedInterface c.interface × All IsSizedPeer c.peers × IsAccepted c
    at (err e) k h = absurd (ground (arith, h))
    at (ok s) k h =
        checked s k.holds (refused (record { interface = s.interface; peers = s.peers })) refl h
