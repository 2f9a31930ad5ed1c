-- ===== src/Awgconf/Scan.antt =====
-- The loop of Parse in internal/awgconf/config.go.
use lotsman.Prelude.{ℕ, ◌+◌, none, some, List, [], ◌∷◌, ◌++◌, length, ltb, nat_eq, if◌then◌else◌}
use lotsman.Bytes.{Text, codes, same_text}
use lotsman.Awgconf.{Interface, Peer, Config, Codec, zero_interface, zero_peer}
use lotsman.Awgconf.Parse.{
  Result, err, ok, Line, blank, malformed, header, entry, KeyError, outside_section, lines,
  line_limit, read_line, set_interface, set_peer,
}
use lotsman.Awgconf.Accept.{Refusal, refused}

pub data Section : Type 0 where
  outside in_interface in_peer : Section

-- `section` and `cfg`; `peer` points at the last of the peers.
pub record State : Type 0 where
  pub section : Section
  pub interface : Interface
  pub peers : List Peer

pub data ParseError : Type 0 where
  unknown_section expected_equals too_long : ℕ → ParseError
  at_key : ℕ → KeyError → ParseError
  refusal : Refusal → ParseError

abbrev pub start : State
start = record { section = outside; interface = zero_interface; peers = [] }

unfoldable pub open_section : ℕ → Text → State → Result ParseError State
open_section n name s =
    if same_text name (codes "interface")
    then ok (record s { section = in_interface })
    else if same_text name (codes "peer")
    then ok (record s { section = in_peer; peers = s.peers ++ zero_peer ∷ [] })
    else err (unknown_section n)

-- `peer.set(key, value)`. The first clause is never met: there is a peer once the section is a peer's.
unfoldable pub on_last : {A : Type 0} → (A → Result KeyError A) → List A → Result KeyError (List A)
on_last set [] = err outside_section
on_last set (p ∷ []) = elim (set p) [ err e ↦ err e | ok q ↦ ok (q ∷ []) ]
on_last set (p ∷ q ∷ ps) = elim (on_last set (q ∷ ps)) [ err e ↦ err e | ok qs ↦ ok (p ∷ qs) ]

-- `if err = x.set(key, value); err != nil { … }` in each of the two sections.
unfoldable pub map_ok : {E A B : Type 0} → (A → B) → Result E A → Result E B
map_ok f (err e) = err e
map_ok f (ok a) = ok (f a)

unfoldable pub set_in : Codec → Text → Text → Section → State → Result KeyError State
unfolding set_interface set_peer on_last map_ok
set_in codec key value outside s = err outside_section
set_in codec key value in_interface s =
    map_ok (λ i. record s { interface = i }) (set_interface codec key value s.interface)
set_in codec key value in_peer s =
    map_ok (λ ps. record s { peers = ps }) (on_last (set_peer codec key value) s.peers)

unfoldable pub set_key : Codec → Text → Text → State → Result KeyError State
unfolding set_in
set_key codec key value s = set_in codec key value s.section s

unfoldable pub step : Codec → ℕ → Line → State → Result ParseError State
unfolding open_section set_key
step codec n blank s = ok s
step codec n malformed s = err (expected_equals n)
step codec n (header name) s = open_section n name s
step codec n (entry key value) s = elim (set_key codec key value s) [
  | err e ↦ err (at_key n e)
  | ok t ↦ ok t
]

-- The lines from number `n` on.
unfoldable pub run : Codec → ℕ → State → List Text → Result ParseError State
unfolding read_line step
run codec n s [] = ok s
run codec n s (l ∷ ls) =
    if ltb line_limit (length l)
    then err (too_long n)
    else elim (step codec n (read_line l) s) [ err e ↦ err e | ok t ↦ run codec (n + 1) t ls ]

unfoldable pub accept : State → Result ParseError Config
unfolding refused
accept s =
    let c : Config = record { interface = s.interface; peers = s.peers } in
    elim (refused c) [ none ↦ ok c | some e ↦ err (refusal e) ]

unfoldable pub parse : Codec → Text → Result ParseError Config
unfolding lines run accept
parse codec text = elim (run codec 1 start (lines text)) [ err e ↦ err e | ok s ↦ accept s ]
