-- ===== src/Awgconf/Parse.antt =====
-- Parse of internal/awgconf/config.go: the lines of bufio.Scanner, what stands on a line, and the
-- fields that a key sets. An error says which line it is on.
use lotsman.Prelude.{
  ℕ, ◌^◌, Bool, ◌||◌, Option, none, some, List, [], ◌∷◌, ◌==◌, nat_eq, if◌then◌else◌,
}
use lotsman.Bytes.{Text, codes, same_text, trim, lower, cut, number, atoi}
use lotsman.Awgconf.{Params, Interface, Peer, Codec}
use lotsman.Awgconf.Values.{parse_range, parse_key, parse_list, parse_prefix}

pub data Result (E A : Type 0) : Type 0 where
  err : E → Result E A
  ok : A → Result E A

-- bufio.ScanLines: no line after the last line feed.
abbrev pub onto_line : ℕ → List Text → List Text
onto_line b [] = (b ∷ []) ∷ []
onto_line b (l ∷ ls) = (b ∷ l) ∷ ls

unfoldable pub lines : Text → List Text
lines [] = []
lines (b ∷ bs) = let rest = lines bs in if b == 10 then [] ∷ rest else onto_line b rest

unfoldable pub drop_cr : Text → Text
drop_cr [] = []
drop_cr (b ∷ []) = if b == 13 then [] else b ∷ []
drop_cr (b ∷ c ∷ cs) = b ∷ drop_cr (c ∷ cs)

-- The Scanner's buffer has 65536 bytes, the line feed included.
abbrev pub line_limit : ℕ
line_limit = 65535

pub data Line : Type 0 where
  blank malformed : Line
  header : Text → Line
  entry : Text → Text → Line

-- The text before a last ']'.
unfoldable before_bracket : Text → Option Text
before_bracket [] = none
before_bracket (b ∷ []) = if b == b']' then some [] else none
before_bracket (b ∷ c ∷ cs) = elim (before_bracket (c ∷ cs)) [ none ↦ none | some t ↦ some (b ∷ t) ]

unfoldable pub bracketed : Text → Option Text
unfolding before_bracket
bracketed [] = none
bracketed (b ∷ bs) = if b == b'[' then before_bracket bs else none

unfoldable pub without_comment : Text → Text
unfolding cut trim
without_comment line = elim (cut b'#' line) [ none ↦ line | some (l, _) ↦ trim l ]

unfoldable pub read_entry : Text → Line
unfolding cut trim lower
read_entry line = elim (cut b'=' line) [
  | none ↦ malformed
  | some (key, value) ↦ entry (lower (trim key)) (trim value)
]

unfoldable pub classify : Text → Line
unfolding bracketed read_entry lower
classify [] = blank
classify (b ∷ bs) = elim (bracketed (b ∷ bs)) [
  | some name ↦ header (lower name)
  | none ↦ read_entry (b ∷ bs)
]

unfoldable pub read_line : Text → Line
unfolding drop_cr without_comment trim classify
read_line raw = classify (without_comment (trim (drop_cr raw)))

pub data KeyError : Type 0 where
  outside_section unsupported bad_value : KeyError

-- `x.field, err = parse(value)`, and the error after the switch.
unfoldable pub put : {A B : Type 0} → Option A → (A → B) → Result KeyError B
put none field = err bad_value
put (some v) field = ok (field v)

abbrev pub put_param :
    {A : Type 0} → Option A → (A → Params) → Interface → Result KeyError Interface
put_param v field i = put v (λ x. record i { params = field x })

abbrev pub ignored_key : Text → Bool
ignored_key k =
    same_text k (codes "table")
    || same_text k (codes "preup")
    || same_text k (codes "postup")
    || same_text k (codes "predown")
    || same_text k (codes "postdown")
    || same_text k (codes "saveconfig")
    || same_text k (codes "fwmark")

unfoldable pub set_interface : Codec → Text → Text → Interface → Result KeyError Interface
unfolding parse_key parse_list parse_prefix parse_range number atoi put
set_interface codec key value i =
    let p = i.params in
    if same_text key (codes "privatekey")
    then put (parse_key codec value) (λ k. record i { private_key = k })
    else if same_text key (codes "address")
    then put (parse_list (parse_prefix codec) value) (λ ps. record i { addresses = ps })
    else if same_text key (codes "dns")
    then put (parse_list codec.parse_addr value) (λ as'. record i { dns = as' })
    else if same_text key (codes "listenport")
    then put (number (2 ^ 16) value) (λ n. record i { listen_port = n })
    else if same_text key (codes "mtu")
    then put (atoi value) (λ z. record i { mtu = z })
    else if same_text key (codes "jc")
    then put_param (number (2 ^ 32) value) (λ n. record p { jc = n }) i
    else if same_text key (codes "jmin")
    then put_param (number (2 ^ 32) value) (λ n. record p { jmin = n }) i
    else if same_text key (codes "jmax")
    then put_param (number (2 ^ 32) value) (λ n. record p { jmax = n }) i
    else if same_text key (codes "s1")
    then put_param (number (2 ^ 16) value) (λ n. record p { s1 = n }) i
    else if same_text key (codes "s2")
    then put_param (number (2 ^ 16) value) (λ n. record p { s2 = n }) i
    else if same_text key (codes "s3")
    then put_param (number (2 ^ 16) value) (λ n. record p { s3 = n }) i
    else if same_text key (codes "s4")
    then put_param (number (2 ^ 16) value) (λ n. record p { s4 = n }) i
    else if same_text key (codes "h1")
    then put_param (parse_range value) (λ r. record p { h1 = r }) i
    else if same_text key (codes "h2")
    then put_param (parse_range value) (λ r. record p { h2 = r }) i
    else if same_text key (codes "h3")
    then put_param (parse_range value) (λ r. record p { h3 = r }) i
    else if same_text key (codes "h4")
    then put_param (parse_range value) (λ r. record p { h4 = r }) i
    else if same_text key (codes "i1")
    then ok (record i { params = record p { i1 = value } })
    else if same_text key (codes "i2")
    then ok (record i { params = record p { i2 = value } })
    else if same_text key (codes "i3")
    then ok (record i { params = record p { i3 = value } })
    else if same_text key (codes "i4")
    then ok (record i { params = record p { i4 = value } })
    else if same_text key (codes "i5")
    then ok (record i { params = record p { i5 = value } })
    else if ignored_key key
    then ok i
    else err unsupported

unfoldable pub set_peer : Codec → Text → Text → Peer → Result KeyError Peer
unfolding parse_key parse_list parse_prefix number put
set_peer codec key value p =
    if same_text key (codes "publickey")
    then put (parse_key codec value) (λ k. record p { public_key = k })
    else if same_text key (codes "presharedkey")
    then put (parse_key codec value) (λ k. record p { preshared_key = k })
    else if same_text key (codes "endpoint")
    then ok (record p { endpoint = value })
    else if same_text key (codes "allowedips")
    then put (parse_list (parse_prefix codec) value) (λ ps. record p { allowed_ips = ps })
    else if same_text key (codes "persistentkeepalive")
    then put (number (2 ^ 32) value) (λ n. record p { persistent_keepalive = n })
    else err unsupported
