-- ===== src/Awgconf/RoundTrip/Whole.antt =====
-- A configuration is read back from the text that Config.String of internal/awgconf/config.go writes.
use mathlib.Core.Bool.{false≢true}
use lotsman.Prelude.{
  ◌⊎◌, inl, inr, subst, ◌^◌, ◌<◌, ◌≡◌, refl, sym, ap, ◌∙◌, true, false, not, Option, none, some,
  List, [], ◌∷◌, ◌++◌, ◌==◌, nat_eq, arith, All, length, ℤ, pos, negsuc,
}
use lotsman.Bytes.{Text, codes, lower, trim, cut, number, decimal, integer, atoi}
use lotsman.Bytes.Decimal.{number-decimal, IsInt64, atoi-integer}
use lotsman.Awgconf.{
  Interface, Peer, Config, Codec, Key, zero_interface, zero_peer, zeros, is_zero_key,
}
use lotsman.Awgconf.Parse.{
  ok, set_interface, set_peer, lines, read_line, classify, without_comment, bracketed, drop_cr,
}
use lotsman.Awgconf.Scan.{
  State, Section, run, start, accept, parse, step, in_peer, in_interface, open_section,
}
use lotsman.Awgconf.Accept.{refused}
use lotsman.Awgconf.Values.{parse_key, sized_key, parse_list, parse_prefix, join_list}
use lotsman.Awgconf.Values.RoundTrip.{IsItem, parse_list-join_list}
use lotsman.Awgconf.Print.{
  is_empty, is_zero_int, interface_lines, peer_lines, peers_lines, config_lines, render,
}
use lotsman.Awgconf.Lines.{IsPlain, lines-unlines}
use lotsman.Awgconf.RoundTrip.{Runs, IsShort, append_assoc, Runs-none, Runs-one, ◌then_runs◌}
use lotsman.Awgconf.RoundTrip.Plain.{decimal-IsPlain, integer-IsPlain, Prints, join_list-IsPlain}
use lotsman.Awgconf.RoundTrip.Sections.{at_interface, at_peer, interface_field, peer_field}
use lotsman.Awgconf.RoundTrip.Parameters.{IsParams, IsText, params-Runs}

module _ (codec : Codec) where
  -- A key of 32 bytes whose base64 text is read back; prefixes and addresses whose texts are.
  abbrev pub IsReadableKey : Key → Type 0
  IsReadableKey k =
      (length k ≡ 32)
      × (codec.decode_key (codec.encode_key k) ≡ some k)
      × IsPlain (codec.encode_key k)

  -- The zero key stands for none, and is not written.
  abbrev pub IsOptionalKey : Key → Type 0
  IsOptionalKey k = (length k ≡ 32) × ((is_zero_key k ≡ true) ⊎ IsReadableKey k)

  abbrev pub AreItems : {A : Type 0} → (Text → Option A) → (A → Text) → List A → Type 0
  AreItems parse print items = All (IsItem parse print) items × All (Prints print) items

  abbrev pub IsInterface : Interface → Type 0
  IsInterface i =
      IsReadableKey i.private_key
      × AreItems (parse_prefix codec) codec.print_prefix i.addresses
      × AreItems codec.parse_addr codec.print_addr i.dns
      × (i.listen_port < 2 ^ 16)
      × IsInt64 i.mtu
      × IsParams i.params

  abbrev pub IsPeer : Peer → Type 0
  IsPeer p =
      IsReadableKey p.public_key
      × IsOptionalKey p.preshared_key
      × IsText p.endpoint
      × AreItems (parse_prefix codec) codec.print_prefix p.allowed_ips
      × (p.persistent_keepalive < 2 ^ 32)

  -- The configuration can be written: its values fit their fields, its texts can stand on lines, the
  -- lines fit the Scanner's buffer, and the checks at the end of Parse accept it.
  abbrev pub IsWritable : Config → Type 0
  IsWritable c =
      IsInterface c.interface
      × All IsPeer c.peers
      × IsShort (config_lines codec c)
      × (refused c ≡ none)

  key_field :
      (k : Key)
      → IsReadableKey k
      → IsPlain (codec.encode_key k) × (parse_key codec (codec.encode_key k) ≡ some k)
  unfolding parse_key
  key_field k (n, e, p) = (p, rw (e, parse_key, sized_key) (rw n refl))

  optional_key_field :
      (k : Key)
      → IsOptionalKey k
      → not (is_zero_key k) ≡ true
      → IsPlain (codec.encode_key k) × (parse_key codec (codec.encode_key k) ≡ some k)
  optional_key_field k (n, inl z) e = absurd (ground (arith, z, e))
  optional_key_field k (n, inr h) e = key_field k h

  zero_key_lem : (k : Key) → length k ≡ 32 → not (is_zero_key k) ≡ false → zeros 32 ≡ k
  zero_key_lem k n h = ap zeros (sym n) ∙ all_zero k h
    where
      all_zero : (k : Key) → not (is_zero_key k) ≡ false → zeros (length k) ≡ k
      all_zero [] h = refl
      all_zero (b ∷ bs) h =
          let e : 0 ≡ b = ground (arith, h) in
          ap (λ c. c ∷ zeros (length bs)) e ∙ ap (λ cs. b ∷ cs) (all_zero bs (ground (arith, h)))

  list_field :
      {A : Type 0} (read : Text → Option A) (print : A → Text) (items : List A)
      → AreItems read print items
      → not (is_empty items) ≡ true
      → IsPlain (join_list print items) × (parse_list read (join_list print items) ≡ some items)
  list_field read print [] h e = absurd (false≢true e)
  list_field read print (a ∷ as') ((h, hs), (k, ks)) e =
      (join_list-IsPlain print a as' k ks, parse_list-join_list read print a as' h hs)

  empty_list : {A : Type 0} (items : List A) → not (is_empty items) ≡ false → [] ≡ items
  empty_list [] e = refl
  empty_list (a ∷ as') e = absurd (false≢true (sym e))

  zero_int : (z : ℤ) → not (is_zero_int z) ≡ false → pos 0 ≡ z
  zero_int (pos n) e = ap pos (ground (arith, e))
  zero_int (negsuc n) e = absurd (false≢true (sym e))

  interface-Runs :
      (i : Interface)
      → IsInterface i
      → Runs codec
          (interface_lines codec i)
          (at_interface codec [] zero_interface)
          (at_interface codec [] i)
  unfolding interface_lines set_interface lower
  interface-Runs i (hk, ha, hd, hl, hm, hp) =
      let q0 = zero_interface in
      let q1 = record q0 { private_key = i.private_key } in
      let q2 = record q1 { addresses = i.addresses } in
      let q3 = record q2 { dns = i.dns } in
      let q4 = record q3 { listen_port = i.listen_port } in
      interface_field codec [] true "PrivateKey" (codec.encode_key i.private_key)
        (parse_key codec (codec.encode_key i.private_key)) (λ k. record q0 { private_key = k })
        (zeros 32) i.private_key refl refl (λ e. key_field i.private_key hk)
        (λ e. absurd (false≢true (sym e)))
      then_runs interface_field codec [] (not (is_empty i.addresses)) "Address"
          (join_list codec.print_prefix i.addresses) _ (λ as'. record q1 { addresses = as' }) []
          i.addresses refl refl (list_field (parse_prefix codec) codec.print_prefix i.addresses ha)
          (empty_list i.addresses)
      then_runs interface_field codec [] (not (is_empty i.dns)) "DNS"
          (join_list codec.print_addr i.dns) _ (λ as'. record q2 { dns = as' }) [] i.dns refl refl
          (list_field codec.parse_addr codec.print_addr i.dns hd) (empty_list i.dns)
      then_runs interface_field codec [] (not (i.listen_port == 0)) "ListenPort"
          (decimal i.listen_port) (number (2 ^ 16) (decimal i.listen_port))
          (λ n. record q3 { listen_port = n }) 0 i.listen_port refl refl
          (λ e.
            (decimal-IsPlain i.listen_port, number-decimal (2 ^ 16) i.listen_port hl (omega arith)))
          (λ e. ground (arith, e))
      then_runs interface_field codec [] (not (is_zero_int i.mtu)) "MTU" (integer i.mtu)
          (atoi (integer i.mtu)) (λ z. record q4 { mtu = z }) (pos 0) i.mtu refl refl
          (λ e. (integer-IsPlain i.mtu, atoi-integer i.mtu hm)) (zero_int i.mtu)
      then_runs params-Runs codec [] i i.params hp

  peer-Runs :
      (i : Interface) (ps : List Peer) (p : Peer)
      → IsPeer p
      → Runs codec (peer_lines codec p) (at_peer codec i ps zero_peer) (at_peer codec i ps p)
  unfolding peer_lines set_peer lower
  peer-Runs i ps p (hk, hs, he, ha, hn) =
      let q0 = zero_peer in
      let q1 = record q0 { public_key = p.public_key } in
      let q2 = record q1 { preshared_key = p.preshared_key } in
      let q3 = record q2 { endpoint = p.endpoint } in
      let q4 = record q3 { allowed_ips = p.allowed_ips } in
      peer_field codec i ps true "PublicKey" (codec.encode_key p.public_key)
        (parse_key codec (codec.encode_key p.public_key)) (λ k. record q0 { public_key = k })
        (zeros 32) p.public_key refl refl (λ e. key_field p.public_key hk)
        (λ e. absurd (false≢true (sym e)))
      then_runs peer_field codec i ps (not (is_zero_key p.preshared_key)) "PresharedKey"
          (codec.encode_key p.preshared_key) _ (λ k. record q1 { preshared_key = k }) (zeros 32)
          p.preshared_key refl refl (optional_key_field p.preshared_key hs)
          (zero_key_lem p.preshared_key hs.0)
      then_runs peer_field codec i ps (not (is_empty p.endpoint)) "Endpoint" p.endpoint
          (some p.endpoint) (λ t. record q2 { endpoint = t }) [] p.endpoint refl refl
          (λ e. (text_plain p.endpoint he e, refl)) (empty_list p.endpoint)
      then_runs peer_field codec i ps (not (is_empty p.allowed_ips)) "AllowedIPs"
          (join_list codec.print_prefix p.allowed_ips) _ (λ as'. record q3 { allowed_ips = as' }) []
          p.allowed_ips refl refl
          (list_field (parse_prefix codec) codec.print_prefix p.allowed_ips ha)
          (empty_list p.allowed_ips)
      then_runs peer_field codec i ps (not (p.persistent_keepalive == 0)) "PersistentKeepalive"
          (decimal p.persistent_keepalive) (number (2 ^ 32) (decimal p.persistent_keepalive))
          (λ n. record q4 { persistent_keepalive = n }) 0 p.persistent_keepalive refl refl
          (λ e. (
            decimal-IsPlain p.persistent_keepalive,
            number-decimal (2 ^ 32) p.persistent_keepalive hn (omega arith),
          ))
          (λ e. ground (arith, e))
    where
      text_plain : (t : Text) → IsText t → not (is_empty t) ≡ true → IsPlain t
      text_plain [] h e = absurd (false≢true e)
      text_plain (b ∷ bs) h e = h

  append_nil : {A : Type 0} (ps : List A) → ps ≡ ps ++ []
  append_nil [] = refl
  append_nil (p ∷ ps) = ap (λ qs. p ∷ qs) (append_nil ps)

  -- The peers after those in `done`.
  peers-Runs :
      (i : Interface) (done ps : List Peer) (at : Section)
      → All IsPeer ps
      → (after : Section) × Runs codec
          (peers_lines codec ps)
          (record { section = at; interface = i; peers = done })
          (record { section = after; interface = i; peers = done ++ ps })
  unfolding peers_lines read_line classify without_comment trim bracketed drop_cr cut lower step
      open_section
  peers-Runs i done [] at h = (
    at,
    Runs-none codec _ _
        (ap (λ ps. record { section = at; interface = i; peers = ps }) (append_nil done)),
  )
  peers-Runs i done (p ∷ ps) at (h, hs) =
      let s : State = record { section = at; interface = i; peers = done } in
      let (after, rest) = peers-Runs i (done ++ p ∷ []) ps in_peer hs in
      (
        after,
        subst
            (λ qs.
              Runs codec ([] ∷ codes "[Peer]" ∷ (peer_lines codec p ++ peers_lines codec ps)) s
                (record { section = after; interface = i; peers = qs }))
            (append_assoc done (p ∷ []) ps)
            (Runs-one codec [] s s tt (λ n. refl)
              then_runs (Runs-one codec (codes "[Peer]") s (at_peer codec i done zero_peer)
                    (refl, (refl, (refl, (refl, (refl, (refl, tt)))))) (λ n. refl)
                  then_runs (peer-Runs i done p h then_runs rest))),
      )

  config-Runs :
      (c : Config)
      → IsInterface c.interface
      → All IsPeer c.peers
      → (after : Section) × Runs codec
          (config_lines codec c)
          start
          (record { section = after; interface = c.interface; peers = c.peers })
  unfolding config_lines read_line classify without_comment trim bracketed drop_cr cut lower step
      open_section
  config-Runs c hi hp =
      let (after, rest) = peers-Runs c.interface [] c.peers in_interface hp in
      (
        after,
        Runs-one codec (codes "[Interface]") start (at_interface codec [] zero_interface)
              (
                refl,
                (refl, (refl, (refl, (refl, (refl, (refl, (refl, (refl, (refl, (refl, tt)))))))))),
              )
              (λ n. refl)
            then_runs (interface-Runs c.interface hi then_runs rest),
      )

  parse-lines :
      (text : Text) (ls : List Text) (s : State) (c : Config)
      → lines text ≡ ls
      → run codec 1 start ls ≡ ok s
      → accept s ≡ ok c
      → parse codec text ≡ ok c
  unfolding parse
  parse-lines text ls s c e r a = rw (e, parse) (rw (r, parse) a)

  accept-refused :
      (at : Section) (c : Config)
      → refused c ≡ none
      → accept (record { section = at; interface = c.interface; peers = c.peers }) ≡ ok c
  unfolding accept
  accept-refused at c h = rw (h, accept) refl

  -- Parsing the text that is written for a configuration gives the configuration back, if its numbers fit
  -- their fields, its keys, prefixes, addresses and texts are each read back from what is written for
  -- them and can stand on a line, the lines fit the Scanner's buffer, and the checks at the end of Parse
  -- accept it.
  pub parse-render : (c : Config) → IsWritable c → parse codec (render codec c) ≡ ok c
  unfolding render run
  parse-render c (hi, hp, short, good) =
      let (after, r) = config-Runs c hi hp in
      let (m, e) = r.runs short 1 [] in
      let s : State = record { section = after; interface = c.interface; peers = c.peers } in
      parse-lines (render codec c) (config_lines codec c) s c
        (lines-unlines (config_lines codec c) r.lacks)
        (ap (run codec 1 start) (append_nil (config_lines codec c)) ∙ e)
        (accept-refused after c good)
