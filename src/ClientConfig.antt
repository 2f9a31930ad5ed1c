-- ===== src/ClientConfig.antt =====
-- internal/daemon/client.go: the configuration that a user imports into the client for one peer, read
-- back by the parser. The public key of a private key is curve25519's, and a parameter.
pub mod Tests
use lotsman.Prelude.{
  ℕ, ◌+◌, ◌^◌, ◌<◌, ◌≤◌, ◌≡◌, refl, Bool, true, false, none, List, [], ◌∷◌, map, All, String, ℤ,
  pos, arith, inl, inr,
}
use lotsman.Bytes.{Text, codes}
use lotsman.Bytes.Decimal.{IsInt64}
use lotsman.Net
use lotsman.Config
use lotsman.Wire.{check_signatures, check_wire_sizes}
use lotsman.Awgconf.{
  Params, Interface, Peer, Config, Codec, Key, IpAddr, IpPrefix, zero_params, zero_interface,
  zero_peer, zeros, is_zero_key, signatures, wire_params,
}
use lotsman.Awgconf.Parse.{Result, ok}
use lotsman.Awgconf.Scan.{parse}
use lotsman.Awgconf.Accept.{refused, junk_refused, packets, tagged, largest_junk, keyless_peer}
use lotsman.Awgconf.Print.{config_lines, render}
use lotsman.Awgconf.Values.{parse_prefix}
use lotsman.Awgconf.Lines.{lacks, plain}
use lotsman.Awgconf.RoundTrip.{IsShort}
use lotsman.Awgconf.RoundTrip.Whole.{IsWritable, IsReadableKey, AreItems, parse-render}
use lotsman.Awgconf.RoundTrip.Parameters.{IsParams, IsText}
use lotsman.Identity.{Identity}
use lotsman.Identity.Fresh.{AreFresh}

abbrev pub client_signature : Text
client_signature = codes "<b 0xc000000001><r 64><t>"

-- The client's side of the parameters, over those of the identity.
unfoldable pub client_params : Params → Params
client_params p = record p {
  jc = 4;
  jmin = 40;
  jmax = 70;
  i1 = client_signature;
  i2 = [];
  i3 = [];
  i4 = [];
  i5 = [];
}

abbrev pub ipv4 : Net.Addr → IpAddr
ipv4 a = record { is4 = true; number = a }

abbrev pub everything : IpPrefix
everything = record { addr = ipv4 0; bits = 0 }

-- `private_key` and `ip` are the peer's.
unfoldable pub client_config : (Key → Key) → Config.Config → Identity → Key → Net.Addr → ℤ → Config
unfolding client_params
client_config public cfg id private_key ip mtu = record {
  interface = record zero_interface {
    private_key = private_key;
    addresses = record { addr = ipv4 ip; bits = 32 } ∷ [];
    dns = map ipv4 cfg.dns;
    mtu = mtu;
    params = client_params id.params;
  };
  peers =
      record zero_peer {
        public_key = public id.private_key;
        endpoint = codes cfg.endpoint;
        allowed_ips = everything ∷ [];
        persistent_keepalive = 25;
      }
      ∷ [];
}

-- The checks at the end of Parse accept the client's junk and signature with any paddings that a new
-- identity has.
client_params-accepted : (p : Params) → AreFresh p → junk_refused (client_params p) ≡ none
unfolding junk_refused client_params packets tagged largest_junk
client_params-accepted p h = refl

wire-accepted :
    (p : Params) → AreFresh p → check_wire_sizes (wire_params (client_params p)) 65527 ≡ none
unfolding check_wire_sizes client_params check_signatures
wire-accepted p h = ground (arith, h)

module _ (codec : Codec) (public : Key → Key) (cfg : Config.Config) (id : Identity) where
  -- The texts that the configuration is made of are read back and can stand on a line; no key is zero.
  abbrev pub IsIssuable : Key → Net.Addr → Type 0
  IsIssuable private_key ip =
      (IsReadableKey codec private_key × (is_zero_key private_key ≡ false))
      × (IsReadableKey codec (public id.private_key)
          × (is_zero_key (public id.private_key) ≡ false))
      × AreItems codec (parse_prefix codec) codec.print_prefix
          (record { addr = ipv4 ip; bits = 32 } ∷ [])
      × AreItems codec (parse_prefix codec) codec.print_prefix (everything ∷ [])
      × AreItems codec codec.parse_addr codec.print_addr (map ipv4 cfg.dns)
      × IsText (codes cfg.endpoint)

  client_params-IsParams : AreFresh id.params → IsParams (client_params id.params)
  unfolding client_params lacks
  client_params-IsParams ((_, a), (_, b), (_, c), (_, d), (w1, w2, w3, w4), (e, f, g, k), l) = (
    (omega arith, omega arith, omega arith),
    (omega (arith, a), omega (arith, b), omega (arith, c), omega (arith, d)),
    (
      (omega (arith, w1), omega (arith, w1, w2, w3, w4, f, g, k, l)),
      (omega (arith, w2), omega (arith, w3, w4, g, k, l)),
      (omega (arith, w3), omega (arith, w4, k, l)),
      (omega (arith, w4), l),
    ),
    (plain client_signature refl refl refl refl, tt, tt, tt, tt),
  )

  client_config-refused :
      (private_key : Key) (ip : Net.Addr) (mtu : ℤ)
      → AreFresh id.params
      → is_zero_key private_key ≡ false
      → is_zero_key (public id.private_key) ≡ false
      → refused (client_config public cfg id private_key ip mtu) ≡ none
  unfolding client_config refused keyless_peer
  client_config-refused private_key ip mtu h k l =
      rw (k, refused)
        (rw (l, keyless_peer)
          (rw (client_params-accepted id.params h) (rw (wire-accepted id.params h) refl)))

  -- The configuration that is issued for a peer, with the parameters of a new identity, is one that the
  -- parser accepts, and it reads back the very same configuration, if the keys are not zero, the keys,
  -- addresses and endpoint are read back from their texts and can stand on a line, the MTU is a 64-bit
  -- number, and the lines fit the Scanner's buffer.
  pub parse-client_config :
      (private_key : Key) (ip : Net.Addr) (mtu : ℤ)
      → AreFresh id.params
      → IsIssuable private_key ip
      → IsInt64 mtu
      → let c = client_config public cfg id private_key ip mtu in
        IsShort (config_lines codec c) → parse codec (render codec c) ≡ ok c
  unfolding client_config
  parse-client_config private_key ip mtu h ((k, kn), (l, ln), a, e, d, t) m short =
      parse-render codec (client_config public cfg id private_key ip mtu) (
        (k, a, d, omega arith, m, client_params-IsParams h),
        ((l, (refl, inl refl), t, e, omega arith), tt),
        short,
        client_config-refused private_key ip mtu h kn ln,
      )
