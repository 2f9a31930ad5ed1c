-- ===== src/ClientConfig/Tests.antt =====
-- A client configuration, and its theorem at a concrete input.
use lotsman.Prelude.{◌≡◌, refl, true, [], ◌∷◌, arith, pos}
use lotsman.Bytes.{codes, cut, number, decimal}
use lotsman.Config
use lotsman.Awgconf.{Config, Key, zeros}
use lotsman.Awgconf.Parse.{ok}
use lotsman.Awgconf.Scan.{parse}
use lotsman.Awgconf.Values.{hex, unhex, parse_prefix}
use lotsman.Awgconf.Print.{config_lines, render}
use lotsman.Awgconf.Lines.{lacks, lacks-Lacks, plain}
use lotsman.Awgconf.Tests.{codec, secret, short, short-IsShort}
use lotsman.Awgconf.RoundTrip.{IsShort}
use lotsman.Identity.{fresh_params, clamp}
use lotsman.Identity.Tests.{fresh, fresh-AreFresh}
use lotsman.ClientConfig.{client_config, IsIssuable, parse-client_config, everything}

abbrev cfg : Config.Config
cfg = record {
  listen = "0.0.0.0:51820";
  endpoint = "vpn.example.org:51820";
  subnet = record { addr = 167772160; bits = 24 };
  dns = 16843009 ∷ [];
  state_dir = "/var/lib/lotsman";
  upstreams = [];
  profiles = [];
  health = record {
    interval = pos 15;
    probe = "1.1.1.1:443";
    down_after = pos 3;
    up_after = pos 2;
  };
  metrics_listen = "";
}

-- The public key stands in for the curve's.
abbrev public : Key → Key
public k = 9 ∷ zeros 31

issuable : IsIssuable codec public cfg fresh secret 167772162
unfolding hex unhex parse_prefix decimal lacks cut number
issuable =
    let own =
      codec.print_prefix (record { addr = record { is4 = true; number = 167772162 }; bits = 32 }) in
    let all = codec.print_prefix everything in
    let dns = codec.print_addr (record { is4 = true; number = 16843009 }) in
    (
      ((refl, refl, plain (hex secret) refl refl refl refl), refl),
      ((refl, refl, plain (hex (public secret)) refl refl refl refl), refl),
      (((refl, refl, refl, lacks-Lacks b',' own refl), tt), (plain own refl refl refl refl, tt)),
      (((refl, refl, refl, lacks-Lacks b',' all refl), tt), (plain all refl refl refl refl, tt)),
      (((refl, refl, refl, lacks-Lacks b',' dns refl), tt), (plain dns refl refl refl refl, tt)),
      plain (codes cfg.endpoint) refl refl refl refl,
    )

abbrev issued : Config
issued = client_config public cfg fresh secret 167772162 (pos 1360)

issued-IsShort : IsShort (config_lines codec issued)
unfolding config_lines short hex client_config fresh_params clamp
issued-IsShort = short-IsShort (config_lines codec issued) refl

parse-client_config_example : parse codec (render codec issued) ≡ ok issued
parse-client_config_example =
    parse-client_config codec public cfg fresh secret 167772162 (pos 1360) fresh-AreFresh issuable
      (omega arith) issued-IsShort
