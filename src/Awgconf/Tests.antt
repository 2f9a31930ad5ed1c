-- ===== src/Awgconf/Tests.antt =====
-- Runs of the parser and the printer, and their theorems at concrete inputs. The codec writes keys in
-- hex, and an address as the digit of its family and its number.
use lotsman.Prelude.{
  ◌^◌, ◌≡◌, refl, Bool, true, ◌&&◌, Option, none, some, List, [], ◌∷◌, ◌++◌, ◌==◌, nat_eq, arith,
  All, length, leb, if◌then◌else◌, pos, inl, ltb, ◌<◌,
}
use lotsman.Bytes.{Text, codes, cut, number, decimal}
use lotsman.Awgconf.{
  Peer, Config, Codec, Key, IpAddr, IpPrefix, zero_params, zero_interface, zero_peer, zeros,
}
use lotsman.Awgconf.Parse.{ok, line_limit}
use lotsman.Awgconf.Scan.{parse}
use lotsman.Awgconf.Values.{hex, unhex, parse_range, parse_hex_key, parse_prefix}
use lotsman.Awgconf.Values.RoundTrip.{parse_hex_key-hex}
use lotsman.Awgconf.Print.{config_lines, render}
use lotsman.Awgconf.Lines.{lacks, lacks-Lacks, plain}
use lotsman.Awgconf.RoundTrip.{IsShort}
use lotsman.Awgconf.RoundTrip.Whole.{IsWritable, IsReadableKey, IsInterface, IsPeer, parse-render}
use lotsman.Awgconf.Accept.{refused}
use lotsman.Awgconf.Sound.{IsSizedInterface, IsSizedPeer}
use lotsman.Awgconf.Sound.Checks.{IsAccepted}
use lotsman.Awgconf.Sound.Loop.{parse-IsAccepted}

abbrev read_addr : Text → Option IpAddr
read_addr [] = none
read_addr (b ∷ bs) = elim (number (2 ^ 64) bs) [
  | none ↦ none
  | some n ↦ some (record { is4 = b == b'4'; number = n })
]

abbrev write_addr : IpAddr → Text
write_addr a = (if a.is4 then b'4' else b'6') ∷ decimal a.number

abbrev read_prefix : Text → Option IpPrefix
read_prefix t = elim (cut b'/' t) [
  | none ↦ none
  | some (l, r) ↦ elim (read_addr l) [
    | none ↦ none
    | some a ↦ elim (number 129 r) [ none ↦ none | some n ↦ some (record { addr = a; bits = n }) ]
  ]
]

abbrev pub codec : Codec
codec = record {
  decode_key = unhex;
  encode_key = hex;
  parse_prefix = read_prefix;
  print_prefix = λ p. write_addr p.addr ++ b'/' ∷ decimal p.bits;
  parse_addr = read_addr;
  print_addr = write_addr;
}

unfoldable pub short : List Text → Bool
short [] = true
short (l ∷ ls) = leb (length l) line_limit && short ls

pub short-IsShort : (ls : List Text) → short ls ≡ true → IsShort ls
unfolding short
short-IsShort [] h = tt
short-IsShort (l ∷ ls) h = (ground (arith, h), short-IsShort ls (ground (arith, h)))

all_bytes : Key → Bool
all_bytes [] = true
all_bytes (b ∷ bs) = ltb b 256 && all_bytes bs

bytes : (k : Key) → all_bytes k ≡ true → All (λ b. b < 256) k
unfolding all_bytes
bytes [] h = tt
bytes (b ∷ bs) h = (ground (arith, h), bytes bs (ground (arith, h)))

abbrev pub secret : Key
secret = 7 ∷ zeros 31

abbrev pub client : IpPrefix
client = record { addr = record { is4 = true; number = 167772162 }; bits = 32 }

abbrev everything : IpPrefix
everything = record { addr = record { is4 = true; number = 0 }; bits = 0 }

abbrev pub server : Peer
server = record zero_peer {
  public_key = 9 ∷ zeros 31;
  endpoint = codes "vpn:51820";
  allowed_ips = everything ∷ [];
  persistent_keepalive = 25;
}

abbrev pub issued : Config
issued = record {
  interface = record zero_interface {
    private_key = secret;
    addresses = client ∷ [];
    mtu = pos 1360;
    params = record zero_params {
      jc = 4;
      jmin = 40;
      jmax = 70;
      s1 = 20;
      s4 = 9;
      h1 = record { lo = 5; hi = 9 };
    };
  };
  peers = server ∷ [];
}

parse_run : parse codec (render codec issued) ≡ ok issued
unfolding parse render hex unhex
parse_run = refl

secret-IsReadableKey : IsReadableKey codec secret
unfolding hex unhex lacks
secret-IsReadableKey = (refl, refl, plain (hex secret) refl refl refl refl)

interface-IsInterface : IsInterface codec issued.interface
unfolding parse_prefix decimal lacks cut number
interface-IsInterface =
    let text = codec.print_prefix client in
    (
      secret-IsReadableKey,
      (((refl, refl, refl, lacks-Lacks b',' text refl), tt), (plain text refl refl refl refl, tt)),
      (tt, tt),
      omega arith,
      omega arith,
      (
        (omega arith, omega arith, omega arith),
        (omega arith, omega arith, omega arith, omega arith),
        (
          (omega arith, omega arith),
          (omega arith, omega arith),
          (omega arith, omega arith),
          (omega arith, omega arith),
        ),
        (tt, tt, tt, tt, tt),
      ),
    )

server-IsPeer : IsPeer codec server
unfolding hex unhex parse_prefix decimal lacks cut number
server-IsPeer =
    let text = codec.print_prefix everything in
    (
      (refl, refl, plain (hex server.public_key) refl refl refl refl),
      (refl, inl refl),
      plain server.endpoint refl refl refl refl,
      (((refl, refl, refl, lacks-Lacks b',' text refl), tt), (plain text refl refl refl refl, tt)),
      omega arith,
    )

issued-IsWritable : IsWritable codec issued
unfolding config_lines hex refused short
issued-IsWritable = (
  interface-IsInterface,
  (server-IsPeer, tt),
  short-IsShort (config_lines codec issued) refl,
  refl,
)

parse-render_example : parse codec (render codec issued) ≡ ok issued
parse-render_example = parse-render codec issued issued-IsWritable

parse-IsAccepted_example :
    IsSizedInterface issued.interface × All IsSizedPeer issued.peers × IsAccepted issued
parse-IsAccepted_example = parse-IsAccepted codec (render codec issued) issued parse-render_example

range_run : parse_range (codes " 5 - 9") ≡ some (record { lo = 5; hi = 9 })
unfolding parse_range
range_run = refl

parse_hex_key-hex_example : parse_hex_key (hex secret) ≡ some secret
unfolding all_bytes
parse_hex_key-hex_example = parse_hex_key-hex secret refl (bytes secret refl)
