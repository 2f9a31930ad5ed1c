-- ===== src/Awgconf.antt =====
-- internal/awgconf/config.go, params.go and key.go: configurations, their parser and their printer. A
-- text is the list of its bytes. What netip and base64 do to an address and to a key is a parameter.
pub mod Values
pub mod Accept
pub mod Parse
pub mod Scan
pub mod Print
pub mod RoundTrip
pub mod Sound
pub mod Tests
pub mod Lines
use lotsman.Prelude.{
  ℕ, ◌*◌, ◌^◌, Bool, true, false, not, ◌&&◌, ◌||◌, Option, none, some, List, [], ◌∷◌, ◌==◌, nat_eq,
  zero, suc, if◌then◌else◌, ℤ, pos,
}
use lotsman.Bytes.{Text}
use lotsman.Wire

pub record Range : Type 0 where
  pub lo : ℕ
  pub hi : ℕ

-- `i` are the signatures I1 to I5.
pub record Params : Type 0 where
  pub jc : ℕ
  pub jmin : ℕ
  pub jmax : ℕ
  pub s1 : ℕ
  pub s2 : ℕ
  pub s3 : ℕ
  pub s4 : ℕ
  pub h1 : Range
  pub h2 : Range
  pub h3 : Range
  pub h4 : Range
  pub i1 : Text
  pub i2 : Text
  pub i3 : Text
  pub i4 : Text
  pub i5 : Text

-- The 32 bytes of a key.
abbrev pub Key : Type 0
Key = List ℕ

-- netip.Addr, of either family, by its number; netip.Prefix.
pub record IpAddr : Type 0 where
  pub is4 : Bool
  pub number : ℕ

pub record IpPrefix : Type 0 where
  pub addr : IpAddr
  pub bits : ℕ

pub record Interface : Type 0 where
  pub private_key : Key
  pub addresses : List IpPrefix
  pub dns : List IpAddr
  pub listen_port : ℕ
  pub mtu : ℤ
  pub params : Params

pub record Peer : Type 0 where
  pub public_key : Key
  pub preshared_key : Key
  pub endpoint : Text
  pub allowed_ips : List IpPrefix
  pub persistent_keepalive : ℕ

pub record Config : Type 0 where
  pub interface : Interface
  pub peers : List Peer

-- base64.StdEncoding, netip.ParsePrefix, ParseAddr and the two String methods.
pub record Codec : Type 0 where
  pub decode_key : Text → Option (List ℕ)
  pub encode_key : Key → Text
  pub parse_prefix : Text → Option IpPrefix
  pub print_prefix : IpPrefix → Text
  pub parse_addr : Text → Option IpAddr
  pub print_addr : IpAddr → Text

-- The zero values.
abbrev pub zero_range : Range
zero_range = record { lo = 0; hi = 0 }

abbrev pub zeros : ℕ → Key
zeros zero = []
zeros (suc n) = 0 ∷ zeros n

abbrev pub zero_params : Params
zero_params = record {
  jc = 0;
  jmin = 0;
  jmax = 0;
  s1 = 0;
  s2 = 0;
  s3 = 0;
  s4 = 0;
  h1 = zero_range;
  h2 = zero_range;
  h3 = zero_range;
  h4 = zero_range;
  i1 = [];
  i2 = [];
  i3 = [];
  i4 = [];
  i5 = [];
}

abbrev pub zero_interface : Interface
zero_interface = record {
  private_key = zeros 32;
  addresses = [];
  dns = [];
  listen_port = 0;
  mtu = pos 0;
  params = zero_params;
}

abbrev pub zero_peer : Peer
zero_peer = record {
  public_key = zeros 32;
  preshared_key = zeros 32;
  endpoint = [];
  allowed_ips = [];
  persistent_keepalive = 0;
}

-- Range.IsZero and Key.IsZero
abbrev pub is_zero_range : Range → Bool
is_zero_range r = (r.lo == 0) && (r.hi == 0)

abbrev pub is_zero_key : Key → Bool
is_zero_key [] = true
is_zero_key (b ∷ bs) = (b == 0) && is_zero_key bs

abbrev pub signatures : Params → List Text
signatures p = p.i1 ∷ p.i2 ∷ p.i3 ∷ p.i4 ∷ p.i5 ∷ []

-- The fields that CheckWireSizes reads.
abbrev pub wire_params : Params → Wire.Params
wire_params p = record { s1 = p.s1; s2 = p.s2; s3 = p.s3; i = signatures p }
