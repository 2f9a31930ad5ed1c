-- ===== src/Loading/Tests.antt =====
-- Runs of LoadUpstream and RefreshEndpoint, and their theorems at concrete inputs.
use lotsman.Prelude.{
  ◌≡◌, refl, Bool, true, false, Option, none, some, [], ◌∷◌, ◌++◌, ◌≤ℤ◌, pos, map, if◌then◌else◌,
}
use lotsman.Bytes.{Text, codes, cut, decimal, is_digit}
use lotsman.Config
use lotsman.Mtu.{client}
use lotsman.Health.{new_tracker}
use lotsman.Awgconf.{Peer}
use lotsman.Awgconf.Parse.{ok, err}
use lotsman.Awgconf.Values.{hex, unhex}
use lotsman.Awgconf.Print.{render}
use lotsman.Awgconf.Tests.{codec, issued, server}
use lotsman.Identity.Tests.{fresh, fresh-AreFresh}
use lotsman.Loading.{Network, Upstream, load_upstream}
use lotsman.Loading.Usable.{IsUsable, IsWritten, load_upstream-IsUsable, mtu_of, client-loaded}
use lotsman.Loading.Refresh.{
  Device, IsSettled, with_endpoint, refresh_endpoint, refresh_endpoint-IsSettled, refused,
  endpoint_settings,
}

-- A text that starts with a digit is an address; the one name is 1.2.3.4.
abbrev starts_with_digit : Text → Option Bool
starts_with_digit [] = none
starts_with_digit (b ∷ bs) = if is_digit b then some false else none

abbrev network : Network
network = record {
  read_file = λ path. some (render codec issued);
  addr_port = starts_with_digit;
  split_host_port = cut b':';
  lookup = λ host. some (record { is4 = true; number = 16909060 } ∷ []);
  print_addr_port = λ a port. decimal a.number ++ b':' ∷ decimal port;
}

abbrev provider : Config.Upstream
provider = record { name = "ams"; conf = "/etc/ams.conf"; geo = "nl"; provider = "x" }

abbrev health : Config.Health
health = record { interval = pos 15; probe = "1.1.1.1:443"; down_after = pos 3; up_after = pos 2 }

abbrev amsterdam : Upstream
amsterdam = record {
  config = provider;
  conf = record issued { peers = record server { endpoint = codes "16909060:51820" } ∷ [] };
  source = render codec issued;
  endpoint = codes "vpn:51820";
  addr = record { addr = record { is4 = true; number = 167772162 }; bits = 32 };
  mtu = pos 1360;
  tracker = new_tracker (pos 3) (pos 2);
}

load_run : load_upstream network codec provider health ≡ ok amsterdam
unfolding load_upstream render hex unhex
load_run = refl

load_upstream-IsUsable_example :
    IsUsable network codec amsterdam × IsWritten codec provider health amsterdam
load_upstream-IsUsable_example =
    load_upstream-IsUsable network codec provider health amsterdam load_run

client-loaded_example : pos 68 ≤ℤ client fresh.params.s4 (map mtu_of (amsterdam ∷ []))
client-loaded_example =
    client-loaded network codec fresh.params (amsterdam ∷ []) fresh-AreFresh
      ((load_upstream-IsUsable network codec provider health amsterdam load_run).0, tt)

-- The device keeps the last settings that it was given.
abbrev device : Device Text
device = record { configure = λ settings w. (none, settings) }

abbrev refusing : Device Text
refusing = record { configure = λ settings w. (some "closed", w) }

-- The provider's address before the name moved.
abbrev stale : Upstream
stale = with_endpoint (codes "84281096:51820") amsterdam

refresh_run : (refresh_endpoint network device stale []).1 ≡ amsterdam
unfolding refresh_endpoint hex render cut
refresh_run = refl

-- The device has been told the new address of the name.
told_run :
    (refresh_endpoint network device stale []).2
    ≡ endpoint_settings server.public_key (codes "16909060:51820")
unfolding refresh_endpoint hex render cut endpoint_settings
told_run = refl

-- A device that refuses leaves the upstream as it was.
refused_run : refresh_endpoint network refusing stale [] ≡ (err (refused "closed"), stale, [])
unfolding refresh_endpoint hex render cut
refused_run = refl

abbrev stale_server : Peer
stale_server = record server { endpoint = codes "84281096:51820" }

refresh_endpoint-IsSettled_example :
    IsSettled network device stale stale_server [] (refresh_endpoint network device stale [])
refresh_endpoint-IsSettled_example =
    refresh_endpoint-IsSettled network device stale stale_server [] [] refl
