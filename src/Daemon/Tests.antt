-- ===== src/Daemon/Tests.antt =====
-- A daemon over the in-memory dataplane, and the theorems at concrete inputs.
use lotsman.Prelude.{
  eq_iff, ◌≡◌, ◌≢◌, refl, sym, ap, subst, ◌∙◌, ◌⊎◌, inl, inr, true, false, none, some, [], ◌∷◌, pos,
  arith, String, nat_eq, string_eq,
}
use lotsman.Prelude.Maps.{get, put}
use lotsman.Config.{Config, Profile, profile, interface_name}
use lotsman.Health.{up}
use lotsman.Dataplane.Fake.{FakePlane, fake}
use lotsman.Dataplane.Fake
use lotsman.Dataplane.Fake.Promises.{fake_contract, fake_forwards}
use lotsman.Daemon.{
  Daemon, Downstream, Upstream, Peer, route, reconcile_with, settle, candidates, interface_of,
  missing_profile, dataplane_failure, admit_all, revoke_all, is_held,
}
use mathlib.Core.Bool.{false≢true}
use lotsman.Policy.{select}
use lotsman.Daemon.Invariant.{IsValid, Independent}
use lotsman.Daemon.Routing.{route-IsValid, route-Touches, Touches}
use lotsman.Daemon.Outcome.{route_done, route_unknown_profile, IsAt, desired}
use lotsman.Daemon.Reload.{Devices, opened, reload}
use lotsman.Daemon.Counts.{IsCounted, reload-IsCounted}
use lotsman.Daemon.Admission.{IsStable}
use lotsman.Daemon.Service.{
  reconcile-IsValid, reconcile_cuts_off, reconcile_serves, Served, revoked,
}
use lotsman.Daemon.Steps.{Refused}

-- A device that takes every call.
abbrev device : Downstream FakePlane
device = record { add_peer = λ k ip w. (none, w); remove_peer = λ k w. (none, w) }

device-Independent : Independent fake_contract.forwards device
device-Independent = record { add_peer_keeps = λ k ip w a. refl; remove_peer_keeps = λ k w a. refl }

abbrev web : Profile
web = record { name = "web"; prefer = record { geo = "nl"; provider = "" } ∷ [] }

abbrev amsterdam : Upstream
amsterdam = record {
  config = record { name = "ams"; conf = "/etc/ams.conf"; geo = "nl"; provider = "x" };
  source = "";
  addr = record { addr = 0; bits = 32 };
  mtu = pos 0;
  s4 = 0;
  device = "lm-up-ams";
  tracker = record {
    down_after = pos 3;
    up_after = pos 2;
    state = up;
    fails = 0;
    oks = 1;
    latency = 9;
  };
}

ams_named : amsterdam.config.name ≢ ""
ams_named e = false≢true ((eq_iff "ams" "").1 e)

abbrev settings : Config
settings = record {
  listen = "";
  endpoint = "";
  subnet = record { addr = 0; bits = 16 };
  dns = [];
  state_dir = "";
  upstreams = amsterdam.config ∷ [];
  profiles = web ∷ [];
  health = record { interval = pos 1; probe = ""; down_after = pos 3; up_after = pos 2 };
  metrics_listen = "";
}

abbrev alice : Peer
alice = record { user = "alice"; device = "phone"; profile = "web"; public_key = 11; ip = 100 }

abbrev mallory : Peer
mallory = record { user = "mallory"; device = "phone"; profile = "gone"; public_key = 12; ip = 101 }

abbrev host : FakePlane
host = record {
  down = record { name = "lm-down"; addr = record { addr = 1; bits = 16 } };
  ups = record { name = "lm-up-ams"; addr = record { addr = 0; bits = 32 } } ∷ [];
  mtu = pos 1280;
  routes = [];
  pins = [];
  alive = ("lm-up-ams", true) ∷ [];
  setup_done = true;
  torn_down = false;
}

-- The daemon before its first Reconcile, and with alice on the device.
abbrev started : Daemon FakePlane
started = record {
  cfg = settings;
  ups = amsterdam ∷ [];
  assignments = [];
  unroute_pending = [];
  device_peers = [];
  alive_failed = [];
  probes = [];
  reroutes = [];
  reloads = (0, 0);
  world = host;
}

abbrev joined : Daemon FakePlane
joined = record started { device_peers = (11, alice) ∷ [] }

started-IsValid : IsValid fake_contract.forwards started
unfolding get interface_name Fake.route_of
started-IsValid = record {
  named = λ u m. elim m [
    | inl e ↦ subst (λ (x : Upstream). x.device ≡ interface_name x.config.name) e refl
    | inr n ↦ absurd n
  ];
  names = λ u m. elim m [
    | inl e ↦ subst (λ (x : Upstream). x.config.name ≢ "") e ams_named
    | inr n ↦ absurd n
  ];
  recorded = λ a h. fake_forwards host a;
  exact = λ a name h. absurd (ground arith);
  owned = λ a name h. absurd (ground arith);
  assigned = λ a h. ground arith;
}

joined-IsValid : IsValid fake_contract.forwards joined
unfolding get interface_name Fake.route_of
joined-IsValid = record {
  named = started-IsValid.named;
  names = started-IsValid.names;
  recorded = λ a h. fake_forwards host a;
  exact = λ a name h. absurd (ground arith);
  owned = λ a name h. absurd (ground arith);
  assigned = λ a h. ground arith;
}

alone : IsStable (alice ∷ []) started.device_peers
unfolding get
alone = record {
  listed = λ p q m n e. elim m [
    | inl f ↦ elim n [ inl g ↦ ap (λ (x : Peer). x.ip) (sym f ∙ g) | inr g ↦ absurd g ]
    | inr f ↦ absurd f
  ];
  kept = λ p q m h. absurd (ground arith);
}

gone : IsStable [] joined.device_peers
gone = record { listed = λ p q m n e. absurd m; kept = λ p q m h. absurd m }

-- alice joins: she is served.
joins : (reconcile_with fake device (alice ∷ []) started).0 ≡ []
unfolding reconcile_with get profile select candidates Fake.route interface_of
joins = refl

-- alice has been removed from the store.
leaves : (reconcile_with fake device [] joined).0 ≡ []
unfolding reconcile_with get Fake.unroute
leaves = refl

routes : (route fake alice joined).0 ≡ []
unfolding route profile get select candidates Fake.route interface_of
routes = refl

web_configured : profile settings "web" ≡ some web
unfolding profile
web_configured = refl

gone_unconfigured : profile settings "gone" ≡ none
unfolding profile
gone_unconfigured = refl

-- The loop that admits her reports no failure.
admits :
    (admit_all fake device
      (is_held
        (revoked fake device fake_contract device-Independent (alice ∷ []) started).device_peers)
      (alice ∷ [])
      (revoked fake device fake_contract device-Independent (alice ∷ []) started)).0
    ≡ []
unfolding admit_all revoke_all is_held get profile select candidates Fake.route interface_of
admits = refl

reconcile-IsValid_example :
    IsValid fake_contract.forwards (reconcile_with fake device (alice ∷ []) started).1
reconcile-IsValid_example =
    reconcile-IsValid fake device fake_contract device-Independent (alice ∷ []) started alone
      started-IsValid admits

reconcile_serves_example :
    Served fake device fake_contract device-Independent web
      (amsterdam ∷ [])
      alice
      (reconcile_with fake device (alice ∷ []) started).1
reconcile_serves_example =
    reconcile_serves fake device fake_contract device-Independent (alice ∷ []) started alice web
      alone started-IsValid (tt, tt) (inl refl) web_configured joins

reconcile_cuts_off_example :
    IsAt fake fake_contract 100 none (reconcile_with fake device [] joined).1
reconcile_cuts_off_example =
    reconcile_cuts_off fake device fake_contract device-Independent [] joined 100 gone
      joined-IsValid (λ p m. absurd m) leaves

route_done_example :
    IsAt fake fake_contract 100
      (desired fake fake_contract web 100 (settle fake 100 joined).1)
      (route fake alice joined).1
route_done_example =
    route_done fake fake_contract alice web joined joined-IsValid web_configured routes

route_unknown_profile_example :
    (((fake.unroute 101 joined.world).0 ≡ none)
      × ((route fake mallory joined).0 ≡ missing_profile mallory ∷ [])
      × IsAt fake fake_contract 101 none (route fake mallory joined).1
      × (get (route fake mallory joined).1.unroute_pending 101 ≡ none))
    ⊎ ((e : String) × ((fake.unroute 101 joined.world).0 ≡ some e)
        × (route fake mallory joined ≡ (
          missing_profile mallory ∷ dataplane_failure e ∷ [],
          record joined {
            unroute_pending = put joined.unroute_pending 101 true;
            world = (fake.unroute 101 joined.world).1;
          },
        )))
route_unknown_profile_example =
    route_unknown_profile fake fake_contract mallory joined gone_unconfigured

route-IsValid_example :
    IsValid fake_contract.forwards (route fake alice joined).1
    ⊎ (IsValid fake_contract.forwards (settle fake 100 joined).1
        × Refused fake fake_contract 100 (settle fake 100 joined).1 (route fake alice joined))
unfolding get
route-IsValid_example =
    route-IsValid fake fake_contract alice joined (11, alice, refl, refl) joined-IsValid

route-Touches_example : Touches fake fake_contract 100 joined (route fake alice joined).1
route-Touches_example = route-Touches fake fake_contract alice joined

-- Devices that all come up, and provider files that have not changed.
abbrev devices : Devices FakePlane
devices = record {
  content = λ path. "";
  start = λ u h w. (opened amsterdam, w);
  bring_up = λ u w. (none, w);
  close = λ u w. w;
}

reload-IsCounted_example :
    IsCounted started.reloads
      (reload fake devices 8 settings started).0
      (reload fake devices 8 settings started).1.reloads
reload-IsCounted_example = reload-IsCounted fake devices 8 settings started
