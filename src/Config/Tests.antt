-- ===== src/Config/Tests.antt =====
-- A configuration that Validate accepts.
use lotsman.Prelude.{◌≡◌, refl, none, some, [], ◌∷◌, pos, false}
use lotsman.Config.{Config}
use lotsman.Config.Validate.{Texts, validate}
use lotsman.Config.Sound.{IsSound, validate_lem}

-- Every address splits into the host "h" and the port "51820".
abbrev texts : Texts
texts = record { addr_port = λ s. some false; host_port = λ s. some ("h", "51820") }

abbrev accepted : Config
accepted = record {
  listen = "0.0.0.0:51820";
  endpoint = "h:51820";
  subnet = record { addr = 172818432; bits = 16 };
  dns = 16843009 ∷ [];
  state_dir = "/var/lib/lotsman";
  upstreams = record { name = "ams-1"; conf = "/etc/ams.conf"; geo = "nl"; provider = "x" } ∷ [];
  profiles = record { name = "web"; prefer = record { geo = "nl"; provider = "" } ∷ [] } ∷ [];
  health = record {
    interval = pos 15;
    probe = "1.1.1.1:443";
    down_after = pos 3;
    up_after = pos 2;
  };
  metrics_listen = "";
}

accepted_run : validate texts accepted ≡ none
unfolding validate
accepted_run = refl

validate_lem_example : IsSound accepted
validate_lem_example = validate_lem texts accepted accepted_run
