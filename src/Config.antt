-- ===== src/Config.antt =====
-- internal/config/config.go: the configuration's data, and which upstreams a preference selects.
pub mod Validate
pub mod Sound
pub mod Tests
use Prim.Native.String.{◌++◌ as append}
use lotsman.Prelude.{
  ℕ, ◌≡◌, Bool, true, ◌&&◌, ◌||◌, Option, none, some, List, [], ◌∷◌, String, ◌==◌, ℤ, any, find,
  string_eq, ◌++◌,
}
use lotsman.Net.{Prefix, Addr}

pub record Upstream : Type 0 where
  pub name : String
  pub conf : String
  pub geo : String
  pub provider : String

pub record Match : Type 0 where
  pub geo : String
  pub provider : String

pub record Profile : Type 0 where
  pub name : String
  pub prefer : List Match

-- `interval` is in nanoseconds.
pub record Health : Type 0 where
  pub interval : ℤ
  pub probe : String
  pub down_after : ℤ
  pub up_after : ℤ

pub record Config : Type 0 where
  pub listen : String
  pub endpoint : String
  pub subnet : Prefix
  pub dns : List Addr
  pub state_dir : String
  pub upstreams : List Upstream
  pub profiles : List Profile
  pub health : Health
  pub metrics_listen : String

-- The TUN interface of the upstream of that name: Upstream.InterfaceName.
unfoldable pub interface_name : String → String
interface_name name = append "lm-up-" name

-- Empty fields match anything.
unfoldable pub matches : Match → Upstream → Bool
matches m u = (m.geo == "" || m.geo == u.geo) && (m.provider == "" || m.provider == u.provider)

unfoldable pub any_upstream_matches : Config → Match → Bool
unfolding any matches
any_upstream_matches c m = any (matches m) c.upstreams

-- The first profile of that name.
unfoldable pub profile : Config → String → Option Profile
profile c name = find (λ p. p.name == name) c.profiles
