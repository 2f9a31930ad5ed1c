-- ===== src/Config/Validate.antt =====
-- Config.Validate of internal/config/config.go, and the regular expressions of the names. Splitting
-- addresses into host and port is net's and netip's, and a parameter: `addr_port` is ParseAddrPort,
-- which says here only whether the address is unspecified, `host_port` is SplitHostPort.
use Prim.Native.String.{String}
use lotsman.Prelude.{
  ℕ, ◌+◌, ◌-◌, ◌*◌, Bool, true, false, not, ◌&&◌, ◌||◌, Option, none, some, List, [], ◌∷◌, length,
  ltb, leb, any, ◌==◌, nat_eq, string_eq, if◌then◌else◌, pos, ltb_ℤ, leb_ℤ,
}
use lotsman.Bytes.{codes, is_digit}
use lotsman.Net.{Prefix, addr_limit, masked}
use lotsman.Config.{Config, Upstream, Profile, Match, any_upstream_matches}

pub record Texts : Type 0 where
  pub addr_port : String → Option Bool
  pub host_port : String → Option (String × String)

-- The errors, by the check that returns them.
pub data Invalid : Type 0 where
  listen endpoint endpoint_host endpoint_port subnet subnet_host_bits dns state_dir : Invalid
  no_upstreams no_profiles health_interval health_probe health_counts : Invalid
  metrics_listen metrics_unspecified : Invalid
  upstream_name duplicate_upstream upstream_conf : Upstream → Invalid
  profile_name duplicate_profile : Profile → Invalid
  matches_nothing : Profile → Match → Invalid

-- [a-z0-9]
abbrev pub is_alnum : ℕ → Bool
is_alnum c = (leb b'a' c && leb c b'z') || is_digit c

unfoldable all_name : List ℕ → Bool
all_name [] = true
all_name (c ∷ cs) = (is_alnum c || (c == b'-')) && all_name cs

-- ^[a-z0-9][a-z0-9-]{0,n}$
unfoldable pub is_name : ℕ → List ℕ → Bool
unfolding all_name
is_name n [] = false
is_name n (c ∷ cs) = is_alnum c && all_name cs && leb (length cs) n

unfoldable digits : ℕ → List ℕ → Option ℕ
digits n [] = some n
digits n (c ∷ cs) = if is_digit c then digits (10 * n + (c - b'0')) cs else none

-- ParseUint(port, 10, 16) succeeds, and not with 0.
unfoldable pub is_port : List ℕ → Bool
unfolding digits
is_port [] = false
is_port (c ∷ cs) = elim (digits 0 (c ∷ cs)) [ none ↦ false | some n ↦ ltb 0 n && ltb n 65536 ]

-- `if bad { return why }`, and the checks after it.
abbrev pub reject : Bool → Invalid → Option Invalid → Option Invalid
reject true why rest = some why
reject false why rest = rest

-- `if err := …; err != nil { return err }`
abbrev pub or_else : Option Invalid → Option Invalid → Option Invalid
or_else none rest = rest
or_else (some why) rest = some why

abbrev pub is_none : {A : Type 0} → Option A → Bool
is_none none = true
is_none (some a) = false

-- The loop over the upstreams; `seen` are the names of those before.
unfoldable pub upstreams_invalid : List String → List Upstream → Option Invalid
unfolding is_name any
upstreams_invalid seen [] = none
upstreams_invalid seen (u ∷ us) = reject (not (is_name 8 (codes u.name))) (upstream_name u) (
    reject (any (λ n. n == u.name) seen) (duplicate_upstream u)
      (reject (u.conf == "") (upstream_conf u) (upstreams_invalid (u.name ∷ seen) us)))

unfoldable pub preferences_invalid : Config → Profile → List Match → Option Invalid
unfolding any_upstream_matches
preferences_invalid c p [] = none
preferences_invalid c p (m ∷ ms) =
    reject (not (any_upstream_matches c m)) (matches_nothing p m) (preferences_invalid c p ms)

unfoldable pub profiles_invalid : Config → List String → List Profile → Option Invalid
unfolding is_name any preferences_invalid
profiles_invalid c seen [] = none
profiles_invalid c seen (p ∷ ps) = reject (not (is_name 31 (codes p.name))) (profile_name p) (
    reject (any (λ n. n == p.name) seen) (duplicate_profile p)
      (or_else (preferences_invalid c p p.prefer) (profiles_invalid c (p.name ∷ seen) ps)))

module _ (t : Texts) where
  unfoldable pub endpoint_invalid : Config → Option Invalid
  unfolding is_port
  endpoint_invalid c = elim (t.host_port c.endpoint) [
    | none ↦ some endpoint
    | some (host, port) ↦
        reject (host == "") endpoint_host (reject (not (is_port (codes port))) endpoint_port none)
  ]

  -- A `Prefix` is IPv4 unless its address is the zero `Addr`.
  unfoldable pub subnet_invalid : Prefix → Option Invalid
  unfolding masked
  subnet_invalid p =
      reject (not (ltb p.addr addr_limit) || ltb 24 p.bits) subnet
        (reject (not (p.addr == (masked p).addr)) subnet_host_bits none)

  unfoldable pub health_invalid : Config → Option Invalid
  health_invalid c = reject (leb_ℤ c.health.interval (pos 0)) health_interval (
      reject (is_none (t.addr_port c.health.probe)) health_probe (
        reject (ltb_ℤ c.health.down_after (pos 1) || ltb_ℤ c.health.up_after (pos 1)) health_counts
          none))

  unfoldable pub metrics_invalid : Config → Option Invalid
  metrics_invalid c = if c.metrics_listen == "" then none else elim (t.addr_port c.metrics_listen) [
    | none ↦ some metrics_listen
    | some unspecified ↦ reject unspecified metrics_unspecified none
  ]

  -- Validate: the first check that fails.
  unfoldable pub validate : Config → Option Invalid
  unfolding endpoint_invalid subnet_invalid upstreams_invalid profiles_invalid health_invalid
      metrics_invalid
  validate c = reject (is_none (t.addr_port c.listen)) listen (
      or_else (endpoint_invalid c) (
        or_else (subnet_invalid c.subnet) (
          reject (length c.dns == 0) dns (
            reject (c.state_dir == "") state_dir (
              reject (length c.upstreams == 0) no_upstreams (
                or_else (upstreams_invalid [] c.upstreams) (
                  reject (length c.profiles == 0) no_profiles (
                    or_else (profiles_invalid c [] c.profiles)
                      (or_else (health_invalid c) (metrics_invalid c))))))))))
