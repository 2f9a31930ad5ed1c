-- ===== src/Config/Sound.antt =====
-- What a configuration that Config.Validate of internal/config/config.go accepts is sure to have.
use Prim.Native.String.{◌++◌ as append}
use Prim.Native.String.append as text_append
use lotsman.Prelude.{
  ℕ, ◌+◌, ◌≤◌, ◌≡◌, ◌≢◌, ap, ◌∙◌, Bool, true, false, not, Option, none, List, [], ◌∷◌, map, String,
  arith, length, any, any-In, In-any, In, All, All-In, ◌==◌, string_eq, nat_eq, pos, ◌≤ℤ◌,
}
use lotsman.Config.{Config, Upstream, Profile, Match, matches, any_upstream_matches, interface_name}
use lotsman.Bytes.{codes}
use lotsman.Config.Validate.{
  listen, dns, state_dir, no_upstreams, no_profiles, upstream_name, duplicate_upstream,
  upstream_conf, profile_name, duplicate_profile, matches_nothing, Texts, Invalid, reject, or_else,
  is_name, upstreams_invalid, profiles_invalid, preferences_invalid, validate, endpoint_invalid,
  subnet_invalid, health_invalid, is_none,
}

reject-none :
    (b : Bool) (why : Invalid) (rest : Option Invalid)
    → reject b why rest ≡ none
    → (b ≡ false) × (rest ≡ none)
reject-none b why rest h = ground arith

or_else-none : (o rest : Option Invalid) → or_else o rest ≡ none → (o ≡ none) × (rest ≡ none)
or_else-none o rest h = ground arith

-- No name is in the list of those before, nor twice.
abbrev pub Fresh : List String → List String → Type 0
Fresh seen [] = Unit
Fresh seen (n ∷ ns) = (¬ In n seen) × Fresh (n ∷ seen) ns

abbrev pub IsNamed : Upstream → Type 0
IsNamed u = (is_name 8 (codes u.name) ≡ true) × (u.conf ≢ "")

not_seen : (seen : List String) (n : String) → any (λ m. m == n) seen ≡ false → ¬ In n seen
not_seen seen n h m = ground (arith, In-any (λ k. k == n) n seen m, string_eq.beq_iff n n)

upstreams_lem :
    (seen : List String) (us : List Upstream)
    → upstreams_invalid seen us ≡ none
    → Fresh seen (map (λ u. u.name) us) × All IsNamed us
unfolding upstreams_invalid
upstreams_lem seen [] h = (tt, tt)
upstreams_lem seen (u ∷ us) h =
    let (a, k) = reject-none (not (is_name 8 (codes u.name))) (upstream_name u) _ h in
    let (b, l) = reject-none (any (λ n. n == u.name) seen) (duplicate_upstream u) _ k in
    let (c, m) = reject-none (u.conf == "") (upstream_conf u) _ l in
    let (f, g) = upstreams_lem (u.name ∷ seen) us m in
    (
      (not_seen seen u.name b, f),
      ((ground (arith, a), ground (arith, c, string_eq.beq_iff u.conf "")), g),
    )

-- Every preference selects an upstream of the configuration.
abbrev pub IsServed : Config → Profile → Type 0
IsServed c p =
    (is_name 31 (codes p.name) ≡ true)
    × All (λ (m : Match). (u : Upstream) × In u c.upstreams × (matches m u ≡ true)) p.prefer

preferences_lem :
    (c : Config) (p : Profile) (ms : List Match)
    → preferences_invalid c p ms ≡ none
    → All (λ (m : Match). (u : Upstream) × In u c.upstreams × (matches m u ≡ true)) ms
unfolding preferences_invalid any_upstream_matches
preferences_lem c p [] h = tt
preferences_lem c p (m ∷ ms) h =
    let (a, k) = reject-none (not (any_upstream_matches c m)) (matches_nothing p m) _ h in
    (any-In (matches m) c.upstreams (ground (arith, a)), preferences_lem c p ms k)

profiles_lem :
    (c : Config) (seen : List String) (ps : List Profile)
    → profiles_invalid c seen ps ≡ none
    → Fresh seen (map (λ p. p.name) ps) × All (IsServed c) ps
unfolding profiles_invalid
profiles_lem c seen [] h = (tt, tt)
profiles_lem c seen (p ∷ ps) h =
    let (a, k) = reject-none (not (is_name 31 (codes p.name))) (profile_name p) _ h in
    let (b, l) = reject-none (any (λ n. n == p.name) seen) (duplicate_profile p) _ k in
    let (d, m) = or_else-none (preferences_invalid c p p.prefer) _ l in
    let (f, g) = profiles_lem c (p.name ∷ seen) ps m in
    ((not_seen seen p.name b, f), ((ground (arith, a), preferences_lem c p p.prefer d), g))

-- The kernel's limit on the name of an interface: IFNAMSIZ less the final zero.
abbrev pub max_interface_name : ℕ
max_interface_name = 15

codes-append : (s t : String) → length (codes (append s t)) ≡ length (codes s) + length (codes t)
codes-append String.[] t = ap (λ u. length (codes u)) (text_append.nil t) ∙ omega arith
codes-append (String.◌∷◌ c s) t =
    ap (λ u. length (codes u)) (text_append.cons c s t) ∙ omega (arith, codes-append s t)

name-length : (n : ℕ) (cs : List ℕ) → is_name n cs ≡ true → length cs ≤ n + 1
unfolding is_name
name-length n [] h = omega arith
name-length n (c ∷ cs) h = ground arith

pub record IsSound (c : Config) : Type 0 where
  pub upstreams_differ : Fresh [] (map (λ u. u.name) c.upstreams)
  pub upstreams_named : All IsNamed c.upstreams
  pub interfaces_fit :
      (u : Upstream)
      → In u c.upstreams
      → length (codes (interface_name u.name)) ≤ max_interface_name
  pub profiles_differ : Fresh [] (map (λ p. p.name) c.profiles)
  pub profiles_served : All (IsServed c) c.profiles
  pub some_upstream : c.upstreams ≢ []
  pub some_profile : c.profiles ≢ []
  pub thresholds : (pos 1 ≤ℤ c.health.down_after) × (pos 1 ≤ℤ c.health.up_after)
  pub subnet_bits : c.subnet.bits ≤ 24

interface-length :
    (u : Upstream) → IsNamed u → length (codes (interface_name u.name)) ≤ max_interface_name
unfolding interface_name
interface-length u (n, _) =
    omega (arith, codes-append "lm-up-" u.name, name-length 8 (codes u.name) n)

-- A configuration that Validate accepts has upstreams and profiles with well-formed names, each
-- unique, interface names that the kernel takes, only preferences that some upstream meets,
-- thresholds of at least one, and a subnet of /24 or larger.
pub validate_lem : (t : Texts) (c : Config) → validate t c ≡ none → IsSound c
unfolding validate subnet_invalid health_invalid
validate_lem t c h =
    let (_, h1) = reject-none (is_none (t.addr_port c.listen)) listen _ h in
    let (_, h2) = or_else-none (endpoint_invalid t c) _ h1 in
    let (s, h3) = or_else-none (subnet_invalid t c.subnet) _ h2 in
    let (_, h4) = reject-none (length c.dns == 0) dns _ h3 in
    let (_, h5) = reject-none (c.state_dir == "") state_dir _ h4 in
    let (u0, h6) = reject-none (length c.upstreams == 0) no_upstreams _ h5 in
    let (us, h7) = or_else-none (upstreams_invalid [] c.upstreams) _ h6 in
    let (p0, h8) = reject-none (length c.profiles == 0) no_profiles _ h7 in
    let (ps, h9) = or_else-none (profiles_invalid c [] c.profiles) _ h8 in
    let (hs, _) = or_else-none (health_invalid t c) _ h9 in
    let (fu, nu) = upstreams_lem [] c.upstreams us in
    let (fp, np) = profiles_lem c [] c.profiles ps in
    record {
      upstreams_differ = fu;
      upstreams_named = nu;
      interfaces_fit = λ u m. interface-length u (All-In IsNamed u c.upstreams m nu);
      profiles_differ = fp;
      profiles_served = np;
      some_upstream = λ e. ground (arith, u0);
      some_profile = λ e. ground (arith, p0);
      thresholds = ground (arith, hs);
      subnet_bits = ground (arith, s);
    }
