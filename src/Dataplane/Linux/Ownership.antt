-- ===== src/Dataplane/Linux/Ownership.antt =====
-- linux.go: which rules, routes and tables Lotsman may take for its own.
use text.Mathlib.Text.{starts_with}
use lotsman.Prelude.{
  ℕ, ◌^◌, ◌%◌, Bool, true, false, not, ◌&&◌, ◌||◌, Option, none, some, List, [], ◌∷◌, String, ◌==◌,
  ltb, leb, any, nat_eq, string_eq, if◌then◌else◌,
}
use lotsman.Prelude.Maps.{Map, get}
use lotsman.Net.{Addr}
use lotsman.Dataplane.Linux.Kernel.{
  IpNet, Rule, KernelRoute, family_v4, full_mask, new_rule, same_rule, same_net,
}

abbrev pub table_base : ℕ
table_base = 1000

abbrev pub table_limit : ℕ
table_limit = 1100

abbrev pub pin_rule_priority : ℕ
pin_rule_priority = 3000

abbrev pub probe_rule_priority : ℕ
probe_rule_priority = 4000

abbrev pub peer_rule_priority : ℕ
peer_rule_priority = 5000

abbrev pub upstream_prefix : String
upstream_prefix = "lm-up-"

unfoldable pub in_range : ℕ → Bool
in_range table = leb table_base table && ltb table table_limit

-- hostNet of an IPv4 address.
unfoldable pub host_net : Addr → IpNet
host_net a = record { ip = a; ones = 32; bits = 32 }

-- r.Src != nil, and its mask is /32 of 32.
unfoldable pub is_host : Option IpNet → Bool
is_host none = false
is_host (some n) = n.ones == 32 && n.bits == 32

-- The rule that ours compares with, if the priority is one of Lotsman's.
unfoldable pub expected : Rule → Option Rule
expected r =
    let want = record new_rule {
      family = family_v4;
      src = r.src;
      table = r.table;
      priority = r.priority;
    } in
    if r.priority == pin_rule_priority
    then some (record want { mark = some (r.table % 2 ^ 32); mask = some full_mask })
    else if r.priority == probe_rule_priority
    then (if not (r.oif_name == "") && not (starts_with r.oif_name upstream_prefix)
        then none
        else some (record want { oif_name = r.oif_name }))
    else if r.priority == peer_rule_priority
    then some want
    else none

unfoldable pub ours : Rule → Bool
unfolding in_range is_host expected same_rule
ours r =
    if not (in_range r.table) || not (is_host r.src)
    then false
    else elim (expected r) [ none ↦ false | some want ↦ same_rule r want ]

-- The first interface with that table; "" if there is none.
unfoldable pub interface_of_table : Map String ℕ → ℕ → String
interface_of_table [] table = ""
interface_of_table ((name, t) ∷ rest) table =
    if t == table then name else interface_of_table rest table

unfoldable pub probe_deletion_ambiguous : Rule → List Rule → Bool
unfolding any same_rule
probe_deletion_ambiguous r all =
    if not (r.priority == probe_rule_priority)
    then false
    else any
        (λ other.
          other.priority == r.priority
          && other.table == r.table
          && other.family == r.family
          && same_net other.src r.src
          && (r.oif_name == "" || other.oif_name == r.oif_name)
          && not (same_rule other r))
        all

unfoldable pub is_default : KernelRoute → Bool
is_default r = elim r.dst [ none ↦ true | some ones ↦ ones == 0 ]

-- names[index], "" if it is missing.
abbrev pub name_of : Map ℕ String → ℕ → String
name_of names i = elim (get names i) [ none ↦ "" | some n ↦ n ]

unfoldable pub our_route : KernelRoute → Map ℕ String → Bool
unfolding is_default
our_route r names =
    is_default r && not r.gw && starts_with (name_of names r.link_index) upstream_prefix

unfoldable pub owned_table : ℕ → List KernelRoute → Map ℕ String → Bool
unfolding any our_route in_range
owned_table table routes names =
    if not (in_range table)
    then false
    else not (any (λ r. r.table == table && not (our_route r names)) routes)

unfoldable pub probe_table_matches : Rule → List KernelRoute → Map ℕ String → Bool
unfolding any
probe_table_matches r routes names =
    if r.oif_name == ""
    then true
    else not (
        any (λ route. route.table == r.table && not (name_of names route.link_index == r.oif_name))
          routes)

-- Any route or rule refers to the table.
unfoldable pub table_busy : ℕ → List KernelRoute → List Rule → Bool
unfolding any
table_busy table routes rules =
    any (λ r. r.table == table) routes || any (λ r. r.table == table) rules
