-- ===== src/Dataplane/Linux/Shapes.antt =====
-- `ours` takes exactly the rules that Lotsman installs for its own.
use text.Mathlib.Text.{starts_with}
use lotsman.Prelude.{
  ℕ, ◌^◌, ◌%◌, ◌≡◌, ap, ◌∙◌, ◌↔◌, ◌⊎◌, inl, inr, Bool, true, ◌||◌, Option, none, some, String, ◌==◌,
  arith, eq_iff, nat_eq, string_eq, Option-cases,
}
use lotsman.Net.{Addr}
use lotsman.Dataplane.Linux.Kernel.{IpNet, Rule, same_rule, family_v4, full_mask, new_rule}
use lotsman.Dataplane.Linux.Ownership.{
  in_range, ours, is_host, host_net, expected, pin_rule_priority, probe_rule_priority,
  peer_rule_priority, upstream_prefix,
}
use lotsman.Dataplane.Linux.Routing.{plain_rule, pin_rule}

pub same_rule-eq : (a b : Rule) → same_rule a b ≡ true → a ≡ b
unfolding same_rule
same_rule-eq a b h = ground (arith, eq_iff a.oif_name b.oif_name)

pub same_rule_refl : (a : Rule) → same_rule a a ≡ true
unfolding same_rule
same_rule_refl a = ground (arith, eq_iff a.oif_name a.oif_name)

-- The rule "from <addr> oif <name> lookup <table>" of health probes.
unfoldable pub probe_rule : Addr → String → ℕ → Rule
unfolding plain_rule
probe_rule a oif table = record (plain_rule a table probe_rule_priority) { oif_name = oif }

-- The interface of a probe rule: none, as in older versions, or an upstream's.
abbrev pub probe_oif : String → Bool
probe_oif oif = oif == "" || starts_with oif upstream_prefix

-- The shapes of the rules that Lotsman installs.
abbrev pub Installed : Rule → Type 0
Installed r =
    (a : Addr) × (in_range r.table ≡ true)
    × ((r ≡ plain_rule a r.table peer_rule_priority)
        ⊎ (r ≡ pin_rule a r.table)
        ⊎ ((r ≡ probe_rule a r.oif_name r.table) × (probe_oif r.oif_name ≡ true)))

is_host-net : (o : Option IpNet) → is_host o ≡ true → (a : Addr) × (o ≡ some (host_net a))
unfolding is_host host_net
is_host-net none h = absurd (ground arith)
is_host-net (some n) h = (n.ip, ground arith)

ours-parts :
    (r : Rule)
    → ours r ≡ true
    → (in_range r.table ≡ true)
      × (is_host r.src ≡ true)
      × ((want : Rule) × (expected r ≡ some want) × (r ≡ want))
unfolding ours
ours-parts r h = elim (Option-cases (expected r)) [
  | inl e ↦ absurd (ground (arith, e))
  | inr (want, e) ↦ (ground arith, ground arith, (want, e, same_rule-eq r want (ground (arith, e))))
]

abbrev base : Option IpNet → ℕ → ℕ → Rule
base src table priority = record new_rule {
  family = family_v4;
  src = src;
  table = table;
  priority = priority;
}

expected-cases :
    (r want : Rule)
    → expected r ≡ some want
    → ((r.priority ≡ peer_rule_priority) × (want ≡ base r.src r.table r.priority))
      ⊎ ((r.priority ≡ pin_rule_priority)
          × (want ≡ record (base r.src r.table r.priority) {
            mark = some (r.table % 2 ^ 32);
            mask = some full_mask;
          }))
      ⊎ ((r.priority ≡ probe_rule_priority)
          × (probe_oif r.oif_name ≡ true)
          × (want ≡ record (base r.src r.table r.priority) { oif_name = r.oif_name }))
unfolding expected
expected-cases r want e = ground arith

-- What `ours` accepts has one of the shapes that Lotsman installs, in a table of its range.
pub ours-Installed : (r : Rule) → ours r ≡ true → Installed r
unfolding plain_rule pin_rule probe_rule
ours-Installed r h =
    let (range, host, (want, e, same)) = ours-parts r h in
    let (a, f) = is_host-net r.src host in
    (
      a,
      range,
      elim (expected-cases r want e) [
        | inl (p, g) ↦ inl (
            same
            ∙ g
            ∙ ap (λ s. base s r.table r.priority) f
            ∙ ap (λ n. base (some (host_net a)) r.table n) p)
        | inr (inl (p, g)) ↦ inr (
            inl (
              same
              ∙ g
              ∙ ap
                  (λ s. record (base s r.table r.priority) {
                    mark = some (r.table % 2 ^ 32);
                    mask = some full_mask;
                  })
                  f
              ∙ ap
                  (λ n. record (base (some (host_net a)) r.table n) {
                    mark = some (r.table % 2 ^ 32);
                    mask = some full_mask;
                  })
                  p))
        | inr (inr (p, g, k)) ↦ inr (
            inr (
              same
                  ∙ k
                  ∙ ap (λ s. record (base s r.table r.priority) { oif_name = r.oif_name }) f
                  ∙ ap (λ n. record (base (some (host_net a)) r.table n) { oif_name = r.oif_name })
                      p,
              g,
            ))
      ],
    )

plain-ours :
    (a : Addr) (t : ℕ) → in_range t ≡ true → ours (plain_rule a t peer_rule_priority) ≡ true
unfolding ours plain_rule
plain-ours a t h = ground (arith, eq_iff "" "")

pin-ours : (a : Addr) (t : ℕ) → in_range t ≡ true → ours (pin_rule a t) ≡ true
unfolding ours pin_rule
pin-ours a t h = ground (arith, eq_iff "" "")

probe-ours :
    (a : Addr) (oif : String) (t : ℕ)
    → in_range t ≡ true
    → probe_oif oif ≡ true
    → ours (probe_rule a oif t) ≡ true
unfolding ours probe_rule
probe-ours a oif t h k = ground (arith, eq_iff "" "", eq_iff oif oif)

-- `ours` accepts a rule exactly if it has a shape that Lotsman installs, a peer's rule, a pin or a
-- probe rule with no further selector, in a table of its range.
pub ours_iff : (r : Rule) → (ours r ≡ true) ↔ Installed r
ours_iff r = (
  ours-Installed r,
  λ (a, range, shape). elim shape [
    | inl e ↦ ap ours e ∙ plain-ours a r.table range
    | inr (inl e) ↦ ap ours e ∙ pin-ours a r.table range
    | inr (inr (e, k)) ↦ ap ours e ∙ probe-ours a r.oif_name r.table range k
  ],
)
