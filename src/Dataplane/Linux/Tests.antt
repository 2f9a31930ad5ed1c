-- ===== src/Dataplane/Linux/Tests.antt =====
-- A kernel in memory that meets the laws, and the theorems at concrete inputs.
use lotsman.Prelude.{
  string_eq, ◌≡◌, ◌≢◌, refl, sym, subst, ◌↔◌, ◌⊎◌, inl, inr, Bool, true, not, Option, none, some,
  List, [], ◌∷◌, String, arith, In, any, filter, any-In, In-filter, filter-In, Bool-cases,
  if◌then◌else◌, nat_eq,
}
use lotsman.Prelude.Maps.{Map, get, put, del, get-put, get-del}
use lotsman.Net.{Addr}
use lotsman.Dataplane.Linux.Kernel.{Kernel, Rule, found, Added, done, exists, same_rule}
use lotsman.Dataplane.Linux.Ownership.{peer_rule_priority, ours, host_net}
use lotsman.Dataplane.Linux.Plane.{Plane, ok, err}
use lotsman.Dataplane.Linux.Routing.{
  route, unroute, or_false, plain_rule, pin_rule, rules_for, is_own,
}
use lotsman.Dataplane.Linux.Laws.{Laws}
use lotsman.Dataplane.Linux.Revocation.{unroute_revokes_first, Blocked, Tracks, RevokeFailed}
use lotsman.Dataplane.Linux.Shapes.{ours_iff, Installed, same_rule-eq, same_rule_refl}

record Memory : Type 0 where
  rules : List Rule
  peers : Map Addr Bool

abbrev add : Rule → Memory → Added × Memory
add r w =
    if any (same_rule r) w.rules then (exists, w) else (done, record w { rules = r ∷ w.rules })

abbrev delete : Rule → Memory → Option String × Memory
delete r w =
    if any (same_rule r) w.rules
    then (none, record w { rules = filter (λ x. not (same_rule r x)) w.rules })
    else (some "no such rule", w)

abbrev memory : Kernel Memory
memory = record {
  rule_list = λ w. found w.rules;
  rule_add = add;
  rule_del = delete;
  route_list = λ w. found [];
  route_del = λ r w. (none, w);
  link_names = λ w. found [];
  allow = λ a w. (none, record w { peers = put w.peers a true });
  disallow = λ a w. (none, record w { peers = del w.peers a });
}

abbrev admits : Memory → Addr → Bool
admits w a = or_false (get w.peers a)

differs : (r x : Rule) → (not (same_rule r x) ≡ true) ↔ (r ≢ x)
differs r x = (
  λ h e. ground (arith, subst (λ y. same_rule r y ≡ true) e (same_rule_refl r)),
  λ n. elim (Bool-cases (same_rule r x)) [ inl e ↦ absurd (n (same_rule-eq r x e)) | inr e ↦ rw e ],
)

add_done :
    (r : Rule) (w : Memory)
    → (add r w).0 ≡ done
    → (x : Rule) → In x (add r w).1.rules ↔ (In x w.rules ⊎ (r ≡ x))
add_done r w h x = elim (Bool-cases (any (same_rule r) w.rules)) [
  | inl e ↦ absurd (ground (arith, e))
  | inr e ↦ rw e (ground arith)
]

add_exists :
    (r : Rule) (w : Memory) → (add r w).0 ≡ exists → In r w.rules × ((add r w).1.rules ≡ w.rules)
add_exists r w h = elim (Bool-cases (any (same_rule r) w.rules)) [
  | inl e ↦
      let (y, m, k) = any-In (same_rule r) w.rules e in
      (subst (λ z. In z w.rules) (sym (same_rule-eq r y k)) m, rw e)
  | inr e ↦ absurd (ground (arith, e))
]

del_done :
    (r : Rule) (w : Memory)
    → (delete r w).0 ≡ none
    → (x : Rule) → In x (delete r w).1.rules ↔ (In x w.rules × (r ≢ x))
del_done r w h x = elim (Bool-cases (any (same_rule r) w.rules)) [
  | inl e ↦ rw e (
    λ m. let (i, k) = filter-In (λ y. not (same_rule r y)) x w.rules m in (i, (differs r x).0 k),
    λ (i, n). In-filter (λ y. not (same_rule r y)) x w.rules i ((differs r x).1 n),
  )
  | inr e ↦ absurd (ground (arith, e))
]

add_peers : (r : Rule) (w : Memory) → (add r w).1.peers ≡ w.peers
add_peers r w = elim (Bool-cases (any (same_rule r) w.rules)) [ inl e ↦ rw e | inr e ↦ rw e ]

delete_peers : (r : Rule) (w : Memory) → (delete r w).1.peers ≡ w.peers
delete_peers r w = elim (Bool-cases (any (same_rule r) w.rules)) [ inl e ↦ rw e | inr e ↦ rw e ]

unfoldable memory_laws : Laws memory
memory_laws = record {
  rules = λ w. w.rules;
  admits = admits;
  listed = λ w rs h. ground arith;
  add_done = add_done;
  add_exists = add_exists;
  del_done = del_done;
  add_admits = λ r w a. rw (add_peers r w);
  del_admits = λ r w a. rw (delete_peers r w);
  allow_done = λ a w h. ground (arith, get-put w.peers a true a);
  disallow_done = λ a w h. ground (arith, get-del w.peers a a);
  allow_others = λ a b w n. ground (arith, get-put w.peers a true b);
  disallow_others = λ a b w n. ground (arith, get-del w.peers a b);
  allow_failed = λ a w e h. absurd (ground arith);
  disallow_failed = λ a w e h. absurd (ground arith);
  allow_rules = λ a w. refl;
  disallow_rules = λ a w. refl;
}

-- The rule of another peer.
abbrev other : Rule
other = plain_rule 167772163 1000 peer_rule_priority

-- A plane that routes the peer 167772162 through table 1000, with a pin to table 1001 besides.
abbrev routed : Plane Memory
routed = record {
  down = "lm-down";
  tables = ("lm-up-a", 1000) ∷ ("lm-up-b", 1001) ∷ [];
  alive = ("lm-up-a", true) ∷ [];
  allowed = (167772162, true) ∷ [];
  world = record {
    rules = plain_rule 167772162 1000 peer_rule_priority ∷ pin_rule 167772162 1001 ∷ other ∷ [];
    peers = (167772162, true) ∷ [];
  };
}

routed-Tracks : Tracks memory memory_laws 167772162 routed
unfolding memory_laws get
routed-Tracks = refl

-- Two of the rules are the instance's for the peer.
listed_run :
    (rules_for memory 167772162 routed).0
    ≡ ok (plain_rule 167772162 1000 peer_rule_priority ∷ pin_rule 167772162 1001 ∷ [])
unfolding rules_for filter plain_rule pin_rule host_net is_own same_rule
listed_run = refl

cleared_run : (unroute memory 167772162 routed).1.world ≡ record { rules = other ∷ []; peers = [] }
unfolding unroute get any filter same_rule plain_rule pin_rule host_net del
cleared_run = refl

-- A firewall that refuses to let the peer go keeps the rules.
abbrev stubborn : Kernel Memory
stubborn = record memory { disallow = λ a w. (some "busy", w) }

stubborn_run : unroute stubborn 167772162 routed ≡ (err "busy", routed)
unfolding unroute get
stubborn_run = refl

unroute_revokes_first_example :
    Blocked memory memory_laws 167772162 (unroute memory 167772162 routed).1
    ⊎ RevokeFailed memory memory_laws 167772162 routed (unroute memory 167772162 routed)
unroute_revokes_first_example =
    unroute_revokes_first memory memory_laws 167772162 routed routed-Tracks

ours_iff_example :
    (ours (plain_rule 167772162 1000 peer_rule_priority) ≡ true)
    ↔ Installed (plain_rule 167772162 1000 peer_rule_priority)
ours_iff_example = ours_iff (plain_rule 167772162 1000 peer_rule_priority)

ours_run : ours (plain_rule 167772162 1000 peer_rule_priority) ≡ true
unfolding ours plain_rule host_net same_rule
ours_run = refl

-- The peer moves to the other upstream: its rule is replaced, and its flows are pinned to the old
-- upstream, which is alive, and no longer to the new one.
moved_run :
    (route memory 167772162 "lm-up-b" routed).1.world.rules
    ≡ plain_rule 167772162 1001 peer_rule_priority ∷ pin_rule 167772162 1000 ∷ other ∷ []
unfolding route get any filter same_rule plain_rule pin_rule host_net
moved_run = refl
