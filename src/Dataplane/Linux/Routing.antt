-- ===== src/Dataplane/Linux/Routing.antt =====
-- linux.go: the rules of one peer, and the calls Route, Unroute and SetAlive.
use lotsman.Prelude.{
  ℕ, ◌^◌, ◌%◌, Bool, true, false, not, ◌&&◌, ◌||◌, Option, none, some, List, [], ◌∷◌, ◌++◌, String,
  ◌==◌, filter, nat_eq, string_eq, if◌then◌else◌,
}
use lotsman.Prelude.Maps.{Map, get, put, del}
use lotsman.Net.{Addr}
use lotsman.Dataplane.Linux.Kernel.{Kernel, Rule, family_v4, full_mask, new_rule}
use lotsman.Dataplane.Linux.Ownership.{
  pin_rule_priority, peer_rule_priority, host_net, ours, interface_of_table,
  probe_deletion_ambiguous,
}
use lotsman.Dataplane.Linux.Plane.{
  Outcome, ok, err, Act, ◌>>=◌, ◌>>◌, pure, gets, lift, call, read, call_add, for_each,
}

abbrev pub same_bool : Bool → Bool → Bool
same_bool true b = b
same_bool false b = not b

abbrev pub or_false : Option Bool → Bool
or_false none = false
or_false (some b) = b

-- The rule belongs to an upstream of this instance.
unfoldable pub is_own : Map String ℕ → Rule → Bool
unfolding ours interface_of_table
is_own tables r =
    let upstream = interface_of_table tables r.table in
    ours r && not (upstream == "") && (r.oif_name == "" || r.oif_name == upstream)

-- The loop of ownRules over the rest of the rules.
unfoldable pub own_from : Map String ℕ → List Rule → List Rule → Outcome (List Rule)
unfolding is_own probe_deletion_ambiguous
own_from tables all [] = ok []
own_from tables all (r ∷ rs) =
    let rest = own_from tables all rs in
    if is_own tables r
    then (if probe_deletion_ambiguous r all
        then err "ambiguous probe rule: manual cleanup required"
        else elim rest [ ok out ↦ ok (r ∷ out) | err e ↦ err e ])
    else rest

-- The rule's source is the peer's address.
unfoldable pub is_from : Addr → Rule → Bool
is_from peer r = elim r.src [ none ↦ false | some n ↦ n.ip == peer ]

unfoldable pub is_of_peer : Addr → Rule → Bool
unfolding is_from
is_of_peer peer r =
    (r.priority == peer_rule_priority || r.priority == pin_rule_priority) && is_from peer r

-- What addRule and addPinRule hand to netlink.RuleAdd.
unfoldable pub plain_rule : Addr → ℕ → ℕ → Rule
unfolding host_net
plain_rule src table priority = record new_rule {
  family = family_v4;
  src = some (host_net src);
  table = table;
  priority = priority;
}

unfoldable pub pin_rule : Addr → ℕ → Rule
unfolding host_net
pin_rule peer table = record new_rule {
  family = family_v4;
  src = some (host_net peer);
  mark = some (table % 2 ^ 32);
  mask = some full_mask;
  table = table;
  priority = pin_rule_priority;
}

module _ {World : Type 0} (k : Kernel World) where
  unfoldable pub own_rules : Act World (List Rule)
  unfolding ◌>>=◌ read own_from
  own_rules = do
    all ← read k.rule_list
    tables ← gets (λ d. d.tables)
    lift (own_from tables all all)

  unfoldable pub rules_for : Addr → Act World (List Rule)
  unfolding own_rules is_of_peer filter
  rules_for peer = do all ← own_rules; pure (filter (is_of_peer peer) all)

  unfoldable pub rule_del : Rule → Act World (Unit {0})
  unfolding call
  rule_del r = call (k.rule_del r)

  unfoldable pub add_rule : Addr → ℕ → ℕ → Act World (Unit {0})
  unfolding call_add plain_rule
  add_rule src table priority = call_add (k.rule_add (plain_rule src table priority))

  unfoldable pub add_pin_rule : Addr → ℕ → Act World (Unit {0})
  unfolding call_add pin_rule
  add_pin_rule peer table = call_add (k.rule_add (pin_rule peer table))

  -- Admitting a peer, and revoking it.
  unfoldable pub set_allowed : Addr → Bool → Act World (Unit {0})
  set_allowed peer allowed d = (
    ok tt,
    record d { allowed = if allowed then put d.allowed peer true else del d.allowed peer },
  )

  unfoldable pub authorize : Addr → Bool → Act World (Unit {0})
  unfolding call set_allowed ◌>>=◌
  authorize peer allowed d =
      if same_bool (or_false (get d.allowed peer)) allowed
      then (ok tt, d)
      else (call (if allowed then k.allow peer else k.disallow peer) >> set_allowed peer allowed) d

  unfoldable pub unroute : Addr → Act World (Unit {0})
  unfolding authorize rules_for for_each rule_del
  unroute peer = do authorize peer false; rules ← rules_for peer; for_each rules rule_del

  -- The first loop of Route, with the old rules so far: `none` when it has met the rule that is
  -- wanted, where Route returns early.
  unfoldable pub scan : ℕ → List Rule → List Rule → Act World (Option (List Rule))
  unfolding rule_del ◌>>=◌
  scan table [] old = pure (some old)
  scan table (r ∷ rs) old =
      if r.priority == peer_rule_priority && r.table == table
      then pure none
      else let onward =
          scan table rs (if r.priority == peer_rule_priority then old ++ r ∷ [] else old) in
        if not (r.priority == peer_rule_priority)
          && r.priority == pin_rule_priority
          && r.table == table
        then rule_del r >> onward
        else onward

  -- A pin for a flow that the peer has open, if the upstream that it leaves is alive.
  unfoldable pub keep_flow : Addr → Rule → Act World (Unit {0})
  unfolding add_pin_rule interface_of_table
  keep_flow peer r d =
      if or_false (get d.alive (interface_of_table d.tables r.table))
      then add_pin_rule peer r.table d
      else (ok tt, d)

  unfoldable pub replace_rules : Addr → ℕ → Option (List Rule) → Act World (Unit {0})
  unfolding for_each keep_flow add_rule rule_del authorize
  replace_rules peer table none = authorize peer true
  replace_rules peer table (some old) = do
    for_each old (keep_flow peer)
    add_rule peer table peer_rule_priority
    for_each old rule_del
    authorize peer true

  unfoldable pub table_of : String → Act World ℕ
  table_of upstream d = elim (get d.tables upstream) [
    | none ↦ (err "unknown upstream", d)
    | some table ↦ (ok table, d)
  ]

  unfoldable pub route : Addr → String → Act World (Unit {0})
  unfolding table_of rules_for scan replace_rules
  route peer upstream = do
    table ← table_of upstream
    rules ← rules_for peer
    old ← scan table rules []
    replace_rules peer table old

  unfoldable pub remember_alive : String → Bool → Act World (Unit {0})
  remember_alive upstream alive d = (ok tt, record d { alive = put d.alive upstream alive })

  unfoldable pub set_alive : String → Bool → Act World (Unit {0})
  unfolding table_of own_rules for_each rule_del remember_alive filter
  set_alive upstream alive = do
    table ← table_of upstream
    remember_alive upstream alive
    if alive then pure tt else do
      all ← own_rules
      for_each (filter (λ r. r.priority == pin_rule_priority && r.table == table) all) rule_del
