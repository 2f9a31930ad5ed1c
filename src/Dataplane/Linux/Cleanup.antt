-- ===== src/Dataplane/Linux/Cleanup.antt =====
-- linux.go: the tables that Lotsman takes, and the removal of what it or an earlier run put there.
use lotsman.Prelude.{
  ℕ, zero, suc, ◌+◌, ◌-◌, true, not, ◌&&◌, Option, none, some, List, [], ◌∷◌, String, ◌==◌, filter,
  nat_eq, string_eq, if◌then◌else◌,
}
use lotsman.Prelude.Maps.{Map, get, del}
use lotsman.Dataplane.Linux.Kernel.{Kernel, Rule, KernelRoute}
use lotsman.Dataplane.Linux.Ownership.{
  table_base, table_limit, in_range, ours, our_route, owned_table, interface_of_table,
  probe_deletion_ambiguous, probe_table_matches, table_busy,
}
use lotsman.Dataplane.Linux.Plane.{
  Outcome, ok, err, Act, ◌>>=◌, ◌>>◌, pure, raise, gets, lift, call, read, for_each,
}
use lotsman.Dataplane.Linux.Routing.{own_rules, rule_del}

-- The loop of allocateTable over the table ids from `t`, `n` of them left.
unfoldable pub first_free : Map String ℕ → List KernelRoute → List Rule → ℕ → ℕ → Option ℕ
unfolding interface_of_table table_busy
first_free tables routes rules zero t = none
first_free tables routes rules (suc n) t =
    let rest = first_free tables routes rules n (t + 1) in
    if interface_of_table tables t == "" && not (table_busy t routes rules) then some t else rest

-- The loop of removeLeftovers that collects the rules to delete.
unfoldable pub leftover_rules :
    List Rule → List KernelRoute → Map ℕ String → List Rule → Outcome (List Rule)
unfolding ours owned_table probe_table_matches probe_deletion_ambiguous
leftover_rules all routes names [] = ok []
leftover_rules all routes names (r ∷ rs) =
    let rest = leftover_rules all routes names rs in
    if ours r && owned_table r.table routes names && probe_table_matches r routes names
    then (if probe_deletion_ambiguous r all
        then err "ambiguous probe rule: manual cleanup required"
        else elim rest [ ok out ↦ ok (r ∷ out) | err e ↦ err e ])
    else rest

module _ {World : Type 0} (k : Kernel World) where
  -- rangeRoutes(table): the routes of the tables in range, or of one table if it is not zero.
  unfoldable pub range_routes : ℕ → Act World (List KernelRoute)
  unfolding in_range filter read ◌>>=◌
  range_routes table = do
    all ← read k.route_list
    pure (filter (λ r. in_range r.table && (if table == 0 then true else r.table == table)) all)

  unfoldable pub allocate_table : Act World ℕ
  unfolding range_routes first_free
  allocate_table = do
    routes ← range_routes 0
    rules ← read k.rule_list
    tables ← gets (λ d. d.tables)
    elim (first_free tables routes rules (table_limit - table_base) table_base) [
      | none ↦ raise "no free routing table"
      | some t ↦ pure t
    ]

  unfoldable pub route_del : KernelRoute → Act World (Unit {0})
  unfolding call
  route_del r = call (k.route_del r)

  unfoldable pub flush_table : ℕ → Act World (Unit {0})
  unfolding range_routes for_each route_del our_route
  flush_table table = do
    routes ← range_routes table
    names ← read k.link_names
    for_each (filter (λ r. our_route r names) routes) route_del

  unfoldable pub forget_upstream : String → Act World (Unit {0})
  forget_upstream name d =
      (ok tt, record d { tables = del d.tables name; alive = del d.alive name })

  -- `table := d.tables[name]`
  abbrev pub table_or_zero : Option ℕ → ℕ
  table_or_zero none = 0
  table_or_zero (some t) = t

  unfoldable pub remove_upstream : String → Act World (Unit {0})
  unfolding own_rules rule_del flush_table forget_upstream
  remove_upstream name = do
    table ← gets (λ d. table_or_zero (get d.tables name))
    rules ← own_rules k
    for_each (filter (λ r. r.table == table) rules) (rule_del k)
    flush_table table
    forget_upstream name

  unfoldable pub remove_leftovers : Act World (Unit {0})
  unfolding range_routes leftover_rules rule_del route_del
  remove_leftovers = do
    routes ← range_routes 0
    names ← read k.link_names
    rules ← read k.rule_list
    owned ← lift (leftover_rules rules routes names rules)
    for_each owned (rule_del k)
    for_each (filter (λ r. owned_table r.table routes names) routes) route_del
