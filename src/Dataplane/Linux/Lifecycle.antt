-- ===== src/Dataplane/Linux/Lifecycle.antt =====
-- linux.go: Setup, SetUpstreams, addUpstream and Teardown. What they ask of the links, of the
-- sysctls and of the firewall as a whole is a parameter.
use lotsman.Prelude.{
  ℕ, not, Option, none, some, List, [], ◌∷◌, ◌++◌, map, String, ◌==◌, any, ℤ, pos, nat_eq,
  string_eq, if◌then◌else◌, filter,
}
use lotsman.Prelude.Maps.{Map, get, put}
use lotsman.Dataplane.Interfaces.{Interface}
use lotsman.Dataplane.Linux.Kernel.{Kernel, Rule}
use lotsman.Dataplane.Linux.Ownership.{probe_rule_priority}
use lotsman.Dataplane.Linux.Plane.{
  Plane, Outcome, ok, err, Act, ◌>>=◌, ◌>>◌, pure, gets, call, call_add, for_each,
}
use lotsman.Dataplane.Linux.Routing.{own_rules, plain_rule}
use lotsman.Dataplane.Linux.Cleanup.{allocate_table, flush_table, remove_upstream, remove_leftovers}

-- LinkByName: the index, LinkNotFoundError, or another error.
pub data Link : Type 0 where
  link : ℕ → Link
  missing broken : String → Link

-- `configure` is configureLink, `default_route` addDefaultRoute, `install` what installFirewall does up
-- to its Flush, `open_chains` openForeignForwardChains, `upstream_sets` setUpstreamSets, `disable` LinkSetDown, `close_firewall` the end of teardown.
pub record Host (World : Type 0) : Type 0 where
  pub forward_packets : World → Option String × World
  pub link_by_name : String → World → Link
  pub set_mtu : ℕ → ℤ → World → Option String × World
  pub configure : Interface → ℤ → World → Option String × World
  pub default_route : ℕ → ℕ → World → Option String × World
  pub install : String → List Interface → World → Option String × World
  pub open_chains : String → World → Option String × World
  pub upstream_sets : List Interface → Map String ℕ → World → Option String × World
  pub disable : ℕ → World → Option String × World
  pub close_firewall : World → Option String × World

module _ {World : Type 0} (k : Kernel World) (h : Host World) where
  unfoldable pub find_link : String → Act World ℕ
  find_link name d = elim (h.link_by_name name d.world) [
    | link i ↦ (ok i, d)
    | missing e ↦ (err e, d)
    | broken e ↦ (err e, d)
  ]

  unfoldable pub set_table : String → ℕ → Act World (Unit {0})
  set_table name table d = (ok tt, record d { tables = put d.tables name table })

  -- The table of an interface that is known, or a new one.
  unfoldable pub known_table : String → Act World ℕ
  unfolding allocate_table set_table ◌>>=◌
  known_table name d = elim (get d.tables name) [
    | some table ↦ (ok table, d)
    | none ↦ (allocate_table k >>= λ table. set_table name table >> pure table) d
  ]

  unfoldable pub add_upstream : Interface → Act World (Unit {0})
  unfolding known_table find_link call call_add plain_rule
  add_upstream up = do
    call (h.configure up (pos 0))
    table ← known_table up.name
    index ← find_link up.name
    call (h.default_route index table)
    call_add (
        k.rule_add
          (record (plain_rule up.addr.addr table probe_rule_priority) { oif_name = up.name }))

  unfoldable pub set_down : String → Act World (Unit {0})
  set_down name d = (ok tt, record d { down = name })

  -- `d.tables = …; d.alive = …`
  unfoldable pub forget_all : Act World (Unit {0})
  forget_all d = (ok tt, record d { tables = []; alive = [] })

  -- A new firewall has no authorized peer.
  unfoldable pub forget_allowed : Act World (Unit {0})
  forget_allowed d = (ok tt, record d { allowed = [] })

  unfoldable pub install_firewall : String → List Interface → Act World (Unit {0})
  unfolding call forget_allowed ◌>>=◌
  install_firewall down ups =
      call (h.install down ups) >> forget_allowed >> call (h.open_chains down)

  unfoldable pub setup : Interface → List Interface → ℤ → Act World (Unit {0})
  unfolding add_upstream set_down forget_all install_firewall remove_leftovers for_each
  setup down ups mtu = do
    call h.forward_packets
    set_down down.name
    call (h.configure down mtu)
    forget_all
    remove_leftovers k
    for_each ups add_upstream
    install_firewall down.name ups

  unfoldable pub set_upstreams : List Interface → ℤ → Act World (Unit {0})
  unfolding add_upstream find_link remove_upstream for_each any
  set_upstreams ups mtu = do
    down ← gets (λ d. d.down)
    index ← find_link down
    call (h.set_mtu index mtu)
    for_each ups add_upstream
    names ← gets (λ d. map (λ e. e.0) d.tables)
    for_each (filter (λ name. not (any (λ u. u.name == name) ups)) names) (remove_upstream k)
    tables ← gets (λ d. d.tables)
    call (h.upstream_sets ups tables)

  -- Ingress is stopped first; a downstream link that is gone is no obstacle.
  unfoldable pub stop_ingress : Act World (Unit {0})
  unfolding call
  stop_ingress d = if d.down == "" then (ok tt, d) else elim (h.link_by_name d.down d.world) [
    | link i ↦ call (h.disable i) d
    | missing e ↦ (ok tt, d)
    | broken e ↦ (err e, d)
  ]

  -- The calls whose errors teardown joins and goes on.
  abbrev error_of : Outcome (Unit {0}) → List String
  error_of (ok _) = []
  error_of (err e) = e ∷ []

  unfoldable pub each_joined :
      {A : Type 0} → List A → (A → Act World (Unit {0})) → Plane World → List String × Plane World
  each_joined [] f d = ([], d)
  each_joined (x ∷ xs) f d =
      let (r, d') = f x d in let (errs, d'') = each_joined xs f d' in (error_of r ++ errs, d'')

  unfoldable pub clean : List Rule → Plane World → List String × Plane World
  unfolding each_joined call flush_table
  clean rules d =
      let (a, d1) = each_joined rules (λ r. call (k.rule_del r)) d in
      let (b, d2) = each_joined (map (λ e. e.1) d1.tables) (flush_table k) d1 in
      let (c, d3) = call h.close_firewall d2 in (a ++ b ++ error_of c, d3)

  abbrev clean_listed : Outcome (List Rule) × Plane World → List String × Plane World
  clean_listed (err e, d) = (e ∷ [], d)
  clean_listed (ok rules, d) = clean rules d

  abbrev tear_rest : Outcome (Unit {0}) × Plane World → List String × Plane World
  tear_rest (err e, d) = (e ∷ [], d)
  tear_rest (ok _, d) = clean_listed (own_rules k d)

  -- Teardown: the errors joined, none on success.
  unfoldable pub teardown : Plane World → List String × Plane World
  unfolding stop_ingress own_rules clean
  teardown d = tear_rest (stop_ingress d)
