-- ===== src/Store/Queries.antt =====
-- The queries of internal/store/store.go: ListPeers and Peer. `fault` is the error of the
-- statement, if it fails. ORDER BY is an insertion sort; SQLite compares texts byte by byte.
use lotsman.Prelude.{
  Bool, true, false, Option, none, some, List, [], ◌∷◌, String, find, filter, ◌==◌, ◌&&◌, nat_eq,
  string_eq, if◌then◌else◌, Ordering,
}
use lotsman.Policy.{compare_text}
use lotsman.Store.{User, Row, Tables, Peer, Reply, done, err, failed, not_found}

-- FROM peers p JOIN users u ON u.id = p.user_id: the row as a peer, if it has its user.
unfoldable pub joined : List User → Row → Option Peer
joined users r = elim (find (λ u. u.id == r.user_id) users) [
  | none ↦ none
  | some u ↦ some (record {
    id = r.id;
    user = u.name;
    device = r.device;
    profile = r.profile;
    private_key = r.private_key;
    public_key = r.public_key;
    ip = r.ip;
    created_at = r.created_at;
  })
]

unfoldable pub all_joined : List User → List Row → List Peer
unfolding joined
all_joined users [] = []
all_joined users (r ∷ rs) =
    let rest = all_joined users rs in elim (joined users r) [ none ↦ rest | some p ↦ p ∷ rest ]

abbrev or_then : Ordering → Ordering → Ordering
or_then Ordering.eq o = o
or_then Ordering.lt o = Ordering.lt
or_then Ordering.gt o = Ordering.gt

-- ORDER BY u.name, p.device, p.profile
unfoldable pub after : Peer → Peer → Bool
unfolding compare_text
after p q =
    elim (or_then (compare_text p.user q.user)
      (or_then (compare_text p.device q.device) (compare_text p.profile q.profile))) [
        | Ordering.gt ↦ true
        | _ ↦ false
      ]

unfoldable pub insert_ordered : Peer → List Peer → List Peer
unfolding after
insert_ordered p [] = p ∷ []
insert_ordered p (q ∷ qs) =
    let rest = insert_ordered p qs in if after p q then q ∷ rest else p ∷ q ∷ qs

unfoldable pub order : List Peer → List Peer
unfolding insert_ordered
order [] = []
order (p ∷ ps) = insert_ordered p (order ps)

unfoldable pub query_peers : Option String → (Peer → Bool) → Tables → Reply (List Peer)
unfolding all_joined order filter
query_peers (some e) test t = err (failed e)
query_peers none test t = done (order (filter test (all_joined t.users t.rows)))

unfoldable pub list_peers : Option String → Tables → Reply (List Peer)
unfolding query_peers
list_peers fault t = query_peers fault (λ p. true) t

abbrev first_or_none : Reply (List Peer) → Reply Peer
first_or_none (err e) = err e
first_or_none (done []) = err not_found
first_or_none (done (p ∷ ps)) = done p

unfoldable pub peer : Option String → String → String → String → Tables → Reply Peer
unfolding query_peers
peer fault user device profile t =
    first_or_none
      (query_peers fault (λ p. p.user == user && p.device == device && p.profile == profile) t)
