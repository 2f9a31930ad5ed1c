-- ===== src/Store/Addressing.antt =====
-- internal/store/store.go: the addresses of the peers through every change of the tables.
use lotsman.Prelude.{
  ℕ, ◌+◌, ◌≤◌, ◌≡◌, ◌≢◌, refl, sym, inl, inr, Bool, true, false, Option, List, [], ◌∷◌, ◌++◌,
  String, filter, any, All, In, arith, Bool-cases, Option-cases, string_eq, subst, ◌==◌,
}
use lotsman.Net.{Addr, Prefix, contains, addr_limit}
use lotsman.Store.{
  Key, Tables, Row, Peer, Reply, done, err, Statement, create_user, delete_user, add_peer,
  is_broadcast, delete_peers, user_of, selects, insert, delete,
}
use lotsman.Store.Allocation.{IsAdded, add_peer_lem}

-- An address of the subnet that is not the network's, the gateway's or the broadcast address.
abbrev pub IsPeerAddr : Prefix → Addr → Type 0
IsPeerAddr subnet a =
    (contains subnet a ≡ true) × (subnet.addr + 2 ≤ a) × (is_broadcast subnet a ≡ false)

-- Every row has a peer's address of the subnet, and no other row has it.
abbrev pub Addressed : Prefix → List Row → Type 0
Addressed subnet [] = Unit
Addressed subnet (r ∷ rs) =
    IsPeerAddr subnet r.ip × All (λ (s : Row). r.ip ≢ s.ip) rs × Addressed subnet rs

All-filter :
    (P : Row → Type 0) (test : Row → Bool) (rs : List Row) → All P rs → All P (filter test rs)
unfolding filter
All-filter P test [] h = tt
All-filter P test (r ∷ rs) (p, h) = elim (Bool-cases (test r)) [
  | inl e ↦ rw (e, filter) (p, All-filter P test rs h)
  | inr e ↦ rw (e, filter) (All-filter P test rs h)
]

Addressed-filter :
    (subnet : Prefix) (test : Row → Bool) (rs : List Row)
    → Addressed subnet rs
    → Addressed subnet (filter test rs)
unfolding filter
Addressed-filter subnet test [] h = tt
Addressed-filter subnet test (r ∷ rs) (a, p, h) = elim (Bool-cases (test r)) [
  | inl e ↦
      rw (e, filter) (a, All-filter (λ s. r.ip ≢ s.ip) test rs p, Addressed-filter subnet test rs h)
  | inr e ↦ rw (e, filter) (Addressed-filter subnet test rs h)
]

All-last : (P : Row → Type 0) (rs : List Row) (r : Row) → All P rs → P r → All P (rs ++ r ∷ [])
All-last P [] r h p = (p, tt)
All-last P (s ∷ rs) r (q, h) p = (q, All-last P rs r h p)

Addressed-last :
    (subnet : Prefix) (rs : List Row) (r : Row)
    → Addressed subnet rs
    → IsPeerAddr subnet r.ip
    → ((s : Row) → In s rs → s.ip ≢ r.ip)
    → Addressed subnet (rs ++ r ∷ [])
Addressed-last subnet [] r h a n = (a, tt, tt)
Addressed-last subnet (s ∷ rs) r (b, p, h) a n = (
  b,
  All-last (λ (x : Row). s.ip ≢ x.ip) rs r p (n s (inl refl)),
  Addressed-last subnet rs r h a (λ x m. n x (inr m)),
)

IsAdded-Addressed :
    (subnet : Prefix) (user device profile : String) (t : Tables) (x : Reply Peer × Tables)
    → IsAdded subnet user device profile t x
    → Addressed subnet t.rows
    → Addressed subnet x.1.rows
IsAdded-Addressed subnet user device profile t (err e, t') (same, _) h =
    subst (λ (s : Tables). Addressed subnet s.rows) (sym same) h
IsAdded-Addressed subnet user device profile t (done p, t') (fresh, _, _, _, (r, e, i, _, _)) h =
    subst (λ (s : Tables). Addressed subnet s.rows) (sym e)
      (Addressed-last subnet t.rows r h
        (subst (IsPeerAddr subnet) (sym i) (fresh.inside, fresh.past_gateway, fresh.not_broadcast))
        (λ s m. subst (λ a. s.ip ≢ a) (sym i) (fresh.unused s m)))

module _ (fault : Statement → Option String) (subnet : Prefix) where
  add_peer-Addressed :
      (new_id : List ℕ → ℕ) (public : Key → Key) (key : Reply Key)
      (now user device profile : String) (t : Tables)
      → subnet.addr + 2 ≤ addr_limit
      → Addressed subnet t.rows
      → Addressed subnet (add_peer fault new_id public key now user device profile subnet t).1.rows
  unfolding add_peer
  add_peer-Addressed new_id public (err e) now user device profile t l h = h
  add_peer-Addressed new_id public (done priv) now user device profile t l h =
      IsAdded-Addressed subnet user device profile t
        (add_peer fault new_id public (done priv) now user device profile subnet t)
        (add_peer_lem fault subnet t user device profile new_id public (done priv) now
          (λ q. ground arith) l)
        h

  delete_peers-Addressed :
      (user device : String) (profile : Option String) (t : Tables)
      → Addressed subnet t.rows
      → Addressed subnet (delete_peers fault user device profile t).1.rows
  unfolding delete_peers
  delete_peers-Addressed user device profile t h = elim (Option-cases (fault delete)) [
    | inr (x, f) ↦ rw (f, delete_peers) h
    | inl f ↦ elim (Bool-cases (any (selects t.users user device profile) t.rows)) [
      | inl e ↦ rw (f, e, delete_peers) (Addressed-filter subnet _ t.rows h)
      | inr e ↦ rw (f, e, delete_peers) h
    ]
  ]

  delete_user-Addressed :
      (name : String) (t : Tables)
      → Addressed subnet t.rows
      → Addressed subnet (delete_user fault name t).1.rows
  unfolding delete_user
  delete_user-Addressed name t h = elim (Option-cases (fault delete)) [
    | inr (x, f) ↦ rw (f, delete_user) h
    | inl f ↦ elim (Option-cases (user_of t.users name)) [
      | inl g ↦ rw (f, g, delete_user) h
      | inr (u, g) ↦ rw (f, g, delete_user) (Addressed-filter subnet _ t.rows h)
    ]
  ]

  create_user-rows :
      (new_id : List ℕ → ℕ) (name now : String) (t : Tables)
      → (create_user fault new_id name now t).1.rows ≡ t.rows
  unfolding create_user
  create_user-rows new_id name now t = elim (Bool-cases (any (λ u. u.name == name) t.users)) [
    | inl e ↦ rw (e, create_user)
    | inr e ↦ elim (Option-cases (fault insert)) [
      | inr (x, f) ↦ rw (e, f, create_user)
      | inl f ↦ rw (e, f, create_user)
    ]
  ]

-- A change of the tables: a call of the store with its arguments, the subnet being the configured
-- one.
pub data Change : Type 0 where
  create : (List ℕ → ℕ) → String → String → Change
  drop : String → Change
  add : (List ℕ → ℕ) → (Key → Key) → Reply Key → String → String → String → String → Change
  remove : String → String → Option String → Change

unfoldable pub apply : Prefix → (Statement → Option String) → Change → Tables → Tables
unfolding create_user delete_user add_peer delete_peers
apply subnet fault (create new_id name now) t = (create_user fault new_id name now t).1
apply subnet fault (drop name) t = (delete_user fault name t).1
apply subnet fault (add new_id public key now user device profile) t =
    (add_peer fault new_id public key now user device profile subnet t).1
apply subnet fault (remove user device profile) t = (delete_peers fault user device profile t).1

unfoldable pub apply_all : Prefix → List ((Statement → Option String) × Change) → Tables → Tables
unfolding apply
apply_all subnet [] t = t
apply_all subnet ((fault, c) ∷ calls) t = apply_all subnet calls (apply subnet fault c t)

apply-Addressed :
    (subnet : Prefix) (fault : Statement → Option String) (c : Change) (t : Tables)
    → subnet.addr + 2 ≤ addr_limit
    → Addressed subnet t.rows
    → Addressed subnet (apply subnet fault c t).rows
unfolding apply
apply-Addressed subnet fault (create new_id name now) t l h =
    subst (Addressed subnet) (sym (create_user-rows fault subnet new_id name now t)) h
apply-Addressed subnet fault (drop name) t l h = delete_user-Addressed fault subnet name t h
apply-Addressed subnet fault (add new_id public key now user device profile) t l h =
    add_peer-Addressed fault subnet new_id public key now user device profile t l h
apply-Addressed subnet fault (remove user device profile) t l h =
    delete_peers-Addressed fault subnet user device profile t h

-- After any sequence of calls that create and delete users and peers, failing or not, with one subnet,
-- each peer has an address of the subnet to itself, which is not the network's, the gateway's or the
-- broadcast address, if that was so before.
pub apply_all-Addressed :
    (subnet : Prefix) (calls : List ((Statement → Option String) × Change)) (t : Tables)
    → subnet.addr + 2 ≤ addr_limit
    → Addressed subnet t.rows
    → Addressed subnet (apply_all subnet calls t).rows
unfolding apply_all
apply_all-Addressed subnet [] t l h = h
apply_all-Addressed subnet ((fault, c) ∷ calls) t l h =
    apply_all-Addressed subnet calls (apply subnet fault c t) l
      (apply-Addressed subnet fault c t l h)
