-- ===== src/Store/Allocation.antt =====
-- AddPeer of internal/store/store.go: what a peer that it returns looks like, and what it leaves.
use lotsman.Prelude.{
  ℕ, ◌+◌, ◌≤◌, ◌≡◌, ◌≢◌, refl, subst, ap, string_eq, true, false, Option, some, List, [], ◌∷◌, ◌++◌,
  map, String, In, inl, inr, arith, any, In-any, nat_eq, ◌==◌, Bool-cases, Option-cases,
}
use lotsman.Net.{Addr, Prefix, contains, addr_limit}
use lotsman.Store.{
  Key, Tables, User, Row, Peer, Reply, done, err, Statement, add_peer, allocate, insert_row,
  first_free, is_broadcast, user_of, conflicts, subnet_full, exists, Error, failed, not_found,
  begin, select_user, used_addresses, insert, commit,
}
use lotsman.Store.Address.{first_free_lem, IsFirst, IsTaken}

-- What AddPeer promises of a peer's address.
pub record IsFresh (subnet : Prefix) (t : Tables) (ip : Addr) : Type 0 where
  pub inside : contains subnet ip ≡ true
  pub past_gateway : subnet.addr + 2 ≤ ip
  pub not_broadcast : is_broadcast subnet ip ≡ false
  pub unused : (r : Row) → In r t.rows → r.ip ≢ ip

In-map_ip : (r : Row) (rows : List Row) → In r rows → In r.ip (map (λ x. x.ip) rows)
In-map_ip r [] m = m
In-map_ip r (x ∷ xs) m = grind (arith, In-map_ip r xs)

any_same :
    (ip : Addr) (rows : List Row)
    → any (λ u. u == ip) (map (λ r. r.ip) rows) ≡ false
    → (r : Row) → In r rows
    → r.ip ≢ ip
any_same ip rows h r m e = ground (
  arith,
  In-any (λ u. u == ip) r.ip (map (λ x. x.ip) rows) (In-map_ip r rows m),
  nat_eq.beq_iff r.ip ip,
)

IsFirst-IsFresh :
    (subnet : Prefix) (t : Tables) (ip : Addr)
    → IsFirst subnet (map (λ r. r.ip) t.rows) (subnet.addr + 2) (some ip)
    → IsFresh subnet t ip
IsFirst-IsFresh subnet t ip (i, free, past, _) = record {
  inside = i;
  past_gateway = past;
  not_broadcast = ground (arith, free);
  unused = any_same ip t.rows (ground (arith, free));
}

-- What AddPeer leaves and returns: a peer as asked for at a fresh address, whose row breaks no UNIQUE
-- constraint and is the only change, or an error and the tables as they were.
abbrev pub IsAdded : Prefix → String → String → String → Tables → Reply Peer × Tables → Type 0
IsAdded subnet user device profile t (done p, t') =
    IsFresh subnet t p.ip
    × (p.user ≡ user)
    × (p.device ≡ device)
    × (p.profile ≡ profile)
    × ((r : Row) × (t' ≡ record t { rows = t.rows ++ r ∷ [] })
        × (r.ip ≡ p.ip)
        × (r.public_key ≡ p.public_key)
        × (any (conflicts r) t.rows ≡ false))
IsAdded subnet user device profile t (err e, t') =
    (t' ≡ t)
    × (e ≡ subnet_full
        → (c : Addr) → subnet.addr + 2 ≤ c
        → contains subnet c ≡ true
        → IsTaken subnet (map (λ r. r.ip) t.rows) c)

module _ (fault : Statement → Option String) (subnet : Prefix) (t : Tables)
    (user device profile : String) where
  refused : (e : Error) → e ≢ subnet_full → IsAdded subnet user device profile t (err e, t)
  refused e n = (refl, λ q. absurd (n q))

  insert_row-IsAdded :
      (u : User) (r : Row)
      → u.name ≡ user
      → r.device ≡ device
      → r.profile ≡ profile
      → IsFresh subnet t r.ip
      → IsAdded subnet user device profile t (insert_row fault u r t)
  unfolding insert_row
  insert_row-IsAdded u r n d p h = elim (Bool-cases (any (conflicts r) t.rows)) [
    | inl e ↦ rw (e, insert_row) (refused exists (λ q. ground arith))
    | inr e ↦ elim (Option-cases (fault insert)) [
      | inr (x, f) ↦ rw (e, f, insert_row) (refused (failed x) (λ q. ground arith))
      | inl f ↦ elim (Option-cases (fault commit)) [
        | inr (x, g) ↦ rw (e, f, g, insert_row) (refused (failed x) (λ q. ground arith))
        | inl g ↦ rw (e, f, g, insert_row) (h, n, d, p, (r, refl, refl, refl, e))
      ]
    ]
  ]

  allocate-IsAdded :
      (new_id : List ℕ → ℕ) (public : Key → Key) (priv : Key) (now : String) (u : User)
      → u.name ≡ user
      → subnet.addr + 2 ≤ addr_limit
      → IsAdded subnet user device profile t
          (allocate fault new_id public priv now u device profile subnet t)
  unfolding allocate
  allocate-IsAdded new_id public priv now u n l =
      let first = first_free_lem subnet (map (λ r. r.ip) t.rows) l in
      elim (Option-cases (fault used_addresses)) [
        | inr (x, f) ↦ rw (f, allocate) (refused (failed x) (λ q. ground arith))
        | inl f ↦ elim (Option-cases (first_free subnet (map (λ r. r.ip) t.rows))) [
          | inl g ↦
              rw (f, g, allocate)
                (
                  refl,
                  λ _. subst (IsFirst subnet (map (λ r. r.ip) t.rows) (subnet.addr + 2)) g first,
                )
          | inr (ip, g) ↦
              rw (f, g, allocate)
                (insert_row-IsAdded u _ n refl refl (
                  IsFirst-IsFresh subnet t ip
                    (subst (IsFirst subnet (map (λ r. r.ip) t.rows) (subnet.addr + 2)) g first)))
        ]
      ]

  user_of-name : (us : List User) (u : User) → user_of us user ≡ some u → u.name ≡ user
  user_of-name [] u e = absurd (ground arith)
  user_of-name (x ∷ xs) u e = ground (arith, user_of-name xs u, string_eq.beq_iff x.name user)

  -- AddPeer returns a peer as asked for, at an address of the subnet that is no other peer's, nor the
  -- network, the gateway or the broadcast address, and then its row is the only change and meets the
  -- UNIQUE constraints; on any error nothing is changed, and it says that the subnet is full only if
  -- every address that it could hand out is taken.
  pub add_peer_lem :
      (new_id : List ℕ → ℕ) (public : Key → Key) (key : Reply Key) (now : String)
      → key ≢ err subnet_full
      → subnet.addr + 2 ≤ addr_limit
      → IsAdded subnet user device profile t
          (add_peer fault new_id public key now user device profile subnet t)
  unfolding add_peer
  add_peer_lem new_id public (err e) now n l = refused e (λ q. n (ap err q))
  add_peer_lem new_id public (done priv) now n l = elim (Option-cases (fault begin)) [
    | inr (x, f) ↦ rw (f, add_peer) (refused (failed x) (λ q. ground arith))
    | inl f ↦ elim (Option-cases (fault select_user)) [
      | inr (x, g) ↦ rw (f, g, add_peer) (refused (failed x) (λ q. ground arith))
      | inl g ↦ elim (Option-cases (user_of t.users user)) [
        | inl h ↦ rw (f, g, h, add_peer) (refused not_found (λ q. ground arith))
        | inr (u, h) ↦
            rw (f, g, h, add_peer)
              (allocate-IsAdded new_id public priv now u (user_of-name t.users u h) l)
      ]
    ]
  ]
