-- ===== src/Store.antt =====
-- internal/store/store.go: the two tables of the schema and the queries on them. A row holds the
-- decoded values of its columns. `fault` says which statement SQLite fails, for another reason than
-- a UNIQUE constraint, `new_id` is the row id it chooses, and `public` the public half of a key.
pub mod Address
pub mod Allocation
pub mod Addressing
pub mod Queries
pub mod Tests
use lotsman.Prelude.{
  ℕ, ◌+◌, ◌-◌, suc, zero, Bool, true, false, not, ◌&&◌, ◌||◌, Option, none, some, List, [], ◌∷◌,
  ◌++◌, map, String, any, filter, find, ◌==◌, nat_eq, string_eq, if◌then◌else◌, ltb,
}
use lotsman.Net.{Addr, Prefix, next, contains, addr_limit}

abbrev pub Key : Type 0
Key = ℕ

pub record User : Type 0 where
  pub id : ℕ
  pub name : String
  pub created_at : String

-- A row of `peers`.
pub record Row : Type 0 where
  pub id : ℕ
  pub user_id : ℕ
  pub device : String
  pub profile : String
  pub private_key : Key
  pub public_key : Key
  pub ip : Addr
  pub created_at : String

pub record Tables : Type 0 where
  pub users : List User
  pub rows : List Row

pub record Peer : Type 0 where
  pub id : ℕ
  pub user : String
  pub device : String
  pub profile : String
  pub private_key : Key
  pub public_key : Key
  pub ip : Addr
  pub created_at : String

pub data Error : Type 0 where
  not_found exists subnet_full : Error
  failed : String → Error

pub data Reply (A : Type 0) : Type 0 where
  done : A → Reply A
  err : Error → Reply A

pub data Statement : Type 0 where
  begin select_user used_addresses insert commit delete select : Statement

unfoldable pub is_broadcast : Prefix → Addr → Bool
unfolding contains next
is_broadcast subnet a = not (contains subnet (next a))

-- The loop of firstFree. An address that the prefix contains lies below 2 ^ 32 and the next is one
-- more, so `addr_limit - a` rounds are enough.
unfoldable pub free_from : ℕ → Prefix → List Addr → Addr → Option Addr
free_from zero subnet used a = none
free_from (suc fuel) subnet used a = elim (contains subnet a) [
  | false ↦ none
  | true ↦ elim (not (any (λ u. u == a) used) && not (is_broadcast subnet a)) [
    | true ↦ some a
    | false ↦ free_from fuel subnet used (next a)
  ]
]

-- Past the network address and the gateway.
unfoldable pub first_free : Prefix → List Addr → Option Addr
unfolding free_from next
first_free subnet used = let a = next (next subnet.addr) in free_from (addr_limit - a) subnet used a

-- The UNIQUE constraints of `peers`.
unfoldable pub conflicts : Row → Row → Bool
conflicts new old =
    (new.public_key == old.public_key)
    || (new.ip == old.ip)
    || ((new.user_id == old.user_id) && (new.device == old.device) && (new.profile == old.profile))

abbrev pub user_of : List User → String → Option User
user_of users name = find (λ u. u.name == name) users

-- The rows that a statement's WHERE clause selects: of the user's devices one, and of its profiles
-- one or all.
unfoldable pub selects : List User → String → String → Option String → Row → Bool
selects users user device profile r = elim (user_of users user) [
  | none ↦ false
  | some u ↦
      r.user_id == u.id
      && r.device == device
      && elim profile [ none ↦ true | some p ↦ r.profile == p ]
]

module _ (fault : Statement → Option String) where
  unfoldable pub create_user : (List ℕ → ℕ) → String → String → Tables → Reply User × Tables
  unfolding any
  create_user new_id name now t =
      if any (λ u. u.name == name) t.users then (err exists, t) else elim (fault insert) [
        | some e ↦ (err (failed e), t)
        | none ↦
            let u : User = record {
              id = new_id (map (λ u. u.id) t.users);
              name = name;
              created_at = now;
            } in
            (done u, record t { users = t.users ++ u ∷ [] })
      ]

  -- The schema deletes the user's peers with the user.
  unfoldable pub delete_user : String → Tables → Option Error × Tables
  unfolding filter
  delete_user name t = elim (fault delete) [
    | some e ↦ (some (failed e), t)
    | none ↦ elim (user_of t.users name) [
      | none ↦ (some not_found, t)
      | some u ↦ (
        none,
        record {
          users = filter (λ v. not (v.name == name)) t.users;
          rows = filter (λ r. not (r.user_id == u.id)) t.rows;
        },
      )
    ]
  ]

  -- The INSERT and the commit of AddPeer; an error rolls the transaction back.
  unfoldable pub insert_row : User → Row → Tables → Reply Peer × Tables
  unfolding conflicts any
  insert_row u r t = if any (conflicts r) t.rows then (err exists, t) else elim (fault insert) [
    | some e ↦ (err (failed e), t)
    | none ↦ elim (fault commit) [
      | some e ↦ (err (failed e), t)
      | none ↦ (
        done (record {
          id = r.id;
          user = u.name;
          device = r.device;
          profile = r.profile;
          private_key = r.private_key;
          public_key = r.public_key;
          ip = r.ip;
          created_at = r.created_at;
        }),
        record t { rows = t.rows ++ r ∷ [] },
      )
    ]
  ]

  unfoldable pub allocate :
      (List ℕ → ℕ)
      → (Key → Key)
      → Key
      → String
      → User
      → String
      → String
      → Prefix
      → Tables
      → Reply Peer × Tables
  unfolding first_free insert_row
  allocate new_id public priv now u device profile subnet t = elim (fault used_addresses) [
    | some e ↦ (err (failed e), t)
    | none ↦ elim (first_free subnet (map (λ r. r.ip) t.rows)) [
      | none ↦ (err subnet_full, t)
      | some ip ↦
          let r : Row = record {
            id = new_id (map (λ r. r.id) t.rows);
            user_id = u.id;
            device = device;
            profile = profile;
            private_key = priv;
            public_key = public priv;
            ip = ip;
            created_at = now;
          } in
          insert_row u r t
    ]
  ]

  -- AddPeer, with what the key generation returned.
  unfoldable pub add_peer :
      (List ℕ → ℕ)
      → (Key → Key)
      → Reply Key
      → String
      → String
      → String
      → String
      → Prefix
      → Tables
      → Reply Peer × Tables
  unfolding allocate
  add_peer new_id public (err e) now user device profile subnet t = (err e, t)
  add_peer new_id public (done priv) now user device profile subnet t = elim (fault begin) [
    | some e ↦ (err (failed e), t)
    | none ↦ elim (fault select_user) [
      | some e ↦ (err (failed e), t)
      | none ↦ elim (user_of t.users user) [
        | none ↦ (err not_found, t)
        | some u ↦ allocate new_id public priv now u device profile subnet t
      ]
    ]
  ]

  -- DeletePeer with a profile, DeleteDevice without.
  unfoldable pub delete_peers : String → String → Option String → Tables → Option Error × Tables
  unfolding selects any filter
  delete_peers user device profile t = elim (fault delete) [
    | some e ↦ (some (failed e), t)
    | none ↦
        if any (selects t.users user device profile) t.rows
        then (
          none,
          record t { rows = filter (λ r. not (selects t.users user device profile r)) t.rows },
        )
        else (some not_found, t)
  ]
