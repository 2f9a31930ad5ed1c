-- ===== src/Store/Tests.antt =====
-- Runs of the store, and its theorems at concrete inputs.
use lotsman.Prelude.{List, any, ◌+◌, ◌≡◌, ◌≢◌, refl, Option, none, some, [], ◌∷◌, String, arith}
use lotsman.Net.{Prefix, contains}
use lotsman.Store.{
  Tables, Key, Reply, done, err, subnet_full, Statement, add_peer, first_free, is_broadcast,
}
use lotsman.Store.Address.{IsFirst, first_free_lem}
use lotsman.Store.Addressing.{Addressed, Change, add, remove, apply_all, apply_all-Addressed}
use lotsman.Store.Allocation.{IsAdded, add_peer_lem}

-- 10.77.0.0/29
abbrev small : Prefix
small = record { addr = 172818432; bits = 29 }

abbrev users_only : Tables
users_only = record { users = record { id = 1; name = "alice"; created_at = "" } ∷ []; rows = [] }

-- Past the gateway and the first peer; and .7 is the broadcast address.
second_run : first_free small (172818434 ∷ []) ≡ some 172818435
unfolding first_free contains any is_broadcast
second_run = refl

full_run : first_free small (172818434 ∷ 172818435 ∷ 172818436 ∷ 172818437 ∷ 172818438 ∷ []) ≡ none
unfolding first_free contains any is_broadcast
full_run = refl

first_free_lem_example :
    IsFirst small (172818434 ∷ []) (172818432 + 2) (first_free small (172818434 ∷ []))
first_free_lem_example = first_free_lem small (172818434 ∷ []) (omega arith)

abbrev no_fault : Statement → Option String
no_fault s = none

abbrev generated : Reply Key
generated = done 5

generated_done : generated ≢ err subnet_full
generated_done e = ground arith

add_peer_lem_example :
    IsAdded small "alice" "phone" "web" users_only (
      add_peer no_fault (λ ids. 1) (λ k. k + 1) generated "" "alice" "phone" "web" small users_only)
add_peer_lem_example =
    add_peer_lem no_fault small users_only "alice" "phone" "web" (λ ids. 1) (λ k. k + 1) generated
      "" generated_done (omega arith)

-- alice's phone is added, then her tablet, then the phone is removed.
abbrev calls : List ((Statement → Option String) × Change)
calls =
    (no_fault, add (λ ids. 1) (λ k. k + 1) generated "" "alice" "phone" "web")
    ∷ (no_fault, add (λ ids. 2) (λ k. k + 1) (done 9) "" "alice" "tablet" "web")
    ∷ (no_fault, remove "alice" "phone" none)
    ∷ []

apply_all-Addressed_example : Addressed small (apply_all small calls users_only).rows
apply_all-Addressed_example = apply_all-Addressed small calls users_only (omega arith) tt
