-- ===== src/Dataplane/Linux/Leading.antt =====
-- linux.go: where the rules of a peer lead once Route has succeeded.
use lotsman.Prelude.{◌≡◌, ◌≢◌, ◌⊎◌, true, List, ℕ, In, All, nat_eq, string_eq}
use lotsman.Net.{Addr}
use lotsman.Dataplane.Linux.Kernel.{Kernel, Rule}
use lotsman.Dataplane.Linux.Ownership.{peer_rule_priority}
use lotsman.Dataplane.Linux.Plane.{Plane}
use lotsman.Dataplane.Linux.Routing.{plain_rule}
use lotsman.Dataplane.Linux.Laws.{Laws}
use lotsman.Dataplane.Linux.Remaining.{Only}
use lotsman.Dataplane.Linux.Scanning.{Leads, Tracked}
use lotsman.Dataplane.Linux.Choosing.{Routing}

module _ {World : Type 0} (k : Kernel World) (laws : Laws k) (peer : Addr)
    (start : Plane World) where
  abbrev wanted : ℕ → Rule
  wanted table = plain_rule peer table peer_rule_priority

  -- The rules that route the peer.
  abbrev RoutedBy : (Rule → Type 0) → Plane World → Type 0
  RoutedBy P s = Only k laws (Routing k laws peer start) P s

  abbrev Dropping : ℕ → List Rule → Plane World → Type 0
  Dropping table rs s =
      All (λ (r : Rule). r.table ≢ table) rs
      × Leads k laws peer table s
      × RoutedBy (λ x. In x rs ⊎ (wanted table ≡ x)) s
      × Tracked k laws peer s

  -- The wanted rule was there before, or it is the only one left that routes the peer.
  abbrev pub IsLed : ℕ → Plane World → Type 0
  IsLed table s =
      Leads k laws peer table s
      × (Leads k laws peer table start ⊎ RoutedBy (λ x. wanted table ≡ x) s)
      × (laws.admits s.world peer ≡ true)
