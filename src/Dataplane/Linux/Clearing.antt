-- ===== src/Dataplane/Linux/Clearing.antt =====
-- linux.go: what Unroute leaves of a peer once it has succeeded.
use lotsman.Prelude.{◌⊎◌, List, In}
use lotsman.Net.{Addr}
use lotsman.Dataplane.Linux.Kernel.{Kernel, Rule}
use lotsman.Dataplane.Linux.Plane.{Plane}
use lotsman.Dataplane.Linux.Laws.{Laws}
use lotsman.Dataplane.Linux.Listing.{IsPeerRule}
use lotsman.Dataplane.Linux.Remaining.{Only}

module _ {World : Type 0} (k : Kernel World) (laws : Laws k) (peer : Addr)
    (start : Plane World) where
  abbrev Kind : Rule → Type 0
  Kind = IsPeerRule k laws peer start.tables

  abbrev Left : List Rule → Plane World → Type 0
  Left rs s = Only k laws Kind (λ x. In x rs ⊎ ⊥) s
