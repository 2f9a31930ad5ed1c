-- ===== src/Daemon/Invariant.antt =====
-- What holds of the daemon between calls: the assignments, the device's peers and the host's
-- forwarding agree.
use lotsman.Prelude.{◌≡◌, ◌≢◌, ◌⊎◌, true, Option, none, some, String, In, arith, nat_eq, string_eq}
use lotsman.Prelude.Maps.{get, put, del, get-put, get-del}
use lotsman.Net.{Addr}
use lotsman.Config.{interface_name}
use lotsman.Dataplane.{Dataplane, Contract}
use lotsman.Daemon.{Daemon, Downstream, Upstream, Peer, Key}

-- The downstream device does not touch the host's forwarding.
pub record Independent {World : Type 0} (forwards : World → Addr → Option String)
    (down : Downstream World) : Type 0 where
  pub add_peer_keeps :
      (k : Key) (ip : Addr) (w : World) (a : Addr)
      → forwards (down.add_peer k ip w).1 a ≡ forwards w a
  pub remove_peer_keeps :
      (k : Key) (w : World) (a : Addr) → forwards (down.remove_peer k w).1 a ≡ forwards w a

module _ {World : Type 0} (forwards : World → Addr → Option String) where
  -- Some peer on the device has the address.
  abbrev pub Owned : Daemon World → Addr → Type 0
  Owned d a = (k : Key) × (p : Peer) × (get d.device_peers k ≡ some p) × (p.ip ≡ a)

  pub record IsValid (d : Daemon World) : Type 0 where
    pub named : (u : Upstream) → In u d.ups → u.device ≡ interface_name u.config.name
    pub names : (u : Upstream) → In u d.ups → u.config.name ≢ ""
    -- An address without an assignment is blocked.
    pub recorded : (a : Addr) → get d.assignments a ≡ none → forwards d.world a ≡ none
    -- An assigned address is forwarded through its upstream, unless an unroute of it is pending.
    pub exact :
        (a : Addr) (name : String)
        → get d.assignments a ≡ some name
        → (get d.unroute_pending a ≡ some true) ⊎ (forwards d.world a ≡ some (interface_name name))
    pub owned : (a : Addr) (name : String) → get d.assignments a ≡ some name → Owned d a
    pub assigned : (a : Addr) → get d.assignments a ≢ some ""

module _ {World : Type 0} (dp : Dataplane World) (c : Contract dp) where
  -- The two outcomes of unroute.
  abbrev pub unrouted : Addr → Daemon World → Daemon World
  unrouted ip d = record d {
    unroute_pending = del d.unroute_pending ip;
    assignments = del d.assignments ip;
    world = (dp.unroute ip d.world).1;
  }

  abbrev pub unroute_stuck : Addr → Daemon World → Daemon World
  unroute_stuck ip d = record d {
    unroute_pending = put d.unroute_pending ip true;
    world = (dp.unroute ip d.world).1;
  }

  pub unrouted-IsValid :
      (ip : Addr) (d : Daemon World)
      → (dp.unroute ip d.world).0 ≡ none
      → IsValid c.forwards d
      → IsValid c.forwards (unrouted ip d)
  unrouted-IsValid ip d e v = record {
    named = v.named;
    names = v.names;
    recorded = λ a h. ground (
      arith,
      get-del d.assignments ip a,
      c.unroute_blocks ip d.world e,
      c.unroute_others ip a d.world,
      v.recorded a,
    );
    exact = λ a name h. ground (
      arith,
      get-del d.assignments ip a,
      get-del d.unroute_pending ip a,
      c.unroute_others ip a d.world,
      v.exact a name,
    );
    owned = λ a name h. v.owned a name (ground (arith, get-del d.assignments ip a));
    assigned = λ a h. ground (arith, get-del d.assignments ip a, v.assigned a);
  }

  pub unroute_stuck-IsValid :
      (ip : Addr) (d : Daemon World)
      → IsValid c.forwards d
      → IsValid c.forwards (unroute_stuck ip d)
  unroute_stuck-IsValid ip d v = record {
    named = v.named;
    names = v.names;
    recorded = λ a h.
        ground (arith, c.unroute_fails ip d.world, c.unroute_others ip a d.world, v.recorded a);
    exact = λ a name h.
        ground (
          arith,
          get-put d.unroute_pending ip true a,
          c.unroute_others ip a d.world,
          v.exact a name,
        );
    owned = v.owned;
    assigned = v.assigned;
  }
