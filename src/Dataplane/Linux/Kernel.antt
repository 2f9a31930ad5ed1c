-- ===== src/Dataplane/Linux/Kernel.antt =====
-- The kernel's tables as internal/dataplane/linux/linux.go meets them through netlink and nftables,
-- libraries that stand outside the repository: their calls are the fields of a record.
use lotsman.Prelude.{
  ℕ, ◌^◌, ◌-◌, Bool, true, false, ◌&&◌, Option, none, some, List, String, ◌==◌, nat_eq, string_eq,
}
use lotsman.Net.{Addr}

-- A net.IPNet: the address, and the ones and the bits of its mask.
pub record IpNet : Type 0 where
  pub ip : Addr
  pub ones : ℕ
  pub bits : ℕ

-- netlink.Rule: the fields that Lotsman sets or reads. A mark that is `none` is as netlink.NewRule
-- leaves it, and so is a mask that is nil. `extra` stands for all other selectors (iif, dport, goto
-- and so on), and is 0 where all of them are as NewRule leaves them.
pub record Rule : Type 0 where
  pub family : ℕ
  pub src : Option IpNet
  pub table : ℕ
  pub priority : ℕ
  pub mark : Option ℕ
  pub mask : Option ℕ
  pub oif_name : String
  pub extra : ℕ

-- netlink.Route: `dst` is the ones of the destination's mask, `gw` tells whether there is a gateway.
pub record KernelRoute : Type 0 where
  pub table : ℕ
  pub link_index : ℕ
  pub dst : Option ℕ
  pub gw : Bool

abbrev pub family_v4 : ℕ
family_v4 = 2

abbrev pub full_mask : ℕ
full_mask = 2 ^ 32 - 1

-- netlink.NewRule
abbrev pub new_rule : Rule
new_rule = record {
  family = 0;
  src = none;
  table = 0;
  priority = 0;
  mark = none;
  mask = none;
  oif_name = "";
  extra = 0;
}

abbrev pub same_net : Option IpNet → Option IpNet → Bool
same_net none none = true
same_net none (some b) = false
same_net (some a) none = false
same_net (some a) (some b) = a.ip == b.ip && a.ones == b.ones && a.bits == b.bits

abbrev pub same_mask : Option ℕ → Option ℕ → Bool
same_mask none none = true
same_mask none (some b) = false
same_mask (some a) none = false
same_mask (some a) (some b) = a == b

-- reflect.DeepEqual on rules.
unfoldable pub same_rule : Rule → Rule → Bool
same_rule a b =
    a.family == b.family
    && same_net a.src b.src
    && a.table == b.table
    && a.priority == b.priority
    && same_mask a.mark b.mark
    && same_mask a.mask b.mask
    && a.oif_name == b.oif_name
    && a.extra == b.extra

-- The outcome of a call that adds: done, os.ErrExist, or another error.
pub data Added : Type 0 where
  done exists : Added
  failed : String → Added

-- A list that was read, or the error.
pub data Read (A : Type 0) : Type 0 where
  found : A → Read A
  unread : String → Read A

-- `allow` and `disallow` change the set of authorized peers in one nftables transaction.
pub record Kernel (World : Type 0) : Type 0 where
  pub rule_list : World → Read (List Rule)
  pub rule_add : Rule → World → Added × World
  pub rule_del : Rule → World → Option String × World
  pub route_list : World → Read (List KernelRoute)
  pub route_del : KernelRoute → World → Option String × World
  pub link_names : World → Read (List (ℕ × String))
  pub allow : Addr → World → Option String × World
  pub disallow : Addr → World → Option String × World
