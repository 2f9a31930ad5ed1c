-- ===== src/Net.antt =====
-- IPv4 addresses and prefixes as net/netip has them: an address is its 32-bit number. The zero
-- `netip.Addr`, which is no address, is 2 ^ 32: no prefix contains it.
use lotsman.Prelude.{ℕ, ◌+◌, ◌-◌, ◌*◌, ◌/◌, ◌^◌, Bool, ◌&&◌, ltb, ◌==◌, nat_eq, if◌then◌else◌}

abbrev pub Addr : Type 0
Addr = ℕ

abbrev pub addr_limit : ℕ
addr_limit = 2 ^ 32

pub record Prefix : Type 0 where
  pub addr : Addr
  pub bits : ℕ

-- The number of addresses of a prefix.
unfoldable pub prefix_size : Prefix → ℕ
prefix_size p = 2 ^ (32 - p.bits)

-- Addr.Next: past 255.255.255.255 comes the zero `Addr`, which has no successor.
unfoldable pub next : Addr → Addr
next a = if ltb a addr_limit then a + 1 else a

-- Prefix.Contains
unfoldable pub contains : Prefix → Addr → Bool
unfolding prefix_size
contains p a = ltb a addr_limit && (a / prefix_size p == p.addr / prefix_size p)

-- Prefix.Masked
unfoldable pub masked : Prefix → Prefix
unfolding prefix_size
masked p = record p { addr = p.addr / prefix_size p * prefix_size p }
