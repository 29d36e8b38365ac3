-- ===== src/Repository/Hosts.antt =====
-- The addresses of a pool: `usableIPv4Hosts` in internal/repository/ipam.go. `Prefix` and `Address` are
-- the parts of netip.Prefix and netip.Addr that the source reads.
use casper_cloud.Prelude.{
  ◌==◌, ◌||◌, ltb, ℕ, zero, suc, ◌+◌, ◌-◌, ◌%◌, ◌^◌, List, [], ◌∷◌, Text, if◌then◌else◌,
}
use casper_cloud.Data.{Inet, unsupported_prefix, no_usable_hosts}
use casper_cloud.Exec.{Result, ok, err}

-- An IPv4 address as its 32-bit number, or another address.
pub data Address : Type 0 where
  v4 : Inet → Address
  v6 : Text → Address

pub record Prefix : Type 0 where
  pub address : Address
  pub bits : ℕ

-- `prefix.Masked().Addr()`: the address with its host bits cleared.
abbrev pub masked : Inet → ℕ → Inet
masked a bits = a - a % 2 ^ (32 - bits)

-- The loop from `i`, with `n` rounds left; the sum is a uint32.
unfoldable pub hosts_from : Inet → Inet → ℕ → ℕ → List Inet
hosts_from net gateway i zero = []
hosts_from net gateway i (suc n) =
    let ip = (net + i) % 2 ^ 32 in
    let rest = hosts_from net gateway (suc i) n in if ip == gateway then rest else ip ∷ rest

-- `uint32(1<<(32-bits)) - 2`
abbrev pub host_count : ℕ → ℕ
host_count bits = (2 ^ (32 - bits) + 2 ^ 32 - 2) % 2 ^ 32

-- The prefix has the address `a` and `bits` bits.
unfoldable pub usable_ipv4_hosts : Inet → ℕ → Inet → Result (List Inet)
unfolding hosts_from
usable_ipv4_hosts a bits gateway =
    if ltb bits 8 || ltb 30 bits
    then err unsupported_prefix
    else if ltb (host_count bits) 1
    then err no_usable_hosts
    else ok (hosts_from (masked a bits) gateway 1 (host_count bits))
