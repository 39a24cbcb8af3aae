-- ===== src/Discovery/Broadcast.antt =====
-- internal/discovery/broadcast.go: the broadcast addresses of the attached networks.
use lanxfer.Base.{
  ℕ, zero, suc, ◌+◌, ◌-◌, ◌*◌, ◌/◌, ◌^◌, Bool, not, ◌||◌, List, [], ◌∷◌, ◌++◌, Option, none, some,
  leb, ◌==◌, any_by, if◌then◌else◌,
}
use lanxfer.Netaddr.{Addr, invalid, v4, v6, unmap, addr_eq}
use lanxfer.Netguard.{private}

-- `net.IPNet`: the address, and the last four bytes of the mask.
pub record IpNet : Type 0 where
  pub ip : Addr
  pub mask : ℕ

pub record Interface : Type 0 where
  pub up : Bool
  pub broadcasts : Bool
  pub addrs : Option (List (Option IpNet))

-- `IPMask.Size`: the number of leading ones, if all ones lead.
unfoldable pub mask_size_from : ℕ → ℕ → Option ℕ
mask_size_from zero mask = if mask == 2 ^ 32 - 2 ^ 32 then some 0 else none
mask_size_from (suc n) mask =
    let rest = mask_size_from n mask in
    if mask == 2 ^ 32 - 2 ^ (32 - suc n) then some (suc n) else rest

unfoldable pub mask_size : ℕ → Option ℕ
mask_size mask = mask_size_from 32 mask

-- All host bits are set to 1; `ones` is below 31.
unfoldable pub with_host_bits : ℕ → ℕ → ℕ
with_host_bits ones n = n / 2 ^ (32 - ones) * 2 ^ (32 - ones) + (2 ^ (32 - ones) - 1)

unfoldable pub host_bits_of : ℕ → Option ℕ → Option Addr
host_bits_of n none = none
host_bits_of n (some ones) = if leb 31 ones then none else some (v4 (with_host_bits ones n))

unfoldable pub broadcast_v4 : ℕ → ℕ → Option Addr
broadcast_v4 n mask = if not (private (v4 n)) then none else host_bits_of n (mask_size mask)

unfoldable pub broadcast_addr : IpNet → Option Addr
broadcast_addr ipnet = elim (unmap ipnet.ip) [
  | invalid ↦ none
  | v4 n ↦ broadcast_v4 n ipnet.mask
  | v6 n ↦ none
]

-- The addresses found are also those seen.
unfoldable pub add_broadcast : Option Addr → List Addr → List Addr
add_broadcast none out = out
add_broadcast (some a) out = if any_by (addr_eq a) out then out else out ++ a ∷ []

unfoldable pub add_addrs : List (Option IpNet) → List Addr → List Addr
add_addrs [] out = out
add_addrs (none ∷ ns) out = add_addrs ns out
add_addrs (some n ∷ ns) out = add_addrs ns (add_broadcast (broadcast_addr n) out)

unfoldable pub add_interface : Interface → List Addr → List Addr
add_interface i out =
    if not i.up || not i.broadcasts
    then out
    else elim i.addrs [ none ↦ out | some ns ↦ add_addrs ns out ]

unfoldable pub add_interfaces : List Interface → List Addr → List Addr
add_interfaces [] out = out
add_interfaces (i ∷ is) out = add_interfaces is (add_interface i out)

unfoldable pub local_broadcast_addrs : Option (List Interface) → Option (List Addr)
local_broadcast_addrs none = none
local_broadcast_addrs (some is) = some (add_interfaces is [])
