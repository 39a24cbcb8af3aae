-- ===== src/Netguard.antt =====
-- internal/netguard/netguard.go: which addresses may talk to a receiver.
pub mod Ranges
use lanxfer.Base.{
  ℕ, ◌/◌, ◌%◌, ◌^◌, ◌≡◌, refl, Bool, true, false, ◌&&◌, ◌||◌, Option, none, some, Text, ◌==◌,
}
use lanxfer.Netaddr.{Addr, AddrPort, invalid, v4, v6, unmap}

-- The functions of net and net/netip that read and print addresses.
pub record NetText : Type 0 where
  pub split_host_port : Text → Option Text
  pub parse_ip : Text → Option Addr
  pub parse_addr : Text → Option Addr
  pub parse_addr_port : Text → Option AddrPort
  pub show : Addr → Text

-- `IP.IsLoopback`, `IP.IsPrivate` and `IP.IsLinkLocalUnicast`, behind `IP.To4`.
unfoldable pub loopback : Addr → Bool
loopback invalid = false
loopback (v4 n) = n / 2 ^ 24 == 127
loopback (v6 n) = n == 1

unfoldable pub private : Addr → Bool
private invalid = false
private (v4 n) = n / 2 ^ 24 == 10 || (n / 2 ^ 20 == 0xAC1 || n / 2 ^ 16 == 0xC0A8)
private (v6 n) = n / 2 ^ 121 == 0x7E

unfoldable pub link_local : Addr → Bool
link_local invalid = false
link_local (v4 n) = n / 2 ^ 16 == 0xA9FE
link_local (v6 n) = n / 2 ^ 118 == 0x3FA

unfoldable pub parse_remote : NetText → Text → Option Addr
parse_remote net remote = elim (net.split_host_port remote) [
  | none ↦ none
  | some host ↦ net.parse_ip host
]

unfoldable pub is_allowed_remote : NetText → Text → Bool
is_allowed_remote net remote = elim (parse_remote net remote) [
  | none ↦ false
  | some ip ↦ loopback (unmap ip) || (private (unmap ip) || link_local (unmap ip))
]

unfoldable pub is_loopback : NetText → Text → Bool
is_loopback net remote = elim (parse_remote net remote) [
  | none ↦ false
  | some ip ↦ loopback (unmap ip)
]
