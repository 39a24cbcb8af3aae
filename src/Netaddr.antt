-- ===== src/Netaddr.antt =====
-- The values of net/netip that the code keeps: IP addresses without their zone, and ports.
use lanxfer.Base.{
  ℕ, ◌/◌, ◌%◌, ◌^◌, ◌≡◌, ◌↔◌, refl, Bool, true, false, ◌&&◌, arith, ◌==◌, if◌then◌else◌,
}

pub data Addr : Type 0 where
  invalid : Addr
  v4 v6 : ℕ → Addr

unfoldable pub addr_eq : Addr → Addr → Bool
addr_eq invalid invalid = true
addr_eq (v4 a) (v4 b) = a == b
addr_eq (v6 a) (v6 b) = a == b
addr_eq _ _ = false

unfoldable pub addr_is_valid : Addr → Bool
addr_is_valid invalid = false
addr_is_valid _ = true

-- `Addr.Unmap`: an IPv4 address in the range ::ffff:0:0/96 becomes itself.
unfoldable pub unmap : Addr → Addr
unmap (v6 n) = if n / 2 ^ 32 == 0xFFFF then v4 (n % 2 ^ 32) else v6 n
unmap a = a

pub record AddrPort : Type 0 where
  pub addr : Addr
  pub port : ℕ

unfoldable pub addr_port_eq : AddrPort → AddrPort → Bool
unfolding addr_eq
addr_port_eq a b = addr_eq a.addr b.addr && a.port == b.port

pub addr_eq_iff : (a b : Addr) → (addr_eq a b ≡ true) ↔ (a ≡ b)
unfolding addr_eq
addr_eq_iff invalid invalid = (λ _. refl, λ _. refl)
addr_eq_iff invalid (v4 b) = (λ e. cc, λ e. cc)
addr_eq_iff invalid (v6 b) = (λ e. cc, λ e. cc)
addr_eq_iff (v4 a) invalid = (λ e. cc, λ e. cc)
addr_eq_iff (v4 a) (v4 b) = ground arith
addr_eq_iff (v4 a) (v6 b) = (λ e. cc, λ e. cc)
addr_eq_iff (v6 a) invalid = (λ e. cc, λ e. cc)
addr_eq_iff (v6 a) (v4 b) = (λ e. cc, λ e. cc)
addr_eq_iff (v6 a) (v6 b) = ground arith

pub addr_port_eq_iff : (a b : AddrPort) → (addr_port_eq a b ≡ true) ↔ (a ≡ b)
unfolding addr_port_eq
addr_port_eq_iff a b = ground (arith, addr_eq_iff a.addr b.addr)
