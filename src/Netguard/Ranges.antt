-- ===== src/Netguard/Ranges.antt =====
-- The ranges of addresses that are let in.
use lanxfer.Base.{
  ◌*◌, ◌^◌, ◌≤◌, ◌<◌, ◌≡◌, ◌⊎◌, ◌↔◌, inl, inr, true, ◌||◌, some, Text, arith, Option-cases,
}
use lanxfer.Netaddr.{Addr, invalid, v4, v6, unmap}
use lanxfer.Netguard.{NetText, loopback, private, link_local, parse_remote, is_allowed_remote}

-- 127.0.0.0/8, 10.0.0.0/8, 172.16.0.0/12, 192.168.0.0/16 and 169.254.0.0/16 as intervals; of IPv6 the
-- loopback address, fc00::/7 and fe80::/10.
abbrev pub IsLocal : Addr → Type 0
IsLocal invalid = ⊥
IsLocal (v4 n) =
    ((0x7F000000 ≤ n) × (n ≤ 0x7FFFFFFF))
    ⊎ ((0x0A000000 ≤ n) × (n ≤ 0x0AFFFFFF))
    ⊎ ((0xAC100000 ≤ n) × (n ≤ 0xAC1FFFFF))
    ⊎ ((0xC0A80000 ≤ n) × (n ≤ 0xC0A8FFFF))
    ⊎ ((0xA9FE0000 ≤ n) × (n ≤ 0xA9FEFFFF))
IsLocal (v6 n) =
    (n ≡ 1)
    ⊎ ((0xFC * 2 ^ 120 ≤ n) × (n < 0xFE * 2 ^ 120))
    ⊎ ((0xFE80 * 2 ^ 112 ≤ n) × (n < 0xFEC0 * 2 ^ 112))

ranges_iff : (a : Addr) → ((loopback a || (private a || link_local a)) ≡ true) ↔ IsLocal a
unfolding loopback private link_local
ranges_iff invalid = (λ h. cc, λ h. elim h [ ])
ranges_iff (v4 n) = ground arith
ranges_iff (v6 n) = ground arith

-- An address is let in exactly if "host:port" can be read and the host, an IPv4 address written in
-- IPv6 read as itself, lies in a private, loopback or link-local range.
pub is_allowed_remote_iff :
    (net : NetText) (remote : Text)
    → (is_allowed_remote net remote ≡ true)
      ↔ ((ip : Addr) × (parse_remote net remote ≡ some ip) × IsLocal (unmap ip))
unfolding is_allowed_remote
is_allowed_remote_iff net remote = (there, back)
  where
    there :
        is_allowed_remote net remote ≡ true
        → (ip : Addr) × (parse_remote net remote ≡ some ip) × IsLocal (unmap ip)
    there h = elim (Option-cases (parse_remote net remote)) [
      | inl e ↦ absurd (ground (arith, h, e))
      | inr (ip, e) ↦ (ip, e, (ranges_iff (unmap ip)).0 (ground (arith, h, e)))
    ]

    back :
        (ip : Addr) × (parse_remote net remote ≡ some ip) × IsLocal (unmap ip)
        → is_allowed_remote net remote ≡ true
    back (ip, e, l) = let t = (ranges_iff (unmap ip)).1 l in rw (e, is_allowed_remote) t
