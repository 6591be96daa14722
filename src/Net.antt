-- ===== src/Net.antt =====
-- std::net as far as the servers use it: addresses as numbers (32 bits for IPv4, 128 for IPv6).
use kinbridge_server.Prelude.{
  ℕ, ◌/◌, ◌%◌, ◌^◌, ◌≡◌, ◌↔◌, Bool, true, false, ◌&&◌, Option, none, some, arith, eqb, HasEq,
  nat_eq, if◌then◌else◌,
}

pub data IpAddr : Type 0 where
  v4 : ℕ → IpAddr
  v6 : ℕ → IpAddr

pub record SocketAddr : Type 0 where
  pub ip : IpAddr
  pub port : ℕ

-- 127.0.0.0/8 and ::1.
unfoldable pub is_loopback : IpAddr → Bool
is_loopback (v4 a) = eqb (a / 2 ^ 24) 127
is_loopback (v6 a) = eqb a 1

unfoldable pub is_unspecified : IpAddr → Bool
is_unspecified (v4 a) = eqb a 0
is_unspecified (v6 a) = eqb a 0

-- Ipv6Addr::to_ipv4: the addresses ::a.b.c.d and ::ffff:a.b.c.d.
unfoldable pub to_ipv4 : ℕ → Option ℕ
to_ipv4 a =
    if eqb (a / 2 ^ 32) 0
    then some (a % 2 ^ 32)
    else if eqb (a / 2 ^ 32) 0xffff
    then some (a % 2 ^ 32)
    else none

abbrev pub ip_beq : IpAddr → IpAddr → Bool
ip_beq (v4 a) (v4 b) = eqb a b
ip_beq (v6 a) (v6 b) = eqb a b
ip_beq _ _ = false

pub ip_beq_iff : (a b : IpAddr) → (ip_beq a b ≡ true) ↔ (a ≡ b)
ip_beq_iff (v4 a) (v4 b) = ground arith
ip_beq_iff (v4 a) (v6 b) = ground arith
ip_beq_iff (v6 a) (v4 b) = ground arith
ip_beq_iff (v6 a) (v6 b) = ground arith

instance abbrev pub ip_eq : HasEq IpAddr
ip_eq = record { equal = ip_beq; equal_iff = ip_beq_iff }

abbrev pub socket_addr_beq : SocketAddr → SocketAddr → Bool
socket_addr_beq a b = ip_beq a.ip b.ip && eqb a.port b.port

pub socket_addr_beq_iff : (a b : SocketAddr) → (socket_addr_beq a b ≡ true) ↔ (a ≡ b)
socket_addr_beq_iff a b = ground (arith, ip_beq_iff a.ip b.ip)

instance abbrev pub socket_addr_eq : HasEq SocketAddr
socket_addr_eq = record { equal = socket_addr_beq; equal_iff = socket_addr_beq_iff }
