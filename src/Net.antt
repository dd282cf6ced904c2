-- ===== src/Net.antt =====
-- Addresses as `std::net` has them, for every module of src/, and the two address functions of
-- the `hbb_common` submodule, which is not part of the repository's tree.
use rustdesk_server.Prelude.{
  ℕ, ◌/◌, ◌%◌, ◌^◌, ◌≡◌, ◌↔◌, Bool, true, false, ◌&&◌, Option, none, some, arith, Eq, nat_beq,
  nat_beq_iff, leb, if◌then◌else◌,
}

-- `IpAddr`: a 32 bit and a 128 bit number.
pub data IpAddr : Type 0 where
  v4 : ℕ → IpAddr
  v6 : ℕ → IpAddr

abbrev pub ip_beq : IpAddr → IpAddr → Bool
ip_beq (v4 a) (v4 b) = nat_beq a b
ip_beq (v4 a) (v6 b) = false
ip_beq (v6 a) (v4 b) = false
ip_beq (v6 a) (v6 b) = nat_beq a b

pub ip_beq_iff : (a b : IpAddr) → (ip_beq a b ≡ true) ↔ (a ≡ b)
ip_beq_iff (v4 a) (v4 b) = ground (arith, nat_beq_iff a b)
ip_beq_iff (v4 a) (v6 b) = ground arith
ip_beq_iff (v6 a) (v4 b) = ground arith
ip_beq_iff (v6 a) (v6 b) = ground (arith, nat_beq_iff a b)

instance abbrev pub ip_eq : Eq IpAddr
ip_eq = record { beq = ip_beq; beq_iff = ip_beq_iff }

-- The derived order of `IpAddr`: every IPv4 address comes before every IPv6 one.
unfoldable pub ip_le : IpAddr → IpAddr → Bool
ip_le (v4 a) (v4 b) = leb a b
ip_le (v4 a) (v6 b) = true
ip_le (v6 a) (v4 b) = false
ip_le (v6 a) (v6 b) = leb a b

pub ip_le_antisym : (a b : IpAddr) → ip_le a b ≡ true → ip_le b a ≡ true → a ≡ b
unfolding ip_le
ip_le_antisym (v4 a) (v4 b) h k = ground arith
ip_le_antisym (v4 a) (v6 b) h k = ground arith
ip_le_antisym (v6 a) (v4 b) h k = ground arith
ip_le_antisym (v6 a) (v6 b) h k = ground arith

pub ip_le_total : (a b : IpAddr) → ip_le a b ≡ false → ip_le b a ≡ true
unfolding ip_le
ip_le_total (v4 a) (v4 b) h = ground arith
ip_le_total (v4 a) (v6 b) h = ground arith
ip_le_total (v6 a) (v4 b) h = ground arith
ip_le_total (v6 a) (v6 b) h = ground arith

-- `IpAddr::to_canonical`: ::ffff:a.b.c.d is unwrapped.
unfoldable pub to_canonical : IpAddr → IpAddr
to_canonical (v4 a) = v4 a
to_canonical (v6 a) = if nat_beq (a / 2 ^ 32) 0xffff then v4 (a % 2 ^ 32) else v6 a

-- `Ipv6Addr::to_ipv4`: besides ::ffff:a.b.c.d it takes ::a.b.c.d.
unfoldable pub to_ipv4 : ℕ → Option ℕ
to_ipv4 a =
    if nat_beq (a / 2 ^ 32) 0xffff
    then some (a % 2 ^ 32)
    else if nat_beq (a / 2 ^ 32) 0
    then some (a % 2 ^ 32)
    else none

-- 127.0.0.0/8 and ::1
unfoldable pub is_loopback : IpAddr → Bool
is_loopback (v4 a) = nat_beq (a / 2 ^ 24) 127
is_loopback (v6 a) = nat_beq a 1

pub record SocketAddr : Type 0 where
  pub ip : IpAddr
  pub port : ℕ

abbrev pub addr_beq : SocketAddr → SocketAddr → Bool
addr_beq a b = ip_beq a.ip b.ip && nat_beq a.port b.port

pub addr_beq_iff : (a b : SocketAddr) → (addr_beq a b ≡ true) ↔ (a ≡ b)
addr_beq_iff a b = ground (arith, ip_beq_iff a.ip b.ip, nat_beq_iff a.port b.port)

instance abbrev pub addr_eq : Eq SocketAddr
addr_eq = record { beq = addr_beq; beq_iff = addr_beq_iff }

abbrev pub pair_beq : IpAddr × IpAddr → IpAddr × IpAddr → Bool
pair_beq (a, b) (c, d) = ip_beq a c && ip_beq b d

pub pair_beq_iff : (p q : IpAddr × IpAddr) → (pair_beq p q ≡ true) ↔ (p ≡ q)
pair_beq_iff (a, b) (c, d) = ground (arith, ip_beq_iff a c, ip_beq_iff b d)

instance abbrev pub pair_eq : Eq (IpAddr × IpAddr)
pair_eq = record { beq = pair_beq; beq_iff = pair_beq_iff }
