-- ===== src/Vswitch/Network.antt =====
-- What the validators of internal/resources/vswitch use of Go's package `net`: addresses, networks and
-- their parsers. The parsers are parameters; addresses are the numbers of their 16 bytes, in which the
-- IPv4 address n is 65535 * 2 ^ 32 + n.
use terraform_provider_hyper.Common.{
  ℕ, ◌-◌, ◌/◌, ◌%◌, ◌^◌, ◌≤◌, String, ◌≡◌, Bool, true, false, ◌&&◌, Option, some, nat_eq,
  if◌then◌else◌,
}

abbrev pub v4_prefix : ℕ
v4_prefix = 65535

-- `ip.To4() != nil`.
abbrev pub is_v4 : ℕ → Bool
is_v4 ip = nat_eq (ip / 4294967296) v4_prefix

-- net.IPNet: the network's address, the length of the mask in bits, 32 or 128, and its leading ones.
pub record Network : Type 0 where
  pub ip : ℕ
  pub bits : ℕ
  pub ones : ℕ

-- `ip` with the bits after the mask cleared.
abbrev pub masked : ℕ → ℕ → ℕ → ℕ
masked ip bits ones = ip - ip % 2 ^ (bits - ones)

-- `ipnet.Contains(ip)`, for the networks of `ParseCIDR`: of one family, and equal under the mask.
unfoldable pub contains : Network → ℕ → Bool
contains n ip =
    if nat_eq n.bits 32
    then is_v4 ip && nat_eq (masked ip 32 n.ones) n.ip
    else if is_v4 n.ip
    then is_v4 ip && nat_eq (masked ip 128 n.ones) n.ip
    else if is_v4 ip
    then false
    else nat_eq (masked ip 128 n.ones) n.ip

-- The text functions, and what is documented of `ParseCIDR`: it returns the address as written, and the
-- network that the address and the mask imply; a dotted address has a mask of at most 32 bits, any other
-- one of at most 128; no white space is taken.
pub record Net : Type 0 where
  pub trim_space : String → String
  pub parse_ip : String → Option ℕ
  pub parse_cidr : String → Option (ℕ × Network)
  pub implied :
      (s : String) (ip : ℕ) (n : Network)
      → parse_cidr s ≡ some (ip, n)
      → n.ip ≡ masked ip n.bits n.ones
  pub dotted :
      (s : String) (ip : ℕ) (n : Network)
      → parse_cidr s ≡ some (ip, n)
      → nat_eq n.bits 32 ≡ true
      → (is_v4 ip ≡ true) × (n.ones ≤ 32)
  pub other :
      (s : String) (ip : ℕ) (n : Network)
      → parse_cidr s ≡ some (ip, n)
      → nat_eq n.bits 32 ≡ false
      → n.bits ≡ 128
  pub no_space :
      (s : String) (ip : ℕ) (n : Network) → parse_cidr s ≡ some (ip, n) → trim_space s ≡ s
