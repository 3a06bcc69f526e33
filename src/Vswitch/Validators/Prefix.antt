-- ===== src/Vswitch/Validators/Prefix.antt =====
-- Which NAT prefixes and host addresses are accepted.
use terraform_provider_hyper.Common.{
  ℕ, ◌+◌, ◌-◌, ◌*◌, ◌/◌, ◌%◌, ◌^◌, ◌≤◌, ◌<◌, String, true, none, some, ◌≡◌, ◌↔◌, refl, inl, inr,
  Bool-cases, Option-cases, arith, nat_eq, ◌∙◌, sym, ap,
}
use native.Mathlib.Nat.{pow-le-pow_right, mod-lt, mod-le, mod-eq_of_lt, div-add-mod, mul-mod_right}
use terraform_provider_hyper.Vswitch.Network.{Net, Network, is_v4, masked}
use terraform_provider_hyper.Vswitch.Validators.{NatPrefixIssue, check_network, check_nat_prefix}

module _ ⦃net : Net⦄ where
  check_network-ok :
      (ip : ℕ) (n : Network)
      → check_network ip n ≡ NatPrefixIssue.ok
      → (is_v4 ip ≡ true) × (1 ≤ n.ones) × (n.ones ≤ 30) × (ip ≡ n.ip)
  unfolding check_network
  check_network-ok ip n h = ground arith

  ok-check_network :
      (ip : ℕ) (n : Network)
      → (is_v4 ip ≡ true) × (1 ≤ n.ones) × (n.ones ≤ 30) × (ip ≡ n.ip)
      → check_network ip n ≡ NatPrefixIssue.ok
  unfolding check_network
  ok-check_network ip n h = ground arith

two_pos : (k : ℕ) → 0 < 2 ^ k
two_pos k =
    let h : 2 ^ 0 ≤ 2 ^ k = pow-le-pow_right {n = 2} (omega arith) {i = 0} {j = k} (omega arith) in
    omega (arith, h)

-- A mask of at most 30 ones clears every bit of an IPv4 address in its 16-byte form.
masked_v4 : (ip ones : ℕ) → is_v4 ip ≡ true → ones ≤ 30 → masked ip 128 ones ≡ 0
masked_v4 ip ones v h =
    let big : 2 ^ 98 ≤ 2 ^ (128 - ones) =
      pow-le-pow_right {n = 2} (omega arith) {i = 98} {j = 128 - ones} (omega (arith, h)) in
    let small : ip < 2 ^ 98 = ground arith in
    let low : ip % 2 ^ (128 - ones) ≡ ip = mod-eq_of_lt (omega (arith, big, small)) in
    omega (arith, low)

-- A multiple of the block size, and an address with the same masked value, lie in one block.
pub masked_bounds : (a base k : ℕ) → a - a % 2 ^ k ≡ base → (base ≤ a) × (a < base + 2 ^ k)
masked_bounds a base k h = omega (arith, h, mod-lt a (two_pos k), mod-le a (2 ^ k))

masked-mod : (a m : ℕ) → (a - a % m) % m ≡ 0
masked-mod a m =
    let e : a - a % m ≡ m * (a / m) = omega (arith, div-add-mod a m) in
    ap (λ x. x % m) e ∙ mul-mod_right m (a / m)

module _ ⦃net : Net⦄ where
  -- The text is a canonical IPv4 network of a length from 1 to 30: the address has no bit set after the
  -- mask.
  abbrev pub IsCanonical : String → Type 0
  IsCanonical s =
      (ip : ℕ) × (n : Network) × (net.parse_cidr s ≡ some (ip, n))
      × (is_v4 ip ≡ true)
      × (n.bits ≡ 32)
      × (1 ≤ n.ones)
      × (n.ones ≤ 30)
      × (ip % 2 ^ (32 - n.ones) ≡ 0)

  check_parsed :
      (s : String) (ip : ℕ) (n : Network)
      → net.parse_cidr s ≡ some (ip, n)
      → check_nat_prefix s ≡ check_network ip n
  unfolding check_nat_prefix
  check_parsed s ip n q = rw (q, check_nat_prefix) refl

  check_unparsed :
      (s : String) → net.parse_cidr s ≡ none → check_nat_prefix s ≡ NatPrefixIssue.parse
  unfolding check_nat_prefix
  check_unparsed s q = rw (q, check_nat_prefix) refl

  -- Only the 4-byte form of an IPv4 address can be its own network with so short a mask.
  four_bytes :
      (s : String) (ip : ℕ) (n : Network)
      → net.parse_cidr s ≡ some (ip, n)
      → is_v4 ip ≡ true
      → n.ones ≤ 30
      → ip ≡ n.ip
      → n.bits ≡ 32
  four_bytes s ip n q v h e = elim (Bool-cases (nat_eq n.bits 32)) [
    | inl b ↦ ground arith
    | inr b ↦
        let wide = net.other s ip n q b in
        let m = net.implied s ip n q in
        let zero = masked_v4 ip n.ones v h in
        let m' : n.ip ≡ masked ip 128 n.ones = rw wide at m in absurd (ground (arith, e, m', zero))
  ]

  canonical : (s : String) → check_nat_prefix s ≡ NatPrefixIssue.ok → IsCanonical s
  canonical s h = elim (Option-cases (net.parse_cidr s)) [
    | inl q ↦ let k = check_unparsed s q in absurd (cc)
    | inr ((ip, n), q) ↦
        let (v, lo, hi, e) = check_network-ok ip n (sym (check_parsed s ip n q) ∙ h) in
        let b = four_bytes s ip n q v hi e in
        let m : n.ip ≡ masked ip 32 n.ones = rw b at (net.implied s ip n q) in
        (
          ip,
          n,
          q,
          v,
          b,
          lo,
          hi,
          ap (λ x. x % 2 ^ (32 - n.ones)) (e ∙ m) ∙ masked-mod ip (2 ^ (32 - n.ones)),
        )
  ]

  of_canonical : (s : String) → IsCanonical s → check_nat_prefix s ≡ NatPrefixIssue.ok
  of_canonical s (ip, n, q, v, b, lo, hi, z) =
      let m : n.ip ≡ masked ip 32 n.ones = rw b at (net.implied s ip n q) in
      check_parsed s ip n q ∙ ok-check_network ip n (v, lo, hi, omega (arith, m, z))

  -- A NAT prefix passes its check exactly if it parses as a network in dotted IPv4 form whose mask has 1
  -- to 30 ones and whose address has no bit set after the mask.
  pub check_nat_prefix-IsCanonical_iff :
      (s : String) → (check_nat_prefix s ≡ NatPrefixIssue.ok) ↔ IsCanonical s
  check_nat_prefix-IsCanonical_iff s = (canonical s, of_canonical s)
