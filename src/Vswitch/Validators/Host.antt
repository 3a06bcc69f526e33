-- ===== src/Vswitch/Validators/Host.antt =====
-- Where an accepted host address lies.
use terraform_provider_hyper.Common.{
  ℕ, ◌+◌, ◌-◌, ◌^◌, ◌≤◌, ◌<◌, String, [], true, none, some, ◌≡◌, refl, inl, inr, Bool-cases,
  Option-cases, arith, not, ◌∙◌, sym, if◌then◌else◌,
}
use terraform_provider_hyper.Framework.{Attr, known}
use terraform_provider_hyper.Vswitch.Network.{Net, Network, is_v4, masked, contains}
use terraform_provider_hyper.Vswitch.Validators.{
  NatPrefixIssue, check_nat_prefix, check_host_address, in_prefix, not_an_address, report_if, at,
}
use terraform_provider_hyper.Vswitch.Validators.Prefix.{
  check_nat_prefix-IsCanonical_iff, masked_bounds,
}

contains_v4 :
    (n : Network) (a : ℕ)
    → n.bits ≡ 32
    → contains n a ≡ true
    → (is_v4 a ≡ true) × (masked a 32 n.ones ≡ n.ip)
unfolding contains
contains_v4 n a b h = ground (arith, b, h)

module _ ⦃net : Net⦄ where
  host_unparsed :
      (prefix : Attr String) (host : String)
      → net.parse_ip host ≡ none
      → check_host_address prefix host ≡ not_an_address
  unfolding check_host_address
  host_unparsed prefix host q = rw (q, check_host_address) refl

  host_parsed :
      (prefix : Attr String) (host : String) (a : ℕ)
      → net.parse_ip host ≡ some a
      → check_host_address prefix host
        ≡ (if not (is_v4 a) then not_an_address else in_prefix a prefix)
  unfolding check_host_address
  host_parsed prefix host a q = rw (q, check_host_address) refl

  parsed_host :
      (prefix host : String)
      → check_host_address (known prefix) host ≡ []
      → (a : ℕ) × (net.parse_ip host ≡ some a)
        × (is_v4 a ≡ true)
        × (in_prefix a (known prefix) ≡ [])
  parsed_host prefix host h = elim (Option-cases (net.parse_ip host)) [
    | inl q ↦ let k = host_unparsed (known prefix) host q in absurd (cc)
    | inr (a, q) ↦
        let k = sym (host_parsed (known prefix) host a q) ∙ h in
        elim (Bool-cases (is_v4 a)) [
          | inl v ↦ (a, q, v, rw v at k)
          | inr v ↦ let k' = rw v at k in absurd (cc)
        ]
  ]

  in_parsed :
      (prefix : String) (a ip : ℕ) (n : Network)
      → net.parse_cidr prefix ≡ some (ip, n)
      → in_prefix a (known prefix)
        ≡ report_if
            (not (contains n a))
            (at "nat_host_address" "nat_host_address must lie inside nat_internal_address_prefix")
  in_parsed prefix a ip n q = rw (net.no_space prefix ip n q, q, in_prefix) refl

  inside :
      (prefix : String) (a ip : ℕ) (n : Network)
      → net.parse_cidr prefix ≡ some (ip, n)
      → in_prefix a (known prefix) ≡ []
      → contains n a ≡ true
  inside prefix a ip n q h =
      let k = sym (in_parsed prefix a ip n q) ∙ h in
      elim (Bool-cases (contains n a)) [ inl c ↦ c | inr c ↦ let k' = rw c at k in absurd (cc) ]

  -- If a NAT prefix passes its check and a host address passes its own against that prefix, then the
  -- prefix parses to an IPv4 network with an address and 1 to 30 ones in its mask, the host address
  -- parses to an IPv4 address, and this lies in the block of 2 ^ (32 - ones) addresses that starts at
  -- the network's.
  pub host_address_bounds :
      (prefix host : String)
      → check_nat_prefix prefix ≡ NatPrefixIssue.ok
      → check_host_address (known prefix) host ≡ []
      → (base : ℕ) × (n : Network) × (a : ℕ) × (net.parse_cidr prefix ≡ some (base, n))
        × (net.parse_ip host ≡ some a)
        × (is_v4 base ≡ true)
        × (is_v4 a ≡ true)
        × (1 ≤ n.ones)
        × (n.ones ≤ 30)
        × (base ≤ a)
        × (a < base + 2 ^ (32 - n.ones))
  host_address_bounds prefix host hp hh =
      let (base, n, q, v, b, lo, hi, z) = (check_nat_prefix-IsCanonical_iff prefix).0 hp in
      let (a, p, w, i) = parsed_host prefix host hh in
      let (w', m) = contains_v4 n a b (inside prefix a base n q i) in
      let m' : n.ip ≡ masked base 32 n.ones = rw b at (net.implied prefix base n q) in
      let e : masked a 32 n.ones ≡ base = omega (arith, m, m', z) in
      let (above, below) = masked_bounds a base (32 - n.ones) e in
      (base, n, a, q, p, v, w, lo, hi, above, below)
