-- ===== src/Vswitch/Tests.antt =====
-- A NAT switch and a small parser, and the theorems of internal/resources/vswitch there.
use terraform_provider_hyper.Common.{
  ℕ, ◌+◌, ◌-◌, ◌^◌, ◌≤◌, ◌<◌, String, [], true, Option, none, some, ◌≡◌, ◌↔◌, refl, arith, ◌==◌,
  if◌then◌else◌, ◌⊎◌, Bool-cases, inl, inr,
}
use terraform_provider_hyper.Framework.{null, unknown, known}
use terraform_provider_hyper.Framework.Handlers.{silent}
use terraform_provider_hyper.Hyperv.Tests.{lab, switches, idle, Lab, lab_clock}
use terraform_provider_hyper.Hyperv.Switches.Destroy.{Goes}
use terraform_provider_hyper.Vswitch.Model.{Model, build_new_input, build_set_input}
use terraform_provider_hyper.Hyperv.Switches.{new_vm_switch, get_vm_switch, set_vm_switch}
use terraform_provider_hyper.Vswitch.Crud.{Resource, create, read, update, delete}
use terraform_provider_hyper.Vswitch.Crud.Replies.{WritesBy, ReadsBy, IsShared}
use terraform_provider_hyper.Vswitch.Crud.Ends.{
  EndsBy, DeleteEnds, Missing, handlers_end, delete-silent_iff, resource,
}
use terraform_provider_hyper.Vswitch.Network.{Net, Network, is_v4, contains}
use terraform_provider_hyper.Vswitch.Validators.{
  NatPrefixIssue, check_nat_prefix, check_host_address, validate,
  validate_private_allow_management_os, validate_external_adapter_names, validate_nat_required,
  validate_nat_rejects, validate_nat_only, validate_nat_prefix, validate_nat_host_address,
  validate_force_migration,
}
use terraform_provider_hyper.Vswitch.Validators.Prefix.{
  IsCanonical, check_nat_prefix-IsCanonical_iff,
}
use terraform_provider_hyper.Vswitch.Validators.Host.{host_address_bounds}
use terraform_provider_hyper.Vswitch.Validators.Fits.{FitsScript, build_new_input-FitsScript}

abbrev nat_switch : Model
nat_switch = record {
  id = unknown;
  name = known "lan";
  switch_type = known "NAT";
  net_adapter_names = null;
  allow_management_os = null;
  notes = null;
  net_adapter_interface_description = unknown;
  nat_name = known "nat";
  nat_internal_address_prefix = known "10.0.0.0/24";
  nat_host_address = known "10.0.0.1";
  force_management_os_migration = null;
}

-- 10.0.0.0 in its 16-byte form.
abbrev ten : ℕ
ten = 281470849679360

abbrev network : Network
network = record { ip = ten; bits = 32; ones = 24 }

-- A parser that knows one network and one address.
abbrev parse : String → Option (ℕ × Network)
parse s = if s == "10.0.0.0/24" then some (ten, network) else none

parsed : (s : String) (ip : ℕ) (n : Network) → parse s ≡ some (ip, n) → (ip ≡ ten) × (n ≡ network)
parsed s ip n h = elim (Bool-cases (s == "10.0.0.0/24")) [
  | inl e ↦ let k = rw e at h in (cc, cc)
  | inr e ↦ let k = rw e at h in absurd (cc)
]

instance small : Net
small = record {
  trim_space = λ s. s;
  parse_ip = λ s. if s == "10.0.0.1" then some (ten + 1) else none;
  parse_cidr = parse;
  implied = λ s ip n h. let (a, b) = parsed s ip n h in rw (a, b) refl;
  dotted = λ s ip n h w. let (a, b) = parsed s ip n h in rw (a, b) (refl, omega arith);
  other = λ s ip n h w. let (a, b) = parsed s ip n h in let k = rw b at w in absurd (cc);
  no_space = λ s ip n h. refl;
}

abbrev switch : Resource Lab
switch = resource lab switches

handlers_end_example :
    EndsBy lab switches
      (new_vm_switch lab switches (build_new_input nat_switch))
      (WritesBy nat_switch)
      idle
      (create switch nat_switch idle)
    × EndsBy lab switches
        (get_vm_switch lab switches "lan" "nat")
        (ReadsBy nat_switch)
        idle
        (read switch nat_switch idle)
    × EndsBy lab switches
        (set_vm_switch lab switches (build_set_input nat_switch nat_switch))
        (WritesBy nat_switch)
        idle
        (update switch nat_switch nat_switch idle)
    × DeleteEnds lab switches idle nat_switch
handlers_end_example = handlers_end lab switches idle nat_switch nat_switch refl

delete-silent_iff_example : (delete switch nat_switch idle ≡ some (idle, silent)) ↔ (
    (¬ IsShared nat_switch)
    × (Goes lab switches "lan" "nat" idle idle ⊎ Missing lab switches "lan" "nat" idle idle))
delete-silent_iff_example = delete-silent_iff lab switches nat_switch idle idle

check_nat_prefix-IsCanonical_iff_example :
    (check_nat_prefix "10.0.0.0/24" ≡ NatPrefixIssue.ok) ↔ IsCanonical "10.0.0.0/24"
check_nat_prefix-IsCanonical_iff_example = check_nat_prefix-IsCanonical_iff "10.0.0.0/24"

prefix_ok : check_nat_prefix "10.0.0.0/24" ≡ NatPrefixIssue.ok
unfolding check_nat_prefix small
prefix_ok = refl

host_ok : check_host_address (known "10.0.0.0/24") "10.0.0.1" ≡ []
unfolding check_host_address contains small
host_ok = refl

config_ok : validate nat_switch ≡ []
unfolding validate validate_private_allow_management_os validate_external_adapter_names
    validate_nat_required validate_nat_rejects validate_nat_only validate_nat_prefix
    validate_nat_host_address validate_force_migration check_nat_prefix check_host_address contains
    small
config_ok = refl

host_address_bounds_example :
    (base : ℕ) × (n : Network) × (a : ℕ) × (small.parse_cidr "10.0.0.0/24" ≡ some (base, n))
    × (small.parse_ip "10.0.0.1" ≡ some a)
    × (is_v4 base ≡ true)
    × (is_v4 a ≡ true)
    × (1 ≤ n.ones)
    × (n.ones ≤ 30)
    × (base ≤ a)
    × (a < base + 2 ^ (32 - n.ones))
host_address_bounds_example = host_address_bounds "10.0.0.0/24" "10.0.0.1" prefix_ok host_ok

build_new_input-FitsScript_example : FitsScript nat_switch "NAT" (build_new_input nat_switch)
build_new_input-FitsScript_example = build_new_input-FitsScript nat_switch "NAT" refl config_ok
