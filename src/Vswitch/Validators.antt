-- ===== src/Vswitch/Validators.antt =====
-- The configuration validators of internal/resources/vswitch: resource.go and validators_nat.go. The
-- framework decodes the configuration; each `validate` gets the model.
pub mod Prefix
pub mod Host
pub mod Fits
use terraform_provider_hyper.Common.{
  ℕ, String, List, [], ◌∷◌, ◌++◌, Bool, true, false, not, ◌&&◌, ◌||◌, Option, none, some, ◌==◌,
  if◌then◌else◌, ltb, nat_eq,
}
use terraform_provider_hyper.Framework.{
  Attr, null, unknown, known, is_null, is_unknown, is_known, value_string, Diagnostic, Diagnostics,
  PathStep, attribute_error,
}
use terraform_provider_hyper.Vswitch.Model.{Model}
use terraform_provider_hyper.Vswitch.Network.{Net, Network, is_v4, contains}

-- An error at an attribute of the resource.
abbrev pub at : String → String → Diagnostic
at attr summary = attribute_error (PathStep.name attr ∷ []) summary

abbrev pub report_if : Bool → Diagnostic → Diagnostics
report_if true d = d ∷ []
report_if false d = []

unfoldable pub validate_private_allow_management_os : Model → Diagnostics
validate_private_allow_management_os config =
    if is_unknown config.switch_type || is_unknown config.allow_management_os
    then []
    else report_if
        ((value_string config.switch_type == "Private") && not (is_null config.allow_management_os))
        (at "allow_management_os" "allow_management_os not valid for Private switch")

abbrev pub adapter_names : Attr (List String) → Diagnostics
adapter_names null = at "net_adapter_names" "net_adapter_names required for External switch" ∷ []
adapter_names unknown = []
adapter_names (known []) =
    at "net_adapter_names" "net_adapter_names must be non-empty for External switch" ∷ []
adapter_names (known (n ∷ ns)) = []

unfoldable pub validate_external_adapter_names : Model → Diagnostics
validate_external_adapter_names config =
    if is_unknown config.switch_type || is_unknown config.net_adapter_names
    then []
    else if not (value_string config.switch_type == "External")
    then []
    else adapter_names config.net_adapter_names

unfoldable pub validate_nat_required : Model → Diagnostics
validate_nat_required config =
    if is_unknown config.switch_type
    then []
    else if not (value_string config.switch_type == "NAT")
    then []
    else report_if (is_null config.nat_name) (at "nat_name" "nat_name required for NAT switch")
      ++ report_if (is_null config.nat_internal_address_prefix)
          (at "nat_internal_address_prefix" "nat_internal_address_prefix required for NAT switch")
      ++ report_if (is_null config.nat_host_address)
          (at "nat_host_address" "nat_host_address required for NAT switch")

unfoldable pub validate_nat_rejects : Model → Diagnostics
validate_nat_rejects config =
    if is_unknown config.switch_type
    then []
    else if not (value_string config.switch_type == "NAT")
    then []
    else report_if (is_known config.net_adapter_names)
        (at "net_adapter_names" "net_adapter_names not valid for NAT switch")
      ++ report_if (is_known config.allow_management_os)
          (at "allow_management_os" "allow_management_os not valid for NAT switch")

unfoldable pub validate_nat_only : Model → Diagnostics
validate_nat_only config =
    if is_unknown config.switch_type
    then []
    else if value_string config.switch_type == "NAT"
    then []
    else report_if (is_known config.nat_name)
        (at "nat_name" "nat_name requires switch_type = \"NAT\"")
      ++ report_if (is_known config.nat_internal_address_prefix) (
          at "nat_internal_address_prefix"
            "nat_internal_address_prefix requires switch_type = \"NAT\"")
      ++ report_if (is_known config.nat_host_address)
          (at "nat_host_address" "nat_host_address requires switch_type = \"NAT\"")

unfoldable pub validate_force_migration : Model → Diagnostics
validate_force_migration config =
    if is_unknown config.switch_type
    then []
    else if not (is_known config.force_management_os_migration)
    then []
    else if value_string config.switch_type == "External"
    then []
    else at "force_management_os_migration"
        "force_management_os_migration requires switch_type = \"External\""
      ∷ []

pub data NatPrefixIssue : Type 0 where
  ok parse not_ipv4 bad_length host_bits : NatPrefixIssue

module _ ⦃net : Net⦄ where
  unfoldable pub check_network : ℕ → Network → NatPrefixIssue
  check_network ip n =
      if not (is_v4 ip)
      then NatPrefixIssue.not_ipv4
      else if ltb n.ones 1 || ltb 30 n.ones
      then NatPrefixIssue.bad_length
      else if not (nat_eq ip n.ip)
      then NatPrefixIssue.host_bits
      else NatPrefixIssue.ok

  unfoldable pub check_nat_prefix : String → NatPrefixIssue
  unfolding check_network
  check_nat_prefix prefix = elim (net.parse_cidr prefix) [
    | none ↦ NatPrefixIssue.parse
    | some (ip, n) ↦ check_network ip n
  ]

  abbrev pub prefix_summary : NatPrefixIssue → Diagnostics
  prefix_summary NatPrefixIssue.ok = []
  prefix_summary NatPrefixIssue.parse =
      at "nat_internal_address_prefix" "nat_internal_address_prefix is not a valid CIDR" ∷ []
  prefix_summary NatPrefixIssue.not_ipv4 =
      at "nat_internal_address_prefix" "nat_internal_address_prefix must be IPv4" ∷ []
  prefix_summary NatPrefixIssue.bad_length =
      at "nat_internal_address_prefix" "nat_internal_address_prefix has an unusable prefix length"
      ∷ []
  prefix_summary NatPrefixIssue.host_bits =
      at "nat_internal_address_prefix"
        "nat_internal_address_prefix must be in canonical network-address form"
      ∷ []

  unfoldable pub validate_nat_prefix : Model → Diagnostics
  validate_nat_prefix config = elim config.nat_internal_address_prefix [
    | null ↦ []
    | unknown ↦ []
    | known prefix ↦ prefix_summary (check_nat_prefix prefix)
  ]

  abbrev pub in_prefix : ℕ → Attr String → Diagnostics
  in_prefix ip null = []
  in_prefix ip unknown = []
  in_prefix ip (known prefix) = elim (net.parse_cidr (net.trim_space prefix)) [
    | none ↦ []
    | some (base, n) ↦
        report_if (not (contains n ip))
          (at "nat_host_address" "nat_host_address must lie inside nat_internal_address_prefix")
  ]

  abbrev pub not_an_address : Diagnostics
  not_an_address = at "nat_host_address" "nat_host_address is not a valid IPv4 address" ∷ []

  unfoldable pub check_host_address : Attr String → String → Diagnostics
  check_host_address prefix host = elim (net.parse_ip host) [
    | none ↦ not_an_address
    | some ip ↦ if not (is_v4 ip) then not_an_address else in_prefix ip prefix
  ]

  unfoldable pub validate_nat_host_address : Model → Diagnostics
  validate_nat_host_address config = elim config.nat_host_address [
    | null ↦ []
    | unknown ↦ []
    | known host ↦ check_host_address config.nat_internal_address_prefix host
  ]

  -- ConfigValidators: the framework runs all of them and gathers what they report.
  unfoldable pub validate : Model → Diagnostics
  validate config =
      validate_private_allow_management_os config
      ++ validate_external_adapter_names config
      ++ validate_nat_required config
      ++ validate_nat_rejects config
      ++ validate_nat_only config
      ++ validate_nat_prefix config
      ++ validate_nat_host_address config
      ++ validate_force_migration config
