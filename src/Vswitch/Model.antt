-- ===== src/Vswitch/Model.antt =====
-- internal/resources/vswitch/model.go and the translations of resource.go between the model and the
-- client's DTOs. The element decoding of the framework cannot fail on a list of strings.
use terraform_provider_hyper.Common.{
  String, List, [], Bool, not, ◌&&◌, Option, none, some, ◌==◌, if◌then◌else◌,
}
use terraform_provider_hyper.Framework.{Attr, null, unknown, known, value_string}
use terraform_provider_hyper.Hyperv.Switches.{VmSwitch, NewVmSwitchInput, SetVmSwitchInput}

pub record Model : Type 0 where
  pub id : Attr String
  pub name : Attr String
  pub switch_type : Attr String
  pub net_adapter_names : Attr (List String)
  pub allow_management_os : Attr Bool
  pub notes : Attr String
  pub net_adapter_interface_description : Attr String
  pub nat_name : Attr String
  pub nat_internal_address_prefix : Attr String
  pub nat_host_address : Attr String
  pub force_management_os_migration : Attr Bool

-- A pointer to a known value, else nil.
abbrev pub pointer : {A : Type 0} → Attr A → Option A
pointer null = none
pointer unknown = none
pointer (known a) = some a

-- The Go slice of a known list, else nil; the wire does not tell nil from empty.
abbrev pub names_of : Attr (List String) → List String
names_of null = []
names_of unknown = []
names_of (known ns) = ns

unfoldable pub build_new_input : Model → NewVmSwitchInput
build_new_input plan = record {
  name = value_string plan.name;
  switch_type = value_string plan.switch_type;
  net_adapter_names = names_of plan.net_adapter_names;
  allow_management_os = pointer plan.allow_management_os;
  notes = pointer plan.notes;
  nat_name = value_string plan.nat_name;
  nat_internal_address_prefix = value_string plan.nat_internal_address_prefix;
  nat_host_address = value_string plan.nat_host_address;
}

unfoldable pub build_set_input : Model → Model → SetVmSwitchInput
build_set_input plan state =
    let state_type = value_string state.switch_type in
    record {
      name = value_string plan.name;
      switch_type = state_type;
      net_adapter_names = names_of plan.net_adapter_names;
      allow_management_os =
          if not (state_type == "Private") && not (state_type == "NAT")
          then pointer plan.allow_management_os
          else none;
      notes = pointer plan.notes;
      nat_name = if state_type == "NAT" then value_string state.nat_name else "";
    }

-- An empty string of the read is null in the model.
abbrev pub unless_empty : String → Attr String
unless_empty s = if s == "" then null else known s

abbrev pub or_no_names : Attr (List String) → Attr (List String)
or_no_names null = known []
or_no_names unknown = known []
or_no_names (known ns) = known ns

unfoldable pub model_from_vm_switch : VmSwitch → Attr (List String) → Attr Bool → Model
model_from_vm_switch sw net_adapter_names force_migration = record {
  id = known sw.name;
  name = known sw.name;
  switch_type = known sw.switch_type;
  net_adapter_names = or_no_names net_adapter_names;
  allow_management_os = known sw.allow_management_os;
  notes = known sw.notes;
  net_adapter_interface_description = known sw.net_adapter_interface_description;
  nat_name = unless_empty sw.nat_name;
  nat_internal_address_prefix = unless_empty sw.nat_internal_address_prefix;
  nat_host_address = unless_empty sw.nat_host_address;
  force_management_os_migration = force_migration;
}
