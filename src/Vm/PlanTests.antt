-- ===== src/Vm/PlanTests.antt =====
-- Concrete runs of the VM resource's validators and upgrades.
use terraform_provider_hyper.Vm.Validators.Running.{
  NoTimeout, RunsOrDeferred, validate_wait-NoWait_iff,
}
use terraform_provider_hyper.Vm.Fixtures.{lab_text}
use terraform_provider_hyper.Hyperv.Errors.Laws.{parse_error_envelope-not_found_iff}
use terraform_provider_hyper.Vm.Validators.Names.{NoRepeat, validate_unique_names-NoRepeat_iff}
use terraform_provider_hyper.Vm.Validators.Memory.{
  MemoryAccepted, validate_memory-MemoryAccepted_iff,
}
use terraform_provider_hyper.Vm.Validators.Generation.{
  Gen2OrDeferred, NoBootOrder, gen1_validators_iff,
}
use terraform_provider_hyper.Common.Int.{pos}
use terraform_provider_hyper.Common.Assoc.{lookup, insert}
use terraform_provider_hyper.Framework.{known, null, attribute_error, PathStep}
use terraform_provider_hyper.Vm.Validators.{
  validate_dynamic_memory_bounds, validate_secure_boot, validate_unique_names, first_duplicate,
  validate_secure_boot_template, validate_boot_order, validate_wait_requires_running,
}
use terraform_provider_hyper.Vm.Upgrade.Kept.{
  forget_v1, forget_v2, forget_v3, forget_v4, forget_v5, upgrade-keeps_all,
}
use terraform_provider_hyper.Vm.Upgrade.{
  PriorModelV1, PriorModelV2, PriorModelV3, PriorModelV4, PriorModelV5, upgrade_v1_to_v2,
  upgrade_v2_to_v3, upgrade_v3_to_v5, upgrade_v4_to_v5, upgrade_v5_to_v6,
}
use terraform_provider_hyper.Vm.Model.{MemoryModel, Model, NetworkAdapterModel}
use terraform_provider_hyper.Hyperv.Errors.{is_not_found, parse_error_envelope, ErrorEnvelope}
use terraform_provider_hyper.Common.{
  refl, none, some, true, false, [], ◌∷◌, ◌≡◌, String, Option, ◌↔◌, ◌≢◌, ◌⊎◌,
}

abbrev dynamic_memory : MemoryModel
dynamic_memory = record {
  startup_bytes = known (pos 1024);
  dynamic = known true;
  min_bytes = known (pos 512);
  max_bytes = null;
}

abbrev adapter : String → NetworkAdapterModel
adapter n = record {
  name = known n;
  switch_name = known "external";
  ip_addresses = null;
  mac_address = null;
  vlan_id = null;
}

abbrev bios_config : Model
bios_config = record {
  id = null;
  vm_id = null;
  name = known "old";
  generation = known (pos 1);
  cpu = some (record { count = known (pos 1) });
  memory = some dynamic_memory;
  hard_disk_drives = null;
  network_adapters = known (adapter "lan" ∷ adapter "wan" ∷ adapter "lan" ∷ []);
  dvd_drives = null;
  boot_order = known [];
  secure_boot = known true;
  secure_boot_template = null;
  notes = null;
  state = none;
  ip_addresses = null;
  path = null;
  wait_for_guest_ip_timeout = null;
}

abbrev state_v1 : PriorModelV1
state_v1 = record {
  id = known "old";
  name = known "old";
  generation = known (pos 2);
  cpu = some (record { count = known (pos 1) });
  memory = some (record { startup_bytes = known (pos 1024) });
  hard_disk_drives = none;
  network_adapters = none;
  dvd_drives = some [];
  boot_order = none;
  secure_boot = null;
  notes = null;
  state = some (record { desired = known "Off"; current = known "Off" });
  ip_addresses = null;
  path = null;
}

abbrev state_v2 : PriorModelV2
state_v2 = record {
  id = known "old";
  name = known "old";
  generation = known (pos 2);
  cpu = some (record { count = known (pos 1) });
  memory = some (record { startup_bytes = known (pos 1024) });
  hard_disk_drives = none;
  network_adapters = some (record { name = known "lan"; switch_name = known "external" } ∷ []);
  dvd_drives = some [];
  boot_order = none;
  secure_boot = null;
  notes = null;
  state = none;
  ip_addresses = null;
  path = null;
}

abbrev state_v3 : PriorModelV3
state_v3 = record {
  id = known "old";
  name = known "old";
  generation = known (pos 2);
  cpu = some (record { count = known (pos 1) });
  memory = some dynamic_memory;
  hard_disk_drives = none;
  network_adapters = some (record { name = known "lan"; switch_name = known "external" } ∷ []);
  dvd_drives = some [];
  boot_order = none;
  secure_boot = null;
  notes = null;
  state = none;
  ip_addresses = null;
  path = null;
}

abbrev state_v4 : PriorModelV4
state_v4 = record {
  id = known "old";
  name = known "old";
  generation = known (pos 2);
  cpu = some (record { count = known (pos 1) });
  memory = some dynamic_memory;
  hard_disk_drives = none;
  network_adapters =
      some (
        record { name = known "lan"; switch_name = known "external"; ip_addresses = known [] }
        ∷ []);
  dvd_drives = some [];
  boot_order = none;
  secure_boot = null;
  notes = null;
  state = none;
  ip_addresses = null;
  path = null;
}

abbrev state_v5 : PriorModelV5
state_v5 = record {
  id = known "old";
  name = known "old";
  generation = known (pos 2);
  cpu = some (record { count = known (pos 1) });
  memory = some dynamic_memory;
  hard_disk_drives = null;
  network_adapters = known (adapter "lan" ∷ []);
  dvd_drives = known [];
  boot_order = known [];
  secure_boot = null;
  secure_boot_template = null;
  notes = null;
  state = none;
  ip_addresses = null;
  path = null;
}

-- The third adapter repeats the first one's name.
reports_third :
    validate_unique_names bios_config
    ≡ attribute_error
        (PathStep.name "network_adapter" ∷ PathStep.index 2 ∷ PathStep.name "name" ∷ [])
        "network_adapter names must be unique within a VM"
      ∷ []
unfolding validate_unique_names first_duplicate lookup insert
reports_third = refl

validate_memory-MemoryAccepted_iff_example :
    (validate_dynamic_memory_bounds bios_config ≡ []) ↔ MemoryAccepted dynamic_memory
validate_memory-MemoryAccepted_iff_example =
    validate_memory-MemoryAccepted_iff bios_config dynamic_memory refl

validate_unique_names-NoRepeat_iff_example :
    (validate_unique_names bios_config ≡ []) ↔ NoRepeat ("lan" ∷ "wan" ∷ "lan" ∷ [])
validate_unique_names-NoRepeat_iff_example = validate_unique_names-NoRepeat_iff bios_config

gen1_validators_iff_example :
    ((validate_secure_boot bios_config ≡ []) ↔ (Gen2OrDeferred (known (pos 1)) ⊎ (true ≡ false)))
    × ((validate_secure_boot_template bios_config ≡ [])
        ↔ (Gen2OrDeferred (known (pos 1)) ⊎ (false ≡ false)))
    × ((validate_boot_order bios_config ≡ [])
        ↔ (Gen2OrDeferred (known (pos 1)) ⊎ NoBootOrder bios_config.boot_order))
gen1_validators_iff_example = gen1_validators_iff bios_config

upgrade-keeps_all_example :
    (forget_v1 (upgrade_v1_to_v2 state_v1) ≡ record state_v1 { network_adapters = some [] })
    × (forget_v2 (upgrade_v2_to_v3 state_v2) ≡ state_v2)
    × (forget_v3 (upgrade_v3_to_v5 state_v3) ≡ state_v3)
    × (forget_v4 (upgrade_v4_to_v5 state_v4) ≡ state_v4)
    × (forget_v5 (upgrade_v5_to_v6 state_v5) ≡ state_v5)
upgrade-keeps_all_example = upgrade-keeps_all state_v1 state_v2 state_v3 state_v4 state_v5

abbrev decode : String → Option ErrorEnvelope
decode s = some (record { category = s; fully_qualified_error_id = "" })

abbrev object_not_found : String
object_not_found = "ObjectNotFound"

parse_error_envelope-not_found_iff_example :
    (is_not_found (parse_error_envelope decode object_not_found) ≡ true) ↔ (
      (env : ErrorEnvelope) × (object_not_found ≢ "")
      × (decode object_not_found ≡ some env)
      × (env.category ≡ object_not_found))
parse_error_envelope-not_found_iff_example =
    parse_error_envelope-not_found_iff decode object_not_found

validate_wait-NoWait_iff_example :
    (validate_wait_requires_running ⦃t = lab_text⦄ bios_config ≡ [])
    ↔ (NoTimeout ⦃t = lab_text⦄ null ⊎ RunsOrDeferred none)
validate_wait-NoWait_iff_example = validate_wait-NoWait_iff ⦃t = lab_text⦄ bios_config
