-- ===== src/Vm/Upgrade.antt =====
-- internal/resources/vm/upgrade.go: the recorded states of schema versions 0 to 5, and their upgrades to
-- the current model. The prior schemas only tell the framework how to decode them.
pub mod Kept
use terraform_provider_hyper.Common.{String, Bool, Option, none, some, List, [], ◌∷◌, map}
use terraform_provider_hyper.Common.Int.{ℤ}
use terraform_provider_hyper.Framework.{Attr, null, known, Slice, elements}
use terraform_provider_hyper.Vm.Model.{
  Model, CpuModel, MemoryModel, HardDiskDriveModel, NetworkAdapterModel, DvdDriveModel,
  BootOrderEntryModel, StateModel, hard_disk_drive_list_from_slice, network_adapter_list_from_slice,
  dvd_drive_list_from_slice, boot_order_list_from_slice,
}

pub record PriorModelV0 : Type 0 where
  pub id : Attr String
  pub name : Attr String
  pub generation : Attr ℤ
  pub vcpu : Attr ℤ
  pub memory_bytes : Attr ℤ
  pub secure_boot : Attr Bool
  pub notes : Attr String
  pub state : Attr String
  pub path : Attr String

pub record PriorStateModelV1 : Type 0 where
  pub desired : Attr String
  pub current : Attr String

pub record PriorMemoryModelV1V2 : Type 0 where
  pub startup_bytes : Attr ℤ

pub record PriorNetworkAdapterModelV1V2V3 : Type 0 where
  pub name : Attr String
  pub switch_name : Attr String

pub record PriorModelV1 : Type 0 where
  pub id : Attr String
  pub name : Attr String
  pub generation : Attr ℤ
  pub cpu : Option CpuModel
  pub memory : Option PriorMemoryModelV1V2
  pub hard_disk_drives : Slice HardDiskDriveModel
  pub network_adapters : Slice PriorNetworkAdapterModelV1V2V3
  pub dvd_drives : Slice DvdDriveModel
  pub boot_order : Slice BootOrderEntryModel
  pub secure_boot : Attr Bool
  pub notes : Attr String
  pub state : Option PriorStateModelV1
  pub ip_addresses : Attr (List String)
  pub path : Attr String

pub record PriorModelV2 : Type 0 where
  pub id : Attr String
  pub name : Attr String
  pub generation : Attr ℤ
  pub cpu : Option CpuModel
  pub memory : Option PriorMemoryModelV1V2
  pub hard_disk_drives : Slice HardDiskDriveModel
  pub network_adapters : Slice PriorNetworkAdapterModelV1V2V3
  pub dvd_drives : Slice DvdDriveModel
  pub boot_order : Slice BootOrderEntryModel
  pub secure_boot : Attr Bool
  pub notes : Attr String
  pub state : Option StateModel
  pub ip_addresses : Attr (List String)
  pub path : Attr String

pub record PriorModelV3 : Type 0 where
  pub id : Attr String
  pub name : Attr String
  pub generation : Attr ℤ
  pub cpu : Option CpuModel
  pub memory : Option MemoryModel
  pub hard_disk_drives : Slice HardDiskDriveModel
  pub network_adapters : Slice PriorNetworkAdapterModelV1V2V3
  pub dvd_drives : Slice DvdDriveModel
  pub boot_order : Slice BootOrderEntryModel
  pub secure_boot : Attr Bool
  pub notes : Attr String
  pub state : Option StateModel
  pub ip_addresses : Attr (List String)
  pub path : Attr String

pub record PriorNetworkAdapterModelV4 : Type 0 where
  pub name : Attr String
  pub switch_name : Attr String
  pub ip_addresses : Attr (List String)

pub record PriorModelV4 : Type 0 where
  pub id : Attr String
  pub name : Attr String
  pub generation : Attr ℤ
  pub cpu : Option CpuModel
  pub memory : Option MemoryModel
  pub hard_disk_drives : Slice HardDiskDriveModel
  pub network_adapters : Slice PriorNetworkAdapterModelV4
  pub dvd_drives : Slice DvdDriveModel
  pub boot_order : Slice BootOrderEntryModel
  pub secure_boot : Attr Bool
  pub notes : Attr String
  pub state : Option StateModel
  pub ip_addresses : Attr (List String)
  pub path : Attr String

pub record PriorModelV5 : Type 0 where
  pub id : Attr String
  pub name : Attr String
  pub generation : Attr ℤ
  pub cpu : Option CpuModel
  pub memory : Option MemoryModel
  pub hard_disk_drives : Attr (List HardDiskDriveModel)
  pub network_adapters : Attr (List NetworkAdapterModel)
  pub dvd_drives : Attr (List DvdDriveModel)
  pub boot_order : Attr (List BootOrderEntryModel)
  pub secure_boot : Attr Bool
  pub secure_boot_template : Attr String
  pub notes : Attr String
  pub state : Option StateModel
  pub ip_addresses : Attr (List String)
  pub path : Attr String

-- The made slice is never nil, also where the prior one is.
unfoldable pub expand_prior_nics : Slice PriorNetworkAdapterModelV1V2V3 → Slice NetworkAdapterModel
expand_prior_nics prior = some (
    map
      (λ n. record {
        name = n.name;
        switch_name = n.switch_name;
        ip_addresses = known [];
        mac_address = null;
        vlan_id = null;
      })
      (elements prior))

unfoldable pub expand_prior_nics_v4 : Slice PriorNetworkAdapterModelV4 → Slice NetworkAdapterModel
expand_prior_nics_v4 prior = some (
    map
      (λ n. record {
        name = n.name;
        switch_name = n.switch_name;
        ip_addresses = n.ip_addresses;
        mac_address = null;
        vlan_id = null;
      })
      (elements prior))

unfoldable pub expand_prior_memory : Option PriorMemoryModelV1V2 → Option MemoryModel
expand_prior_memory none = none
expand_prior_memory (some prior) = some (record {
  startup_bytes = prior.startup_bytes;
  dynamic = null;
  min_bytes = null;
  max_bytes = null;
})

unfoldable pub upgrade_v0_to_v1 : PriorModelV0 → Model
upgrade_v0_to_v1 prior = record {
  id = prior.id;
  vm_id = null;
  name = prior.name;
  generation = prior.generation;
  cpu = some (record { count = prior.vcpu });
  memory = some (record {
    startup_bytes = prior.memory_bytes;
    dynamic = null;
    min_bytes = null;
    max_bytes = null;
  });
  hard_disk_drives = known [];
  network_adapters = known [];
  dvd_drives = known [];
  boot_order = known [];
  secure_boot = prior.secure_boot;
  secure_boot_template = null;
  notes = prior.notes;
  state = none;
  ip_addresses = null;
  path = prior.path;
  wait_for_guest_ip_timeout = null;
}

unfoldable pub expand_prior_state : Option PriorStateModelV1 → Option StateModel
expand_prior_state none = none
expand_prior_state (some prior) =
    some (record { desired = prior.desired; current = prior.current; shutdown_mode = null })

unfoldable pub upgrade_v1_to_v2 : PriorModelV1 → Model
unfolding expand_prior_memory expand_prior_nics expand_prior_state
upgrade_v1_to_v2 prior = record {
  id = prior.id;
  vm_id = null;
  name = prior.name;
  generation = prior.generation;
  cpu = prior.cpu;
  memory = expand_prior_memory prior.memory;
  hard_disk_drives = hard_disk_drive_list_from_slice prior.hard_disk_drives;
  network_adapters = network_adapter_list_from_slice (expand_prior_nics prior.network_adapters);
  dvd_drives = dvd_drive_list_from_slice prior.dvd_drives;
  boot_order = boot_order_list_from_slice prior.boot_order;
  secure_boot = prior.secure_boot;
  secure_boot_template = null;
  notes = prior.notes;
  state = expand_prior_state prior.state;
  ip_addresses = prior.ip_addresses;
  path = prior.path;
  wait_for_guest_ip_timeout = null;
}

unfoldable pub upgrade_v2_to_v3 : PriorModelV2 → Model
unfolding expand_prior_memory expand_prior_nics
upgrade_v2_to_v3 prior = record {
  id = prior.id;
  vm_id = null;
  name = prior.name;
  generation = prior.generation;
  cpu = prior.cpu;
  memory = expand_prior_memory prior.memory;
  hard_disk_drives = hard_disk_drive_list_from_slice prior.hard_disk_drives;
  network_adapters = network_adapter_list_from_slice (expand_prior_nics prior.network_adapters);
  dvd_drives = dvd_drive_list_from_slice prior.dvd_drives;
  boot_order = boot_order_list_from_slice prior.boot_order;
  secure_boot = prior.secure_boot;
  secure_boot_template = null;
  notes = prior.notes;
  state = prior.state;
  ip_addresses = prior.ip_addresses;
  path = prior.path;
  wait_for_guest_ip_timeout = null;
}

unfoldable pub upgrade_v3_to_v5 : PriorModelV3 → Model
unfolding expand_prior_nics
upgrade_v3_to_v5 prior = record {
  id = prior.id;
  vm_id = null;
  name = prior.name;
  generation = prior.generation;
  cpu = prior.cpu;
  memory = prior.memory;
  hard_disk_drives = hard_disk_drive_list_from_slice prior.hard_disk_drives;
  network_adapters = network_adapter_list_from_slice (expand_prior_nics prior.network_adapters);
  dvd_drives = dvd_drive_list_from_slice prior.dvd_drives;
  boot_order = boot_order_list_from_slice prior.boot_order;
  secure_boot = prior.secure_boot;
  secure_boot_template = null;
  notes = prior.notes;
  state = prior.state;
  ip_addresses = prior.ip_addresses;
  path = prior.path;
  wait_for_guest_ip_timeout = null;
}

unfoldable pub upgrade_v4_to_v5 : PriorModelV4 → Model
unfolding expand_prior_nics_v4
upgrade_v4_to_v5 prior = record {
  id = prior.id;
  vm_id = null;
  name = prior.name;
  generation = prior.generation;
  cpu = prior.cpu;
  memory = prior.memory;
  hard_disk_drives = hard_disk_drive_list_from_slice prior.hard_disk_drives;
  network_adapters = network_adapter_list_from_slice (expand_prior_nics_v4 prior.network_adapters);
  dvd_drives = dvd_drive_list_from_slice prior.dvd_drives;
  boot_order = boot_order_list_from_slice prior.boot_order;
  secure_boot = prior.secure_boot;
  secure_boot_template = null;
  notes = prior.notes;
  state = prior.state;
  ip_addresses = prior.ip_addresses;
  path = prior.path;
  wait_for_guest_ip_timeout = null;
}

unfoldable pub upgrade_v5_to_v6 : PriorModelV5 → Model
upgrade_v5_to_v6 prior = record {
  id = prior.id;
  vm_id = null;
  name = prior.name;
  generation = prior.generation;
  cpu = prior.cpu;
  memory = prior.memory;
  hard_disk_drives = prior.hard_disk_drives;
  network_adapters = prior.network_adapters;
  dvd_drives = prior.dvd_drives;
  boot_order = prior.boot_order;
  secure_boot = prior.secure_boot;
  secure_boot_template = prior.secure_boot_template;
  notes = prior.notes;
  state = prior.state;
  ip_addresses = prior.ip_addresses;
  path = prior.path;
  wait_for_guest_ip_timeout = null;
}
