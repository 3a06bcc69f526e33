-- ===== src/Vm/Model.antt =====
-- internal/resources/vm/model.go: the resource's model. A list attribute is an `Attr` of a list: the
-- elements are objects of the declared attribute types, so decoding and encoding them cannot fail.
pub mod Resolved
use terraform_provider_hyper.Common.{String, Bool, Option, List}
use terraform_provider_hyper.Common.Int.{ℤ}
use terraform_provider_hyper.Framework.{Attr, Slice, to_slice, of_slice}

pub record CpuModel : Type 0 where
  pub count : Attr ℤ

pub record MemoryModel : Type 0 where
  pub startup_bytes : Attr ℤ
  pub dynamic : Attr Bool
  pub min_bytes : Attr ℤ
  pub max_bytes : Attr ℤ

pub record HardDiskDriveModel : Type 0 where
  pub path : Attr String
  pub controller_type : Attr String
  pub controller_number : Attr ℤ
  pub controller_location : Attr ℤ

pub record NetworkAdapterModel : Type 0 where
  pub name : Attr String
  pub switch_name : Attr String
  pub ip_addresses : Attr (List String)
  pub mac_address : Attr String
  pub vlan_id : Attr ℤ

pub record DvdDriveModel : Type 0 where
  pub iso_path : Attr String
  pub controller_type : Attr String
  pub controller_number : Attr ℤ
  pub controller_location : Attr ℤ

pub record BootOrderEntryModel : Type 0 where
  pub type : Attr String
  pub controller_type : Attr String
  pub controller_number : Attr ℤ
  pub controller_location : Attr ℤ
  pub name : Attr String

pub record StateModel : Type 0 where
  pub desired : Attr String
  pub current : Attr String
  pub shutdown_mode : Attr String

-- The pointer fields `cpu`, `memory` and `state` are `none` where Go has nil.
pub record Model : Type 0 where
  pub id : Attr String
  pub vm_id : Attr String
  pub name : Attr String
  pub generation : Attr ℤ
  pub cpu : Option CpuModel
  pub memory : Option MemoryModel
  pub hard_disk_drives : Attr (List HardDiskDriveModel)
  pub network_adapters : Attr (List NetworkAdapterModel)
  pub dvd_drives : Attr (List DvdDriveModel)
  pub boot_order : Attr (List BootOrderEntryModel)
  pub secure_boot : Attr Bool
  pub secure_boot_template : Attr String
  pub notes : Attr String
  pub state : Option StateModel
  pub ip_addresses : Attr (List String)
  pub path : Attr String
  pub wait_for_guest_ip_timeout : Attr String

abbrev pub hard_disk_drive_models : Model → Slice HardDiskDriveModel
hard_disk_drive_models m = to_slice m.hard_disk_drives

abbrev pub hard_disk_drive_list_from_slice :
    Slice HardDiskDriveModel → Attr (List HardDiskDriveModel)
hard_disk_drive_list_from_slice = of_slice

abbrev pub network_adapter_models : Model → Slice NetworkAdapterModel
network_adapter_models m = to_slice m.network_adapters

abbrev pub network_adapter_list_from_slice :
    Slice NetworkAdapterModel → Attr (List NetworkAdapterModel)
network_adapter_list_from_slice = of_slice

abbrev pub dvd_drive_models : Model → Slice DvdDriveModel
dvd_drive_models m = to_slice m.dvd_drives

abbrev pub dvd_drive_list_from_slice : Slice DvdDriveModel → Attr (List DvdDriveModel)
dvd_drive_list_from_slice = of_slice

abbrev pub boot_order_entries : Model → Slice BootOrderEntryModel
boot_order_entries m = to_slice m.boot_order

abbrev pub boot_order_list_from_slice : Slice BootOrderEntryModel → Attr (List BootOrderEntryModel)
boot_order_list_from_slice = of_slice
