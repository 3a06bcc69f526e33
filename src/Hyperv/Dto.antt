-- ===== src/Hyperv/Dto.antt =====
-- internal/hyperv/types.go: what the VM scripts emit and what they take. A Go pointer field that may be
-- absent is an `Option`; `int` and `int64` are both integers, since every conversion between them is
-- the identity on the 64-bit platforms that the provider is built for.
use terraform_provider_hyper.Common.{String, Bool, Option, List}
use terraform_provider_hyper.Common.Int.{ℤ}

pub record BootOrderEntry : Type 0 where
  pub type : String
  pub controller_type : String
  pub controller_number : ℤ
  pub controller_location : ℤ
  pub name : String

pub record NetworkAdapter : Type 0 where
  pub name : String
  pub switch_name : String
  pub ip_addresses : List String
  pub mac_address : String
  pub vlan_id : ℤ

pub record DvdDrive : Type 0 where
  pub path : String
  pub controller_type : String
  pub controller_number : ℤ
  pub controller_location : ℤ

pub record HardDiskDrive : Type 0 where
  pub path : String
  pub controller_type : String
  pub controller_number : ℤ
  pub controller_location : ℤ

pub record Vm : Type 0 where
  pub name : String
  pub id : String
  pub generation : ℤ
  pub processor_count : ℤ
  pub memory_startup_bytes : ℤ
  pub memory_assigned_bytes : ℤ
  pub memory_dynamic_enabled : Bool
  pub memory_minimum_bytes : Option ℤ
  pub memory_maximum_bytes : Option ℤ
  pub state : String
  pub notes : String
  pub path : String
  pub secure_boot_enabled : Option Bool
  pub secure_boot_template : String
  pub hard_disk_drives : List HardDiskDrive
  pub network_adapters : List NetworkAdapter
  pub dvd_drives : List DvdDrive
  pub boot_order : List BootOrderEntry

pub record SetBootOrderEntryInput : Type 0 where
  pub type : String
  pub controller_type : String
  pub controller_number : ℤ
  pub controller_location : ℤ
  pub name : String

pub record SetBootOrderInput : Type 0 where
  pub name : String
  pub boot_order : List SetBootOrderEntryInput

pub record AttachNetworkAdapterInput : Type 0 where
  pub name : String
  pub vm_name : String
  pub switch_name : String
  pub mac_address : String
  pub vlan_id : ℤ

pub record DetachNetworkAdapterInput : Type 0 where
  pub name : String
  pub vm_name : String

pub record AttachDvdDriveInput : Type 0 where
  pub name : String
  pub controller_type : String
  pub controller_number : ℤ
  pub controller_location : ℤ
  pub iso_path : Option String

pub record DetachDvdDriveInput : Type 0 where
  pub name : String
  pub controller_type : String
  pub controller_number : ℤ
  pub controller_location : ℤ

pub record AttachHardDiskInput : Type 0 where
  pub name : String
  pub controller_type : String
  pub controller_number : ℤ
  pub controller_location : ℤ
  pub path : String

pub record DetachHardDiskInput : Type 0 where
  pub name : String
  pub controller_type : String
  pub controller_number : ℤ
  pub controller_location : ℤ

pub record NewVmInput : Type 0 where
  pub name : String
  pub generation : ℤ
  pub vcpu : ℤ
  pub memory_bytes : ℤ
  pub dynamic_memory : Option Bool
  pub min_memory_bytes : Option ℤ
  pub max_memory_bytes : Option ℤ
  pub secure_boot : Option Bool
  pub secure_boot_template : Option String
  pub notes : Option String
  pub path : Option String

pub record SetVmStateInput : Type 0 where
  pub name : String
  pub desired : String
  pub shutdown_mode : String

pub record SetVmInput : Type 0 where
  pub name : String
  pub generation : ℤ
  pub vcpu : Option ℤ
  pub memory_bytes : Option ℤ
  pub dynamic_memory : Option Bool
  pub min_memory_bytes : Option ℤ
  pub max_memory_bytes : Option ℤ
  pub secure_boot : Option Bool
  pub notes : Option String
  pub path : Option String
