-- ===== src/Vm/Model/Resolved.antt =====
-- When a model of internal/resources/vm/model.go has no unknown value.
use terraform_provider_hyper.Vm.Model.{
  BootOrderEntryModel, DvdDriveModel, HardDiskDriveModel, Model, NetworkAdapterModel, CpuModel,
  MemoryModel, StateModel,
}
use terraform_provider_hyper.Framework.{Attr, IsResolved}
use terraform_provider_hyper.Common.{none, some, Option, List, All, String}

module _ {A : Type 0} where
  -- A list attribute that is resolved with all its elements.
  abbrev pub AllResolved : (A → Type 0) → Attr (List A) → Type 0
  AllResolved P Attr.null = Unit
  AllResolved P Attr.unknown = ⊥
  AllResolved P (Attr.known xs) = All P xs

abbrev pub DiskResolved : HardDiskDriveModel → Type 0
DiskResolved d =
    IsResolved d.path
    × IsResolved d.controller_type
    × IsResolved d.controller_number
    × IsResolved d.controller_location

abbrev pub AdapterResolved : NetworkAdapterModel → Type 0
AdapterResolved n =
    IsResolved n.name
    × IsResolved n.switch_name
    × IsResolved n.ip_addresses
    × IsResolved n.mac_address
    × IsResolved n.vlan_id

abbrev pub DvdResolved : DvdDriveModel → Type 0
DvdResolved d =
    IsResolved d.iso_path
    × IsResolved d.controller_type
    × IsResolved d.controller_number
    × IsResolved d.controller_location

abbrev pub EntryResolved : BootOrderEntryModel → Type 0
EntryResolved e =
    IsResolved e.type
    × IsResolved e.controller_type
    × IsResolved e.controller_number
    × IsResolved e.controller_location
    × IsResolved e.name

abbrev pub MemoryResolved : Option MemoryModel → Type 0
MemoryResolved none = Unit
MemoryResolved (some m) =
    IsResolved m.startup_bytes
    × IsResolved m.dynamic
    × IsResolved m.min_bytes
    × IsResolved m.max_bytes

abbrev pub StateResolved : Option StateModel → Type 0
StateResolved none = Unit
StateResolved (some s) = IsResolved s.desired × IsResolved s.current × IsResolved s.shutdown_mode

abbrev pub CpuResolved : Option CpuModel → Type 0
CpuResolved none = Unit
CpuResolved (some c) = IsResolved c.count

-- No attribute of the model, nested ones included, is unknown.
pub record ModelResolved (m : Model) : Type 0 where
  pub id : IsResolved m.id
  pub vm_id : IsResolved m.vm_id
  pub name : IsResolved m.name
  pub generation : IsResolved m.generation
  pub cpu : CpuResolved m.cpu
  pub memory : MemoryResolved m.memory
  pub hard_disk_drives : AllResolved DiskResolved m.hard_disk_drives
  pub network_adapters : AllResolved AdapterResolved m.network_adapters
  pub dvd_drives : AllResolved DvdResolved m.dvd_drives
  pub boot_order : AllResolved EntryResolved m.boot_order
  pub secure_boot : IsResolved m.secure_boot
  pub secure_boot_template : IsResolved m.secure_boot_template
  pub notes : IsResolved m.notes
  pub state : StateResolved m.state
  pub ip_addresses : IsResolved m.ip_addresses
  pub path : IsResolved m.path
  pub wait_for_guest_ip_timeout : IsResolved m.wait_for_guest_ip_timeout

-- The desired power state of a block, if there is one.
abbrev pub desired_state : Option StateModel → Attr String
desired_state none = Attr.null
desired_state (some s) = s.desired
