-- ===== src/Vm/Slots.antt =====
-- The attachments of internal/resources/vm/resource.go: the key of each kind of device, when a planned
-- device is the recorded one, the three diffs, and the inputs of the attach and detach calls.
pub mod Reconcile
mod Tests
use terraform_provider_hyper.Common.{
  String, ◌≡◌, ◌↔◌, Bool, true, false, ◌&&◌, ◌||◌, not, Option, none, some, List, arith, ◌==◌,
  eq_iff, if◌then◌else◌, Bool-cases, inl, inr,
}
use terraform_provider_hyper.Common.Int.{ℤ, pos, eq_ℤ, eq_ℤ_iff}
use terraform_provider_hyper.Common.Eq.{Eq, string_eq}
use terraform_provider_hyper.Common.Assoc.{Visit}
use terraform_provider_hyper.Framework.{
  Attr, is_null, is_unknown, is_known, value_string, value_int64, value_or, equal, bool_eq,
}
use terraform_provider_hyper.Types.Runes.{Unicode, runes_eq}
use terraform_provider_hyper.Types.Path
use terraform_provider_hyper.Types.Mac
use terraform_provider_hyper.Hyperv.Dto.{
  AttachHardDiskInput, DetachHardDiskInput, AttachNetworkAdapterInput, DetachNetworkAdapterInput,
  AttachDvdDriveInput, DetachDvdDriveInput,
}
use terraform_provider_hyper.Vm.Model.{HardDiskDriveModel, NetworkAdapterModel, DvdDriveModel}
use terraform_provider_hyper.Vm.Diff.{diff}

pub record HddSlotKey : Type 0 where
  pub controller_type : String
  pub controller_number : ℤ
  pub controller_location : ℤ

abbrev pub slot_beq : HddSlotKey → HddSlotKey → Bool
slot_beq a b =
    a.controller_type == b.controller_type
    && (eq_ℤ a.controller_number b.controller_number
        && eq_ℤ a.controller_location b.controller_location)

pub slot_beq_iff : (a b : HddSlotKey) → (slot_beq a b ≡ true) ↔ (a ≡ b)
slot_beq_iff a b = ground (
  arith,
  eq_iff a.controller_type b.controller_type,
  eq_ℤ_iff a.controller_number b.controller_number,
  eq_ℤ_iff a.controller_location b.controller_location,
)

instance abbrev pub slot_eq : Eq HddSlotKey
slot_eq = record { beq = slot_beq; beq_iff = slot_beq_iff }

-- A missing controller type means SCSI; a configured empty text stays empty.
abbrev pub controller_type_or_default : Attr String → String
controller_type_or_default t = if is_null t || is_unknown t then "SCSI" else value_string t

unfoldable pub hdd_slot_key_of : HardDiskDriveModel → HddSlotKey
hdd_slot_key_of h = record {
  controller_type = controller_type_or_default h.controller_type;
  controller_number = value_int64 h.controller_number;
  controller_location = value_int64 h.controller_location;
}

unfoldable pub dvd_slot_key_of : DvdDriveModel → HddSlotKey
dvd_slot_key_of d = record {
  controller_type = controller_type_or_default d.controller_type;
  controller_number = value_int64 d.controller_number;
  controller_location = value_int64 d.controller_location;
}

unfoldable pub nic_key_of : NetworkAdapterModel → String
nic_key_of n = value_string n.name

module _ ⦃u : Unicode⦄ where
  -- No attach and no detach at a slot that holds the planned path already.
  unfoldable pub same_hard_disk : HardDiskDriveModel → HardDiskDriveModel → Bool
  same_hard_disk p s = Path.string_semantic_equals p.path s.path

  -- The negation of the test for a detach and an attach.
  unfoldable pub same_network_adapter : NetworkAdapterModel → NetworkAdapterModel → Bool
  same_network_adapter p s =
      let macs_differ =
        if not (bool_eq (is_null p.mac_address) (is_null s.mac_address))
        then true
        else not (
            runes_eq (Mac.normalize (value_string p.mac_address))
              (Mac.normalize (value_string s.mac_address))) in
      not (
        not (equal ◌==◌ p.switch_name s.switch_name)
        || (macs_differ || not (equal eq_ℤ p.vlan_id s.vlan_id)))

  unfoldable pub same_dvd_drive : DvdDriveModel → DvdDriveModel → Bool
  same_dvd_drive p s =
      let plan_null = is_null p.iso_path || is_unknown p.iso_path in
      let state_null = is_null s.iso_path || is_unknown s.iso_path in
      if plan_null && state_null
      then true
      else if not (bool_eq plan_null state_null)
      then false
      else Path.string_semantic_equals p.iso_path s.iso_path

  unfoldable pub diff_hard_disk_drives :
      Visit (HddSlotKey × HardDiskDriveModel)
      → Visit (HddSlotKey × HardDiskDriveModel)
      → List HardDiskDriveModel
      → List HardDiskDriveModel
      → List HardDiskDriveModel × List HardDiskDriveModel
  unfolding diff hdd_slot_key_of same_hard_disk
  diff_hard_disk_drives = diff hdd_slot_key_of same_hard_disk

  unfoldable pub diff_network_adapters :
      Visit (String × NetworkAdapterModel)
      → Visit (String × NetworkAdapterModel)
      → List NetworkAdapterModel
      → List NetworkAdapterModel
      → List NetworkAdapterModel × List NetworkAdapterModel
  unfolding diff nic_key_of same_network_adapter
  diff_network_adapters = diff nic_key_of same_network_adapter

  unfoldable pub diff_dvd_drives :
      Visit (HddSlotKey × DvdDriveModel)
      → Visit (HddSlotKey × DvdDriveModel)
      → List DvdDriveModel
      → List DvdDriveModel
      → List DvdDriveModel × List DvdDriveModel
  unfolding diff dvd_slot_key_of same_dvd_drive
  diff_dvd_drives = diff dvd_slot_key_of same_dvd_drive

-- What a known value is sent as; the zero value, or no key at all, where it is not known.
abbrev pub optional {ℓ} : {A : Type ℓ} → Attr A → Option A
optional Attr.null = none
optional Attr.unknown = none
optional (Attr.known a) = some a

unfoldable pub attach_input_for : String → HardDiskDriveModel → AttachHardDiskInput
attach_input_for vm_name h = record {
  name = vm_name;
  controller_type = controller_type_or_default h.controller_type;
  controller_number = value_int64 h.controller_number;
  controller_location = value_int64 h.controller_location;
  path = value_string h.path;
}

unfoldable pub detach_input_for : String → HardDiskDriveModel → DetachHardDiskInput
detach_input_for vm_name h = record {
  name = vm_name;
  controller_type = controller_type_or_default h.controller_type;
  controller_number = value_int64 h.controller_number;
  controller_location = value_int64 h.controller_location;
}

unfoldable pub attach_nic_input_for : String → NetworkAdapterModel → AttachNetworkAdapterInput
attach_nic_input_for vm n = record {
  name = value_string n.name;
  vm_name = vm;
  switch_name = value_string n.switch_name;
  mac_address = value_or "" n.mac_address;
  vlan_id = value_or (pos 0) n.vlan_id;
}

unfoldable pub detach_nic_input_for : String → NetworkAdapterModel → DetachNetworkAdapterInput
detach_nic_input_for vm n = record { name = value_string n.name; vm_name = vm }

unfoldable pub attach_dvd_input_for : String → DvdDriveModel → AttachDvdDriveInput
attach_dvd_input_for vm_name d = record {
  name = vm_name;
  controller_type = controller_type_or_default d.controller_type;
  controller_number = value_int64 d.controller_number;
  controller_location = value_int64 d.controller_location;
  iso_path = optional d.iso_path;
}

unfoldable pub detach_dvd_input_for : String → DvdDriveModel → DetachDvdDriveInput
detach_dvd_input_for vm_name d = record {
  name = vm_name;
  controller_type = controller_type_or_default d.controller_type;
  controller_number = value_int64 d.controller_number;
  controller_location = value_int64 d.controller_location;
}
