-- ===== src/Vm/Hydrate.antt =====
-- modelFromVM and memoryModelFromVM of internal/resources/vm/resource.go, and IPAddresses of
-- internal/typeflatten/typeflatten.go: the model that a read of the host gives.
use terraform_provider_hyper.Common.{
  String, ℕ, Bool, true, false, ◌&&◌, ◌||◌, not, Option, none, some, List, [], ◌∷◌, map, ◌++◌, ◌==◌,
  if◌then◌else◌, ltb, nat_eq,
}
use terraform_provider_hyper.Common.Int.{ℤ, pos, ltb_ℤ, eq_ℤ}
use terraform_provider_hyper.Common.Sort.{Sorter}
use terraform_provider_hyper.Framework.{Attr, null, known}
use terraform_provider_hyper.Hyperv.Dto.{
  Vm, HardDiskDrive, NetworkAdapter, DvdDrive, BootOrderEntry,
}
use terraform_provider_hyper.Types.Runes.{runes}
use terraform_provider_hyper.Vm.Model.{
  Model, MemoryModel, HardDiskDriveModel, NetworkAdapterModel, DvdDriveModel, BootOrderEntryModel,
  hard_disk_drive_list_from_slice, network_adapter_list_from_slice, dvd_drive_list_from_slice,
  boot_order_list_from_slice,
}

-- Go's `<` on strings compares bytes, which for UTF-8 is the order of the runes.
abbrev runes_less : List ℕ → List ℕ → Bool
runes_less s [] = false
runes_less [] (d ∷ t) = true
runes_less (c ∷ s) (d ∷ t) = if ltb c d then true else nat_eq c d && runes_less s t

abbrev pub string_less : String → String → Bool
string_less s t = runes_less (runes s) (runes t)

-- The order of the slots: by controller type, then number, then location.
abbrev pub slot_less : String → ℤ → ℤ → String → ℤ → ℤ → Bool
slot_less t n l t' n' l' =
    if not (t == t') then string_less t t' else if not (eq_ℤ n n') then ltb_ℤ n n' else ltb_ℤ l l'

abbrev hard_disk_less : HardDiskDrive → HardDiskDrive → Bool
hard_disk_less a b =
    slot_less a.controller_type a.controller_number a.controller_location b.controller_type
      b.controller_number b.controller_location

abbrev network_adapter_less : NetworkAdapter → NetworkAdapter → Bool
network_adapter_less a b = string_less a.name b.name

abbrev dvd_less : DvdDrive → DvdDrive → Bool
dvd_less a b =
    slot_less a.controller_type a.controller_number a.controller_location b.controller_type
      b.controller_number b.controller_location

abbrev pub known_or_null {ℓ} : {A : Type ℓ} → Option A → Attr A
known_or_null none = null
known_or_null (some a) = known a

abbrev pub nonempty_or_null : String → Attr String
nonempty_or_null s = if s == "" then null else known s

unfoldable pub hard_disk_model : HardDiskDrive → HardDiskDriveModel
hard_disk_model h = record {
  path = known h.path;
  controller_type = known h.controller_type;
  controller_number = known h.controller_number;
  controller_location = known h.controller_location;
}

unfoldable pub network_adapter_model : NetworkAdapter → NetworkAdapterModel
network_adapter_model n = record {
  name = known n.name;
  switch_name = known n.switch_name;
  ip_addresses = known n.ip_addresses;
  mac_address = nonempty_or_null n.mac_address;
  vlan_id = if ltb_ℤ (pos 0) n.vlan_id then known n.vlan_id else null;
}

unfoldable pub dvd_drive_model : DvdDrive → DvdDriveModel
dvd_drive_model d = record {
  iso_path = nonempty_or_null d.path;
  controller_type = known d.controller_type;
  controller_number = known d.controller_number;
  controller_location = known d.controller_location;
}

-- The fields that do not belong to the entry's type are null.
unfoldable pub boot_order_entry_model : BootOrderEntry → BootOrderEntryModel
boot_order_entry_model e =
    if e.type == "hard_disk_drive" || e.type == "dvd_drive"
    then record {
      type = known e.type;
      controller_type = known e.controller_type;
      controller_number = known e.controller_number;
      controller_location = known e.controller_location;
      name = null;
    }
    else if e.type == "network_adapter"
    then record {
      type = known e.type;
      controller_type = null;
      controller_number = null;
      controller_location = null;
      name = known e.name;
    }
    else record {
      type = known e.type;
      controller_type = null;
      controller_number = null;
      controller_location = null;
      name = null;
    }

unfoldable pub memory_model_from_vm : Vm → MemoryModel
memory_model_from_vm v = record {
  startup_bytes = known v.memory_startup_bytes;
  dynamic = known v.memory_dynamic_enabled;
  min_bytes = known_or_null v.memory_minimum_bytes;
  max_bytes = known_or_null v.memory_maximum_bytes;
}

-- All adapters' addresses, in the host's order.
unfoldable pub flat_ip_addresses : List NetworkAdapter → List String
flat_ip_addresses [] = []
flat_ip_addresses (n ∷ ns) = n.ip_addresses ++ flat_ip_addresses ns

unfoldable pub model_from_vm : ⦃s : Sorter⦄ → Vm → Model
unfolding hard_disk_model network_adapter_model dvd_drive_model boot_order_entry_model
    memory_model_from_vm flat_ip_addresses
model_from_vm ⦃s⦄ v = record {
  id = known v.name;
  vm_id = known v.id;
  name = known v.name;
  generation = known v.generation;
  cpu = some (record { count = known v.processor_count });
  memory = some (memory_model_from_vm v);
  hard_disk_drives =
      hard_disk_drive_list_from_slice (
        some
          (map (λ h. hard_disk_model h) (s.sort (λ a b. hard_disk_less a b) v.hard_disk_drives)));
  network_adapters = network_adapter_list_from_slice (
      some (
        map (λ n. network_adapter_model n)
          (s.sort (λ a b. network_adapter_less a b) v.network_adapters)));
  dvd_drives =
      dvd_drive_list_from_slice
        (some (map (λ d. dvd_drive_model d) (s.sort (λ a b. dvd_less a b) v.dvd_drives)));
  boot_order = boot_order_list_from_slice (some (map (λ e. boot_order_entry_model e) v.boot_order));
  secure_boot = known_or_null v.secure_boot_enabled;
  secure_boot_template = nonempty_or_null v.secure_boot_template;
  notes = nonempty_or_null v.notes;
  state = some (record { desired = null; current = known v.state; shutdown_mode = null });
  ip_addresses = known (flat_ip_addresses v.network_adapters);
  path = known v.path;
  wait_for_guest_ip_timeout = null;
}
