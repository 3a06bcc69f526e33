-- ===== src/Vm/Slots/Reconcile.antt =====
-- An update's attachment reconciliation of internal/resources/vm/resource.go, for disks, network
-- adapters and DVD drives.
use terraform_provider_hyper.Vm.Diff.Lookup.{last_at}
use terraform_provider_hyper.Vm.Diff.Table.{
  Table, attach_all, detach_all, AsPlanned, diff-AsPlanned, diff_no_calls,
}
use terraform_provider_hyper.Framework.{
  equal_string_iff, is_known, is_null, value_string, equal_int64_iff,
}
use terraform_provider_hyper.Vm.Model.{DvdDriveModel, HardDiskDriveModel, NetworkAdapterModel}
use terraform_provider_hyper.Common.{String, ◌≡◌, refl, ◌⊎◌, true, false, some, List, [], arith}
use terraform_provider_hyper.Common.Assoc.{Visit}
use terraform_provider_hyper.Common.Eq.{string_eq}
use terraform_provider_hyper.Vm.Slots.{
  slot_eq, diff_dvd_drives, diff_network_adapters, dvd_slot_key_of, nic_key_of,
}
use terraform_provider_hyper.Types.Runes.{Unicode, runes_eq_iff}
use terraform_provider_hyper.Types.Path
use terraform_provider_hyper.Types.Mac
use terraform_provider_hyper.Vm.Slots.{
  hdd_slot_key_of, HddSlotKey, same_dvd_drive, same_hard_disk, same_network_adapter,
  diff_hard_disk_drives,
}

module _ ⦃u : Unicode⦄ where
  -- One path up to slash style and case.
  abbrev pub HardDiskFits : HardDiskDriveModel → HardDiskDriveModel → Type 0
  HardDiskFits p d = Path.normalize (value_string p.path) ≡ Path.normalize (value_string d.path)

  -- One switch and one VLAN, and two MAC addresses that are set or unset alike and are one address up
  -- to separators and case.
  abbrev pub NetworkAdapterFits : NetworkAdapterModel → NetworkAdapterModel → Type 0
  NetworkAdapterFits p d =
      (p.switch_name ≡ d.switch_name)
      × (p.vlan_id ≡ d.vlan_id)
      × (is_null p.mac_address ≡ is_null d.mac_address)
      × (Mac.normalize (value_string p.mac_address) ≡ Mac.normalize (value_string d.mac_address))

  -- No medium in either drive, or one medium up to slash style and case.
  abbrev pub DvdDriveFits : DvdDriveModel → DvdDriveModel → Type 0
  DvdDriveFits p d =
      ((is_known p.iso_path ≡ false) × (is_known d.iso_path ≡ false))
      ⊎ ((is_known p.iso_path ≡ true)
          × (is_known d.iso_path ≡ true)
          × (Path.normalize (value_string p.iso_path) ≡ Path.normalize (value_string d.iso_path)))

  same_hard_disk-Fits : (p d : HardDiskDriveModel) → same_hard_disk p d ≡ true → HardDiskFits p d
  unfolding same_hard_disk Path.string_semantic_equals
  same_hard_disk-Fits p d h = (runes_eq_iff _ _).0 h

  same_network_adapter-Fits :
      (p d : NetworkAdapterModel) → same_network_adapter p d ≡ true → NetworkAdapterFits p d
  unfolding same_network_adapter
  same_network_adapter-Fits p d h = ground (
    arith,
    equal_string_iff p.switch_name d.switch_name,
    equal_int64_iff p.vlan_id d.vlan_id,
    runes_eq_iff (Mac.normalize (value_string p.mac_address))
        (Mac.normalize (value_string d.mac_address)),
  )

  same_dvd_drive-Fits : (p d : DvdDriveModel) → same_dvd_drive p d ≡ true → DvdDriveFits p d
  unfolding same_dvd_drive Path.string_semantic_equals
  same_dvd_drive-Fits p d h = ground (
    arith,
    runes_eq_iff (Path.normalize (value_string p.iso_path))
        (Path.normalize (value_string d.iso_path)),
  )

  same_network_adapter_refl : (p : NetworkAdapterModel) → same_network_adapter p p ≡ true
  unfolding same_network_adapter
  same_network_adapter_refl p = ground (
    arith,
    equal_string_iff p.switch_name p.switch_name,
    equal_int64_iff p.vlan_id p.vlan_id,
    runes_eq_iff (Mac.normalize (value_string p.mac_address))
        (Mac.normalize (value_string p.mac_address)),
  )

  same_dvd_drive_refl : (p : DvdDriveModel) → same_dvd_drive p p ≡ true
  unfolding same_dvd_drive
  same_dvd_drive_refl p = ground (arith, Path.string_semantic_equals_refl p.iso_path)

  same_hard_disk_refl : (p : HardDiskDriveModel) → same_hard_disk p p ≡ true
  unfolding same_hard_disk
  same_hard_disk_refl p = Path.string_semantic_equals_refl p.path

module _ ⦃u : Unicode⦄ (plan_order state_order : Visit (HddSlotKey × HardDiskDriveModel))
    (plan state : List HardDiskDriveModel) where
  -- If the VM's controller slots hold the recorded disks (the last one recorded at a slot), then after
  -- the detaches no attach meets an occupied slot, and at the end each slot holds the last disk planned
  -- for it, or the recorded one if that has the same path up to slash style and case, and is empty if
  -- nothing is planned there; for every order in which the two maps are visited. This covers plans with
  -- two disks at one slot, of which the last counts: nothing rejects them.
  pub diff_hard_disk_drives-AsPlanned :
      (t : Table HddSlotKey HardDiskDriveModel)
      → ((k : HddSlotKey) → t k ≡ last_at hdd_slot_key_of k state)
      → let (attach, detach) = diff_hard_disk_drives plan_order state_order plan state in
        (t' : Table HddSlotKey HardDiskDriveModel) × (attach_all hdd_slot_key_of attach
            (detach_all hdd_slot_key_of detach t)
          ≡ some t')
        × ((k : HddSlotKey) → AsPlanned HardDiskFits (last_at hdd_slot_key_of k plan) (t' k))
  unfolding diff_hard_disk_drives
  diff_hard_disk_drives-AsPlanned t h =
      diff-AsPlanned hdd_slot_key_of same_hard_disk plan_order state_order plan state t h
        same_hard_disk-Fits

module _ ⦃u : Unicode⦄ (plan_order state_order : Visit (String × NetworkAdapterModel))
    (plan state : List NetworkAdapterModel) where
  -- If the VM holds under each name the recorded network adapter, then after the detaches no attach
  -- meets a name in use, and at the end each name has the adapter last planned under it, or the recorded
  -- one if that has the same switch, VLAN and MAC address up to separators and case (a MAC set on one
  -- side only is a difference), and has none if none is planned; for every visiting order.
  pub diff_network_adapters-AsPlanned :
      (t : Table String NetworkAdapterModel)
      → ((k : String) → t k ≡ last_at nic_key_of k state)
      → let (attach, detach) = diff_network_adapters plan_order state_order plan state in
        (t' : Table String NetworkAdapterModel) × (attach_all nic_key_of attach
            (detach_all nic_key_of detach t)
          ≡ some t')
        × ((k : String) → AsPlanned NetworkAdapterFits (last_at nic_key_of k plan) (t' k))
  unfolding diff_network_adapters
  diff_network_adapters-AsPlanned t h =
      diff-AsPlanned nic_key_of same_network_adapter plan_order state_order plan state t h
        same_network_adapter-Fits

module _ ⦃u : Unicode⦄ (plan_order state_order : Visit (HddSlotKey × DvdDriveModel))
    (plan state : List DvdDriveModel) where
  -- If the VM's controller slots hold the recorded DVD drives, then after the detaches no attach meets
  -- an occupied slot, and at the end each slot holds the drive last planned for it, or the recorded one
  -- if both have no medium or one medium up to slash style and case, and is empty if no drive is
  -- planned there; for every visiting order.
  pub diff_dvd_drives-AsPlanned :
      (t : Table HddSlotKey DvdDriveModel)
      → ((k : HddSlotKey) → t k ≡ last_at dvd_slot_key_of k state)
      → let (attach, detach) = diff_dvd_drives plan_order state_order plan state in
        (t' : Table HddSlotKey DvdDriveModel) × (attach_all dvd_slot_key_of attach
            (detach_all dvd_slot_key_of detach t)
          ≡ some t')
        × ((k : HddSlotKey) → AsPlanned DvdDriveFits (last_at dvd_slot_key_of k plan) (t' k))
  unfolding diff_dvd_drives
  diff_dvd_drives-AsPlanned t h =
      diff-AsPlanned dvd_slot_key_of same_dvd_drive plan_order state_order plan state t h
        same_dvd_drive-Fits

module _ ⦃u : Unicode⦄ (hdd_order hdd_order' : Visit (HddSlotKey × HardDiskDriveModel))
    (nic_order nic_order' : Visit (String × NetworkAdapterModel))
    (dvd_order dvd_order' : Visit (HddSlotKey × DvdDriveModel)) where
  -- A plan whose device lists are those recorded has nothing to attach and nothing to detach, for disks,
  -- network adapters and DVD drives alike; for every visiting order.
  pub unchanged-no_calls :
      (hdds : List HardDiskDriveModel) (nics : List NetworkAdapterModel) (dvds : List DvdDriveModel)
      → (diff_hard_disk_drives hdd_order hdd_order' hdds hdds ≡ ([], []))
        × (diff_network_adapters nic_order nic_order' nics nics ≡ ([], []))
        × (diff_dvd_drives dvd_order dvd_order' dvds dvds ≡ ([], []))
  unfolding diff_hard_disk_drives diff_network_adapters diff_dvd_drives
  unchanged-no_calls hdds nics dvds = (
    diff_no_calls hdd_slot_key_of same_hard_disk hdd_order hdd_order' hdds hdds same_hard_disk_refl
        (λ k. refl),
    diff_no_calls nic_key_of same_network_adapter nic_order nic_order' nics nics
        same_network_adapter_refl (λ k. refl),
    diff_no_calls dvd_slot_key_of same_dvd_drive dvd_order dvd_order' dvds dvds same_dvd_drive_refl
        (λ k. refl),
  )
