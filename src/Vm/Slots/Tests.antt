-- ===== src/Vm/Slots/Tests.antt =====
-- Concrete device lists: a disk swap at one slot, a network adapter that moves to another switch, and a
-- DVD drive that is dropped.
use terraform_provider_hyper.Common.Eq.{string_eq}
use terraform_provider_hyper.Vm.Diff.Lookup.{last_at}
use terraform_provider_hyper.Vm.Slots.Reconcile.{
  unchanged-no_calls, DvdDriveFits, HardDiskFits, NetworkAdapterFits, diff_dvd_drives-AsPlanned,
  diff_hard_disk_drives-AsPlanned, diff_network_adapters-AsPlanned,
}
use terraform_provider_hyper.Vm.Diff.Table.{Table, attach_all, detach_all, AsPlanned}
use terraform_provider_hyper.Common.Int.{pos}
use terraform_provider_hyper.Common.Assoc.{as_listed}
use terraform_provider_hyper.Types.Runes.{ascii_tables}
use terraform_provider_hyper.Framework.{known, null}
use terraform_provider_hyper.Vm.Slots.{
  slot_eq, diff_dvd_drives, diff_hard_disk_drives, diff_network_adapters, HddSlotKey,
  dvd_slot_key_of, hdd_slot_key_of, nic_key_of,
}
use terraform_provider_hyper.Vm.Model.{DvdDriveModel, HardDiskDriveModel, NetworkAdapterModel}
use terraform_provider_hyper.Common.{refl, [], ◌∷◌, ◌≡◌, String, some}

abbrev disk_at : String → HardDiskDriveModel
disk_at p = record {
  path = known p;
  controller_type = known "SCSI";
  controller_number = known (pos 0);
  controller_location = known (pos 0);
}

abbrev adapter_on : String → NetworkAdapterModel
adapter_on s = record {
  name = known "lan";
  switch_name = known s;
  ip_addresses = null;
  mac_address = null;
  vlan_id = null;
}

abbrev seed_drive : DvdDriveModel
seed_drive = record {
  iso_path = known "C:/iso/seed.iso";
  controller_type = null;
  controller_number = known (pos 0);
  controller_location = known (pos 1);
}

diff_hard_disk_drives-AsPlanned_example :
    let plan = disk_at "C:/new.vhdx" ∷ [] in
    let state = disk_at "C:/old.vhdx" ∷ [] in
    let (attach, detach) =
      diff_hard_disk_drives ⦃u = ascii_tables⦄ as_listed as_listed plan state in
    (t' : Table HddSlotKey HardDiskDriveModel) × (attach_all hdd_slot_key_of attach
        (detach_all hdd_slot_key_of detach (λ k. last_at hdd_slot_key_of k state))
      ≡ some t')
    × ((k : HddSlotKey)
        → AsPlanned (HardDiskFits ⦃u = ascii_tables⦄) (last_at hdd_slot_key_of k plan) (t' k))
diff_hard_disk_drives-AsPlanned_example =
    diff_hard_disk_drives-AsPlanned ⦃u = ascii_tables⦄ as_listed as_listed
      (disk_at "C:/new.vhdx" ∷ []) (disk_at "C:/old.vhdx" ∷ [])
      (λ k. last_at hdd_slot_key_of k (disk_at "C:/old.vhdx" ∷ [])) (λ k. refl)

diff_network_adapters-AsPlanned_example :
    let plan = adapter_on "inner" ∷ [] in
    let state = adapter_on "outer" ∷ [] in
    let (attach, detach) =
      diff_network_adapters ⦃u = ascii_tables⦄ as_listed as_listed plan state in
    (t' : Table String NetworkAdapterModel) × (attach_all nic_key_of attach
        (detach_all nic_key_of detach (λ k. last_at nic_key_of k state))
      ≡ some t')
    × ((k : String)
        → AsPlanned (NetworkAdapterFits ⦃u = ascii_tables⦄) (last_at nic_key_of k plan) (t' k))
diff_network_adapters-AsPlanned_example =
    diff_network_adapters-AsPlanned ⦃u = ascii_tables⦄ as_listed as_listed (adapter_on "inner" ∷ [])
      (adapter_on "outer" ∷ []) (λ k. last_at nic_key_of k (adapter_on "outer" ∷ [])) (λ k. refl)

diff_dvd_drives-AsPlanned_example :
    let state = seed_drive ∷ [] in
    let (attach, detach) = diff_dvd_drives ⦃u = ascii_tables⦄ as_listed as_listed [] state in
    (t' : Table HddSlotKey DvdDriveModel) × (attach_all dvd_slot_key_of attach
        (detach_all dvd_slot_key_of detach (λ k. last_at dvd_slot_key_of k state))
      ≡ some t')
    × ((k : HddSlotKey)
        → AsPlanned (DvdDriveFits ⦃u = ascii_tables⦄) (last_at dvd_slot_key_of k []) (t' k))
diff_dvd_drives-AsPlanned_example =
    diff_dvd_drives-AsPlanned ⦃u = ascii_tables⦄ as_listed as_listed [] (seed_drive ∷ [])
      (λ k. last_at dvd_slot_key_of k (seed_drive ∷ [])) (λ k. refl)

unchanged-no_calls_example :
    (diff_hard_disk_drives ⦃u = ascii_tables⦄ as_listed as_listed
        (disk_at "C:/a.vhdx" ∷ [])
        (disk_at "C:/a.vhdx" ∷ [])
      ≡ ([], []))
    × (diff_network_adapters ⦃u = ascii_tables⦄ as_listed as_listed
          (adapter_on "inner" ∷ [])
          (adapter_on "inner" ∷ [])
        ≡ ([], []))
    × (diff_dvd_drives ⦃u = ascii_tables⦄ as_listed as_listed (seed_drive ∷ []) (seed_drive ∷ [])
        ≡ ([], []))
unchanged-no_calls_example =
    unchanged-no_calls ⦃u = ascii_tables⦄ as_listed as_listed as_listed as_listed as_listed
      as_listed (disk_at "C:/a.vhdx" ∷ []) (adapter_on "inner" ∷ []) (seed_drive ∷ [])
