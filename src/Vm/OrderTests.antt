-- ===== src/Vm/OrderTests.antt =====
-- The calls of a create and of an update of the VM of Vm/Fixtures.
use terraform_provider_hyper.Vm.Reconcile
use terraform_provider_hyper.Common.{String}
use terraform_provider_hyper.Common.Assoc.{as_listed}
use terraform_provider_hyper.Vm.Slots.{
  diff_hard_disk_drives, diff_network_adapters, diff_dvd_drives,
}
use terraform_provider_hyper.Vm.Crud.Sequence.{furnish-order, refit-order}
use terraform_provider_hyper.Vm.Effects.{Outcome}
use terraform_provider_hyper.Vm.Handlers.{state_transition}
use terraform_provider_hyper.Vm.Crud.Order.{
  recorder, attach_hard_disks_events, attach_network_adapters_events, attach_dvd_drives_events,
  boot_events, power_events, detach_hard_disks_events, detach_network_adapters_events,
  detach_dvd_drives_events,
}
use terraform_provider_hyper.Framework.{known, null}
use terraform_provider_hyper.Common.Sort.{by_insertion}
use terraform_provider_hyper.Vm.Fixtures.{
  planned, orders, running_vm, recorded, disk_model, nic_model, dvd_model, boot_from_disk,
}
use terraform_provider_hyper.Types.Runes.{ascii_tables}
use terraform_provider_hyper.Vm.Model.{Model}
use terraform_provider_hyper.Vm.Crud.{furnish, refit}
use terraform_provider_hyper.Common.{[], ◌∷◌, ◌≡◌, ◌++◌, true}

furnish-order_example :
    furnish ⦃u = ascii_tables⦄ ⦃s = by_insertion⦄ (recorder running_vm) planned [] ≡ (
      (((attach_hard_disks_events running_vm "web" (disk_model ∷ [])
                ++ attach_network_adapters_events running_vm "web" (nic_model ∷ []))
              ++ attach_dvd_drives_events running_vm "web" (dvd_model ∷ []))
            ++ boot_events true "web" (boot_from_disk ∷ []))
          ++ power_events (state_transition planned) "web",
      Outcome.done running_vm,
    )
unfolding terraform_provider_hyper.Vm.Reconcile.should_apply_boot_order
furnish-order_example = furnish-order ⦃u = ascii_tables⦄ ⦃s = by_insertion⦄ running_vm planned []

abbrev emptied : Model
emptied = record planned {
  hard_disk_drives = known [];
  network_adapters = known [];
  dvd_drives = null;
}

abbrev web : String
web = "web"

refit-order_example :
    let hdd = diff_hard_disk_drives ⦃u = ascii_tables⦄ as_listed as_listed [] (disk_model ∷ []) in
    let nic = diff_network_adapters ⦃u = ascii_tables⦄ as_listed as_listed [] (nic_model ∷ []) in
    let dvd = diff_dvd_drives ⦃u = ascii_tables⦄ as_listed as_listed [] (dvd_model ∷ []) in
    refit ⦃u = ascii_tables⦄ ⦃s = by_insertion⦄ ⦃o = orders⦄
      (recorder running_vm)
      emptied
      recorded
      []
    ≡ (
      ((((detach_hard_disks_events running_vm web hdd.1
                  ++ attach_hard_disks_events running_vm web hdd.0)
                ++ detach_network_adapters_events running_vm web nic.1)
              ++ attach_network_adapters_events running_vm web nic.0)
            ++ detach_dvd_drives_events running_vm web dvd.1)
          ++ attach_dvd_drives_events running_vm web dvd.0,
      Outcome.done tt,
    )
refit-order_example =
    refit-order ⦃u = ascii_tables⦄ ⦃s = by_insertion⦄ ⦃o = orders⦄ running_vm emptied recorded []
