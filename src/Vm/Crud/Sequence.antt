-- ===== src/Vm/Crud/Sequence.antt =====
-- The sequence of calls of Create and Update on a host that grants them all.
use terraform_provider_hyper.Vm.Crud.Order.{
  Log, recorder, attach_hard_disks_events, detach_hard_disks_events, attach_network_adapters_events,
  detach_network_adapters_events, attach_dvd_drives_events, detach_dvd_drives_events, boot_events,
  then-log, detach_hard_disks-log, power_events, attach_hard_disks-log, attach_network_adapters-log,
  detach_network_adapters-log, attach_dvd_drives-log, detach_dvd_drives-log, boot-log, power-log,
}
use terraform_provider_hyper.Framework.{value_string, elements}
use terraform_provider_hyper.Vm.Reconcile.{should_apply_boot_order}
use terraform_provider_hyper.Common.Sort.{Sorter}
use terraform_provider_hyper.Vm.Slots.{
  diff_hard_disk_drives, diff_network_adapters, diff_dvd_drives,
}
use terraform_provider_hyper.Types.Runes.{Unicode}
use terraform_provider_hyper.Vm.Model.{
  Model, hard_disk_drive_models, network_adapter_models, dvd_drive_models, boot_order_entries,
}
use terraform_provider_hyper.Vm.Handlers.{
  attach_dvd_drives, attach_hard_disks, attach_network_adapters, detach_dvd_drives,
  detach_hard_disks, detach_network_adapters, transition_or_get, set_boot_order_if,
  state_transition,
}
use terraform_provider_hyper.Vm.Crud.{furnish, refit, MapOrders}
use terraform_provider_hyper.Vm.Effects.{Outcome, ◌>>◌}
use terraform_provider_hyper.Hyperv.Dto.{Vm}
use terraform_provider_hyper.Common.{◌≡◌, ◌++◌}

-- When every call succeeds, a new VM gets its hard disks, then its network adapters, then its DVD drives,
-- each in the order of the plan, then its boot order, if the plan has one, and last its power transition,
-- or a read if the plan manages none.
pub furnish-order :
    ⦃u : Unicode⦄
    → ⦃s : Sorter⦄ → (v : Vm) (plan : Model) (h : Log)
    → furnish (recorder v) plan h ≡ (
      h
          ++ ((((attach_hard_disks_events v
                      (value_string plan.name)
                      (elements (hard_disk_drive_models plan))
                    ++ attach_network_adapters_events v
                        (value_string plan.name)
                        (elements (network_adapter_models plan)))
                  ++ attach_dvd_drives_events v
                      (value_string plan.name)
                      (elements (dvd_drive_models plan)))
                ++ boot_events
                    (should_apply_boot_order (boot_order_entries plan))
                    (value_string plan.name)
                    (elements (boot_order_entries plan)))
              ++ power_events (state_transition plan) (value_string plan.name)),
      Outcome.done v,
    )
unfolding furnish
furnish-order v plan h =
    let n = value_string plan.name in
    let a0 = attach_hard_disks (recorder v) n (elements (hard_disk_drive_models plan)) in
    let l0 = attach_hard_disks_events v n (elements (hard_disk_drive_models plan)) in
    let a1 = attach_network_adapters (recorder v) n (elements (network_adapter_models plan)) in
    let l1 = attach_network_adapters_events v n (elements (network_adapter_models plan)) in
    let a2 = attach_dvd_drives (recorder v) n (elements (dvd_drive_models plan)) in
    let l2 = attach_dvd_drives_events v n (elements (dvd_drive_models plan)) in
    let a3 =
      set_boot_order_if (recorder v) (should_apply_boot_order (boot_order_entries plan)) n
        (elements (boot_order_entries plan)) in
    let l3 =
      boot_events (should_apply_boot_order (boot_order_entries plan)) n
        (elements (boot_order_entries plan)) in
    let a4 =
      transition_or_get (recorder v) (state_transition plan) n
        "Read hyperv_vm after Create failed" in
    let l4 = power_events (state_transition plan) n in
    let e1 =
      then-log (a0) a1 (l0) l1 tt
        (λ h. attach_hard_disks-log v n (elements (hard_disk_drive_models plan)) h)
        (λ h. attach_network_adapters-log v n (elements (network_adapter_models plan)) h) in
    let e2 =
      then-log (a0 >> a1) a2 (l0 ++ l1) l2 tt e1
        (λ h. attach_dvd_drives-log v n (elements (dvd_drive_models plan)) h) in
    let e3 = then-log (a0 >> a1 >> a2) a3 ((l0 ++ l1) ++ l2) l3 tt e2 (λ h.
      boot-log v (should_apply_boot_order (boot_order_entries plan)) n
        (elements (boot_order_entries plan)) h) in
    let e4 =
      then-log (a0 >> a1 >> a2 >> a3) a4 (((l0 ++ l1) ++ l2) ++ l3) l4 v e3
        (λ h. power-log v (state_transition plan) n "Read hyperv_vm after Create failed" h) in
    e4 h

-- When every call succeeds, the device part of an update first detaches and then attaches the hard
-- disks, then the network adapters and then the DVD drives, as the three diffs say.
pub refit-order :
    ⦃u : Unicode⦄
    → ⦃s : Sorter⦄ → ⦃o : MapOrders⦄ → (v : Vm) (plan state : Model) (h : Log)
    → let n = value_string plan.name in
      let hdd =
        diff_hard_disk_drives o.hdd_plan o.hdd_state
          (elements (hard_disk_drive_models plan))
          (elements (hard_disk_drive_models state)) in
      let nic =
        diff_network_adapters o.nic_plan o.nic_state
          (elements (network_adapter_models plan))
          (elements (network_adapter_models state)) in
      let dvd =
        diff_dvd_drives o.dvd_plan o.dvd_state
          (elements (dvd_drive_models plan))
          (elements (dvd_drive_models state)) in
      refit (recorder v) plan state h ≡ (
        h
            ++ (((((detach_hard_disks_events v n hdd.1 ++ attach_hard_disks_events v n hdd.0)
                      ++ detach_network_adapters_events v n nic.1)
                    ++ attach_network_adapters_events v n nic.0)
                  ++ detach_dvd_drives_events v n dvd.1)
                ++ attach_dvd_drives_events v n dvd.0),
        Outcome.done tt,
      )
unfolding refit
refit-order ⦃o⦄ v plan state h =
    let n = value_string plan.name in
    let hdd =
      diff_hard_disk_drives o.hdd_plan o.hdd_state (elements (hard_disk_drive_models plan))
        (elements (hard_disk_drive_models state)) in
    let nic =
      diff_network_adapters o.nic_plan o.nic_state (elements (network_adapter_models plan))
        (elements (network_adapter_models state)) in
    let dvd =
      diff_dvd_drives o.dvd_plan o.dvd_state (elements (dvd_drive_models plan))
        (elements (dvd_drive_models state)) in
    let a0 = detach_hard_disks (recorder v) n hdd.1 in
    let l0 = detach_hard_disks_events v n hdd.1 in
    let a1 = attach_hard_disks (recorder v) n hdd.0 in
    let l1 = attach_hard_disks_events v n hdd.0 in
    let a2 = detach_network_adapters (recorder v) n nic.1 in
    let l2 = detach_network_adapters_events v n nic.1 in
    let a3 = attach_network_adapters (recorder v) n nic.0 in
    let l3 = attach_network_adapters_events v n nic.0 in
    let a4 = detach_dvd_drives (recorder v) n dvd.1 in
    let l4 = detach_dvd_drives_events v n dvd.1 in
    let a5 = attach_dvd_drives (recorder v) n dvd.0 in
    let l5 = attach_dvd_drives_events v n dvd.0 in
    let e1 =
      then-log (a0) a1 (l0) l1 tt (λ h. detach_hard_disks-log v n hdd.1 h)
        (λ h. attach_hard_disks-log v n hdd.0 h) in
    let e2 =
      then-log (a0 >> a1) a2 (l0 ++ l1) l2 tt e1 (λ h. detach_network_adapters-log v n nic.1 h) in
    let e3 =
      then-log (a0 >> a1 >> a2) a3 ((l0 ++ l1) ++ l2) l3 tt e2
        (λ h. attach_network_adapters-log v n nic.0 h) in
    let e4 =
      then-log (a0 >> a1 >> a2 >> a3) a4 (((l0 ++ l1) ++ l2) ++ l3) l4 tt e3
        (λ h. detach_dvd_drives-log v n dvd.1 h) in
    let e5 =
      then-log (a0 >> a1 >> a2 >> a3 >> a4) a5 ((((l0 ++ l1) ++ l2) ++ l3) ++ l4) l5 tt e4
        (λ h. attach_dvd_drives-log v n dvd.0 h) in
    e5 h
