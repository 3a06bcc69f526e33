-- ===== src/Vm/Crud/NoOp.antt =====
-- An Update that has nothing to do.
use terraform_provider_hyper.Framework.{elements, value_string}
use terraform_provider_hyper.Vm.Slots.Reconcile.{unchanged-no_calls}
use terraform_provider_hyper.Vm.Effects.{for_each, Outcome, next, pure, call}
use terraform_provider_hyper.Vm.Input.Laws.{NoScalarChange, no_changes_iff}
use terraform_provider_hyper.Vm.Handlers.{
  attach_hard_disks, attach_network_adapters, attach_dvd_drives, detach_hard_disks,
  detach_network_adapters, detach_dvd_drives, respond, write,
}
use terraform_provider_hyper.Hyperv.Client.{Client}
use terraform_provider_hyper.Vm.Crud.{
  MapOrders, refit, boot_order_changed, update, update_with, apply_scalars, changed_transition,
  state_changed,
}
use terraform_provider_hyper.Vm.Model.{
  Model, CpuModel, MemoryModel, hard_disk_drive_models, network_adapter_models, dvd_drive_models,
}
use terraform_provider_hyper.Common.Sort.{Sorter}
use terraform_provider_hyper.Types.Runes.{Unicode}
use terraform_provider_hyper.Common.{some, ◌≡◌, false, sym, ℕ, []}

-- The plan asks for nothing that the recorded state does not have.
pub record NothingToDo ⦃u : Unicode⦄ (plan state : Model) (plan_cpu state_cpu : CpuModel)
    (plan_memory state_memory : MemoryModel) : Type 0 where
  pub hard_disk_drives : plan.hard_disk_drives ≡ state.hard_disk_drives
  pub network_adapters : plan.network_adapters ≡ state.network_adapters
  pub dvd_drives : plan.dvd_drives ≡ state.dvd_drives
  pub boot_order : boot_order_changed plan state ≡ false
  pub power : state_changed plan state ≡ false
  pub scalars : NoScalarChange plan state plan_cpu state_cpu plan_memory state_memory

module _ {ℓ} {H : Type ℓ} ⦃u : Unicode⦄ ⦃s : Sorter⦄ ⦃o : MapOrders⦄ (c : Client H) where
  refit-unchanged :
      (plan state : Model) (h : H)
      → plan.hard_disk_drives ≡ state.hard_disk_drives
      → plan.network_adapters ≡ state.network_adapters
      → plan.dvd_drives ≡ state.dvd_drives
      → refit c plan state h ≡ (h, Outcome.done tt)
  unfolding refit attach_hard_disks attach_network_adapters attach_dvd_drives detach_hard_disks
      detach_network_adapters detach_dvd_drives for_each
  refit-unchanged plan state h hd hn hv =
      let (p, q, r) =
        unchanged-no_calls o.hdd_plan o.hdd_state o.nic_plan o.nic_state o.dvd_plan o.dvd_state
          (elements (hard_disk_drive_models plan)) (elements (network_adapter_models plan))
          (elements (dvd_drive_models plan)) in
      rw (sym hd, sym hn, sym hv, p, q, r)

  -- An Update whose plan asks for nothing new makes one call, GetVM: its world and its response are those
  -- of that read, reconciled with the plan.
  pub update-reads_only :
      (interval : ℕ) (plan state : Model) (plan_cpu state_cpu : CpuModel)
      (plan_memory state_memory : MemoryModel)
      → plan.cpu ≡ some plan_cpu
      → state.cpu ≡ some state_cpu
      → plan.memory ≡ some plan_memory
      → state.memory ≡ some state_memory
      → NothingToDo plan state plan_cpu state_cpu plan_memory state_memory
      → (h : H)
      → update (record { client = some c; poll_interval = interval }) plan state h
        ≡ respond (
            next
              (λ v. pure (write plan [] v))
              (call "Read hyperv_vm after attachment-only Update failed"
                (c.get_vm (value_string plan.name))
                h))
  unfolding update update_with apply_scalars changed_transition
  update-reads_only interval plan state pc sc pm sm hpc hsc hpm hsm n h =
      let (i, built, none_of) = no_changes_iff plan state pc sc pm sm hpc hsc hpm hsm in
      rw (
        refit-unchanged plan state h n.hard_disk_drives n.network_adapters n.dvd_drives,
        n.boot_order,
        built,
        none_of.1 n.scalars,
        n.power,
      )
