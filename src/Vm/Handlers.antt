-- ===== src/Vm/Handlers.antt =====
-- Create, Read, Update and Delete of internal/resources/vm/resource.go, over the client's interface.
-- The framework decodes a request's plan and state; its typed values always decode, so the handlers
-- take models. Log lines are left out.
pub mod Refresh
pub mod Resolved
use terraform_provider_hyper.Vm.Slots.{
  attach_dvd_input_for, attach_input_for, attach_nic_input_for, detach_dvd_input_for,
  detach_input_for, detach_nic_input_for,
}
use terraform_provider_hyper.Vm.Reconcile.{
  reconcile_boot_order_in_state, set_boot_order_input_for, should_apply_state,
  reconcile_state_block, reconcile_memory_block,
}
use terraform_provider_hyper.Common.{
  String, ℕ, Bool, true, false, ◌&&◌, not, Option, none, some, List, [], ◌∷◌, if◌then◌else◌,
}
use terraform_provider_hyper.Common.Assoc.{Visit}
use terraform_provider_hyper.Common.Sort.{Sorter}
use terraform_provider_hyper.Framework.{
  Attr, Diagnostic, Diagnostics, plain_error, value_string, elements, to_slice,
}
use terraform_provider_hyper.Types.Runes.{Unicode}
use terraform_provider_hyper.Hyperv.Dto.{Vm, SetVmStateInput, SetVmInput, NewVmInput}
use terraform_provider_hyper.Hyperv.Client.{Client, Call, Result, ok, failed}
use terraform_provider_hyper.Hyperv.Errors.{ClientError, is_not_found}
use terraform_provider_hyper.Vm.Model.{
  Model, StateModel, HardDiskDriveModel, NetworkAdapterModel, DvdDriveModel, BootOrderEntryModel,
  hard_disk_drive_models, network_adapter_models, dvd_drive_models, boot_order_entries,
}
use terraform_provider_hyper.Vm.Effects.{
  Outcome, Handler, ◌>>=◌, ◌>>◌, pure, call, call_or_gone, for_each,
}
use terraform_provider_hyper.Vm.Hydrate.{model_from_vm}
use terraform_provider_hyper.Hyperv.Clock.{Clock}
use terraform_provider_hyper.Vm.Wait.{Text, wait_for_guest_ip_after_create}

-- What a handler does to the recorded state.
pub data StateAction : Type 0 where
  kept removed : StateAction
  written : Model → StateAction

pub record Response : Type 0 where
  pub state : StateAction
  pub diagnostics : Diagnostics

-- The resource: the client that Configure stashed, and the interval between the reads of a wait.
pub record Resource {ℓ} (H : Type ℓ) : Type ℓ where
  pub client : Option (Client H)
  pub poll_interval : ℕ

abbrev pub not_configured : Response
not_configured = record {
  state = StateAction.kept;
  diagnostics = plain_error "provider not configured" ∷ [];
}

module _ {ℓ} {H : Type ℓ} where
  -- The end of a handler: an error is reported and leaves the state as it was.
  abbrev pub respond : H × Outcome Response → H × Outcome Response
  respond (h, Outcome.halted d) =
      (h, Outcome.done (record { state = StateAction.kept; diagnostics = d ∷ [] }))
  respond (h, o) = (h, o)

  abbrev pub with_client : Option (Client H) → (Client H → Handler H Response) → Handler H Response
  with_client none f h = (h, Outcome.done not_configured)
  with_client (some c) f h = respond (f c h)

-- The four assignments that end Create, Read and Update: a read of the host, reconciled with the plan,
-- or with the prior state in Read.
unfoldable pub reconciled : ⦃s : Sorter⦄ → Model → Vm → Model
reconciled prior v =
    let m = reconcile_boot_order_in_state (model_from_vm v) prior.boot_order in
    record m {
      state = reconcile_state_block prior.state m.state;
      memory = reconcile_memory_block prior.memory m.memory;
      wait_for_guest_ip_timeout = prior.wait_for_guest_ip_timeout;
    }

abbrev pub write : ⦃s : Sorter⦄ → Model → Diagnostics → Vm → Response
write prior diags v = record {
  state = StateAction.written (reconciled prior v);
  diagnostics = diags;
}

-- The input of a state transition, if the plan manages the power state.
abbrev pub state_transition : Model → Option SetVmStateInput
state_transition plan =
    if should_apply_state plan.state
    then elim plan.state [
      | none ↦ none
      | some s ↦ some (record {
        name = value_string plan.name;
        desired = value_string s.desired;
        shutdown_mode = value_string s.shutdown_mode;
      })
    ]
    else none

module _ {ℓ} {H : Type ℓ} (c : Client H) where
  abbrev vm_name : Model → String
  vm_name m = value_string m.name

  unfoldable pub attach_hard_disks : String → List HardDiskDriveModel → Handler H Unit
  attach_hard_disks vm_name =
      for_each
        (λ d. call "Attach hard disk failed" (c.attach_hard_disk (attach_input_for vm_name d)))

  unfoldable pub attach_network_adapters : String → List NetworkAdapterModel → Handler H Unit
  attach_network_adapters vm_name = for_each (λ n.
      call "Attach network adapter failed"
        (c.attach_network_adapter (attach_nic_input_for vm_name n)))

  unfoldable pub attach_dvd_drives : String → List DvdDriveModel → Handler H Unit
  attach_dvd_drives vm_name =
      for_each
        (λ d. call "Attach DVD drive failed" (c.attach_dvd_drive (attach_dvd_input_for vm_name d)))

  -- The detach loops of Update go on where the device is already gone.
  unfoldable pub detach_hard_disks : String → List HardDiskDriveModel → Handler H Unit
  detach_hard_disks vm_name = for_each (λ d.
      call_or_gone "Detach hard disk failed" (c.detach_hard_disk (detach_input_for vm_name d)))

  unfoldable pub detach_network_adapters : String → List NetworkAdapterModel → Handler H Unit
  detach_network_adapters vm_name = for_each (λ n.
      call_or_gone "Detach network adapter failed"
        (c.detach_network_adapter (detach_nic_input_for vm_name n)))

  unfoldable pub detach_dvd_drives : String → List DvdDriveModel → Handler H Unit
  detach_dvd_drives vm_name = for_each (λ d.
      call_or_gone "Detach DVD drive failed" (c.detach_dvd_drive (detach_dvd_input_for vm_name d)))

  abbrev pub set_boot_order_if : Bool → String → List BootOrderEntryModel → Handler H Unit
  set_boot_order_if true vm_name entries =
      call "Set boot order failed" (c.set_boot_order (set_boot_order_input_for vm_name entries))
  set_boot_order_if false vm_name entries = pure tt

  -- The transition if there is one to make, else a read of the VM.
  abbrev pub transition_or_get : Option SetVmStateInput → String → String → Handler H Vm
  transition_or_get (some i) vm_name summary = call "Set VM state failed" (c.set_vm_state i)
  transition_or_get none vm_name summary = call summary (c.get_vm vm_name)

  -- After SetVM, a VM without a transition is the one that SetVM returned.
  abbrev pub transition_or_keep : Option SetVmStateInput → Vm → Handler H Vm
  transition_or_keep (some i) v = call "Set VM state failed" (c.set_vm_state i)
  transition_or_keep none v = pure v
