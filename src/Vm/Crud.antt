-- ===== src/Vm/Crud.antt =====
-- Create, Read, Update and Delete of internal/resources/vm/resource.go, put together from Vm/Handlers.
-- A handler's response says what it does to the recorded state; after a Delete without an error the
-- framework drops the state itself. The code's early returns are the halted outcomes, and a nil `cpu`
-- or `memory` block is a panic.
pub mod Read
pub mod Reported
pub mod Created
pub mod NoOp
pub mod Order
pub mod Sequence
pub mod Ends
use terraform_provider_hyper.Hyperv.Errors.{is_not_found}
use terraform_provider_hyper.Vm.Input.{build_new_input, set_input_has_changes, build_set_input}
use terraform_provider_hyper.Vm.Slots.{
  HddSlotKey, diff_hard_disk_drives, diff_network_adapters, diff_dvd_drives,
}
use terraform_provider_hyper.Vm.Reconcile.{
  should_apply_boot_order, state_desired_changed, boot_order_semantic_equals, should_apply_state,
}
use terraform_provider_hyper.Framework.{Diagnostics, value_string, elements, plain_error}
use terraform_provider_hyper.Hyperv.Clock.{Clock}
use terraform_provider_hyper.Vm.Wait.{Text, wait_for_guest_ip_after_create}
use terraform_provider_hyper.Vm.Model.{
  Model, HardDiskDriveModel, boot_order_entries, NetworkAdapterModel, DvdDriveModel,
  hard_disk_drive_models, network_adapter_models, dvd_drive_models,
}
use terraform_provider_hyper.Vm.Handlers.{
  Resource, Response, with_client, attach_hard_disks, state_transition, transition_or_get, write,
  set_boot_order_if, StateAction, attach_network_adapters, attach_dvd_drives, detach_hard_disks,
  detach_network_adapters, detach_dvd_drives, transition_or_keep,
}
use terraform_provider_hyper.Vm.Effects.{◌>>=◌, Handler, Outcome, call, call_or_gone, ◌>>◌, pure}
use terraform_provider_hyper.Hyperv.Dto.{Vm, SetVmInput, SetVmStateInput}
use terraform_provider_hyper.Hyperv.Client.{Client, Result, ok, failed}
use terraform_provider_hyper.Common.Assoc.{Visit}
use terraform_provider_hyper.Common.Sort.{Sorter}
use terraform_provider_hyper.Types.Runes.{Unicode}
use terraform_provider_hyper.Common.{
  String, ℕ, Bool, true, false, ◌&&◌, not, Option, none, some, List, [], ◌∷◌, if◌then◌else◌,
}

-- The orders in which the `range` loops of the three diffs visit their maps.
pub record MapOrders : Type 0 where
  pub hdd_plan : Visit (HddSlotKey × HardDiskDriveModel)
  pub hdd_state : Visit (HddSlotKey × HardDiskDriveModel)
  pub nic_plan : Visit (String × NetworkAdapterModel)
  pub nic_state : Visit (String × NetworkAdapterModel)
  pub dvd_plan : Visit (HddSlotKey × DvdDriveModel)
  pub dvd_state : Visit (HddSlotKey × DvdDriveModel)

unfoldable pub boot_order_changed : Model → Model → Bool
boot_order_changed plan state =
    should_apply_boot_order (boot_order_entries plan)
    && not (
        boot_order_semantic_equals (elements (boot_order_entries plan))
          (elements (boot_order_entries state)))

unfoldable pub state_changed : Model → Model → Bool
state_changed plan state =
    should_apply_state plan.state && state_desired_changed plan.state state.state

-- The transition that Update makes: the planned one, if the recorded power state differs.
unfoldable pub changed_transition : Model → Model → Option SetVmStateInput
changed_transition plan state = if state_changed plan state then state_transition plan else none

module _ {ℓ} {H : Type ℓ} ⦃u : Unicode⦄ ⦃s : Sorter⦄ where
  abbrev get_or_panic : {A B : Type 0} → Option A → (A → Handler H B) → Handler H B
  get_or_panic none f h = (h, Outcome.panicked)
  get_or_panic (some a) f h = f a h

  abbrev end_wait : Option (H × (Vm × Diagnostics)) → H → H × Outcome (Vm × Diagnostics)
  end_wait none h = (h, Outcome.out_of_fuel)
  end_wait (some (h1, w)) h = (h1, Outcome.done w)

  abbrev waited_for_guest_ip :
      ⦃t : Text⦄ → ⦃k : Clock H⦄ → Client H → ℕ → Model → Vm → Handler H (Vm × Diagnostics)
  waited_for_guest_ip c interval plan v h =
      end_wait
        (wait_for_guest_ip_after_create c interval (value_string plan.name)
          plan.wait_for_guest_ip_timeout v h)
        h

  -- The devices, the boot order and the power state of a new VM.
  unfoldable pub furnish : Client H → Model → Handler H Vm
  furnish c plan =
      let vm_name = value_string plan.name in
      let boot = boot_order_entries plan in
      attach_hard_disks c vm_name (elements (hard_disk_drive_models plan))
      >> attach_network_adapters c vm_name (elements (network_adapter_models plan))
      >> attach_dvd_drives c vm_name (elements (dvd_drive_models plan))
      >> set_boot_order_if c (should_apply_boot_order boot) vm_name (elements boot)
      >> transition_or_get c (state_transition plan) vm_name "Read hyperv_vm after Create failed"

  unfoldable pub create_with :
      ⦃t : Text⦄ → ⦃k : Clock H⦄ → ℕ → Model → Client H → Handler H Response
  create_with interval plan c = get_or_panic (build_new_input plan) (λ i.
      call "Create hyperv_vm failed" (c.new_vm i)
      >> furnish c plan
      >>= (λ v. waited_for_guest_ip c interval plan v)
      >>= (λ (v, diags). pure (write plan diags v)))

  unfoldable pub create : ⦃t : Text⦄ → ⦃k : Clock H⦄ → Resource H → Model → Handler H Response
  create r plan = with_client r.client (create_with r.poll_interval plan)

  abbrev pub read_answer : Model → H × Result Vm → H × Outcome Response
  read_answer state (h, ok v) = (h, Outcome.done (write state [] v))
  read_answer state (h, failed e) = (
    h,
    if is_not_found e
        then Outcome.done (record { state = StateAction.removed; diagnostics = [] })
        else Outcome.halted (plain_error "Read hyperv_vm failed"),
  )

  unfoldable pub read : Resource H → Model → Handler H Response
  read r state =
      with_client r.client (λ c h. read_answer state (c.get_vm (value_string state.name) h))

  -- The device lists of Update, each with its detach loop first.
  unfoldable pub refit : ⦃o : MapOrders⦄ → Client H → Model → Model → Handler H Unit
  refit ⦃o⦄ c plan state =
      let vm_name = value_string plan.name in
      let (hdd_attach, hdd_detach) =
        diff_hard_disk_drives o.hdd_plan o.hdd_state (elements (hard_disk_drive_models plan))
          (elements (hard_disk_drive_models state)) in
      let (nic_attach, nic_detach) =
        diff_network_adapters o.nic_plan o.nic_state (elements (network_adapter_models plan))
          (elements (network_adapter_models state)) in
      let (dvd_attach, dvd_detach) =
        diff_dvd_drives o.dvd_plan o.dvd_state (elements (dvd_drive_models plan))
          (elements (dvd_drive_models state)) in
      detach_hard_disks c vm_name hdd_detach
      >> attach_hard_disks c vm_name hdd_attach
      >> detach_network_adapters c vm_name nic_detach
      >> attach_network_adapters c vm_name nic_attach
      >> detach_dvd_drives c vm_name dvd_detach
      >> attach_dvd_drives c vm_name dvd_attach

  -- The scalar part of Update.
  unfoldable pub apply_scalars : Client H → Model → Model → SetVmInput → Handler H Vm
  apply_scalars c plan state i =
      let transition = changed_transition plan state in
      if not (set_input_has_changes i)
      then transition_or_get c transition (value_string plan.name)
          "Read hyperv_vm after attachment-only Update failed"
      else call "Update hyperv_vm failed" (c.set_vm i) >>= (λ v. transition_or_keep c transition v)

  unfoldable pub update_with : ⦃o : MapOrders⦄ → Model → Model → Client H → Handler H Response
  update_with plan state c =
      refit c plan state
      >> set_boot_order_if c (boot_order_changed plan state) (value_string plan.name)
          (elements (boot_order_entries plan))
      >> get_or_panic (build_set_input plan state) (λ i. apply_scalars c plan state i)
      >>= (λ v. pure (write plan [] v))

  unfoldable pub update : ⦃o : MapOrders⦄ → Resource H → Model → Model → Handler H Response
  update r plan state = with_client r.client (update_with plan state)

  unfoldable pub delete : Resource H → Model → Handler H Response
  delete r state = with_client r.client (λ c.
      call_or_gone "Delete hyperv_vm failed" (c.remove_vm (value_string state.name))
      >> pure (record { state = StateAction.kept; diagnostics = [] }))
