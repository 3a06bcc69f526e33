-- ===== src/Vm/Handlers/Refresh.antt =====
-- What a read of the host makes of the recorded state, in reconcileBootOrderInState,
-- reconcileStateBlock and reconcileMemoryBlock together.
use terraform_provider_hyper.Vm.Reconcile.Blocks.{
  reconcile_state_block_idem, reconcile_memory_block_idem,
}
use terraform_provider_hyper.Vm.Reconcile.Kept.{reconcile_boot_order_state_idem}
use terraform_provider_hyper.Vm.Hydrate.{model_from_vm}
use terraform_provider_hyper.Framework.{Attr, Slice, to_slice, of_slice}
use terraform_provider_hyper.Common.{refl, ◌≡◌, String, List, some, Option, ap, ◌∙◌, none}
use terraform_provider_hyper.Hyperv.Dto.{Vm}
use terraform_provider_hyper.Vm.Model.{Model, BootOrderEntryModel, StateModel, MemoryModel}
use terraform_provider_hyper.Common.Sort.{Sorter}
use terraform_provider_hyper.Vm.Reconcile.{
  reconcile_boot_order_in_state, reconcile_boot_order_state, reconcile_state_block,
  reconcile_memory_block,
}
use terraform_provider_hyper.Vm.Handlers.{reconciled}

abbrev with_parts :
    Model
    → Attr String
    → Attr (List BootOrderEntryModel)
    → Option StateModel
    → Option MemoryModel
    → Model
with_parts m wait boot power memory = record m {
  boot_order = boot;
  state = power;
  memory = memory;
  wait_for_guest_ip_timeout = wait;
}

to_slice-of_slice : {A : Type 0} (xs : Slice A) → to_slice (of_slice xs) ≡ xs
to_slice-of_slice none = refl
to_slice-of_slice (some xs) = refl

-- Refreshing a state that was just refreshed, with the same read of the host, leaves it as it is.
pub reconciled_idem :
    ⦃s : Sorter⦄ → (prior : Model) (v : Vm) → reconciled (reconciled prior v) v ≡ reconciled prior v
unfolding reconciled reconcile_boot_order_in_state
reconciled_idem ⦃s⦄ prior v =
    let m = model_from_vm v in
    let boot = reconcile_boot_order_state (to_slice prior.boot_order) (to_slice m.boot_order) in
    let power = reconcile_state_block prior.state m.state in
    let memory = reconcile_memory_block prior.memory m.memory in
    ap
      (λ b.
        with_parts m prior.wait_for_guest_ip_timeout (of_slice b)
          (reconcile_state_block power m.state) (reconcile_memory_block memory m.memory))
      (ap (λ x. reconcile_boot_order_state x (to_slice m.boot_order)) (to_slice-of_slice boot)
        ∙ reconcile_boot_order_state_idem (to_slice prior.boot_order) (to_slice m.boot_order))
    ∙ (ap
          (λ x.
            with_parts m prior.wait_for_guest_ip_timeout (of_slice boot) x
              (reconcile_memory_block memory m.memory))
          (reconcile_state_block_idem prior.state m.state)
        ∙ ap (λ x. with_parts m prior.wait_for_guest_ip_timeout (of_slice boot) power x)
            (reconcile_memory_block_idem prior.memory m.memory))
