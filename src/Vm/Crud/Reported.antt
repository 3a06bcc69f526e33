-- ===== src/Vm/Crud/Reported.antt =====
-- How Update ends, and what it leaves in state.
use terraform_provider_hyper.Vm.Input.Laws.{build_set_input-set_input}
use terraform_provider_hyper.Vm.Input.{set_input, build_set_input}
use terraform_provider_hyper.Framework.{value_string, elements}
use terraform_provider_hyper.Vm.Crud.Ends.{
  boot-Ends, Ends, IsReported, then-Ends, refit-Ends, apply_scalars-Ends, respond-IsReported,
  next-EndsIn, IsWritten,
}
use terraform_provider_hyper.Vm.Handlers.{Response, set_boot_order_if, write, reconciled}
use terraform_provider_hyper.Vm.Model.{Model, CpuModel, MemoryModel, boot_order_entries}
use terraform_provider_hyper.Vm.Effects.{Handler, Outcome, ◌>>◌, pure}
use terraform_provider_hyper.Vm.Crud.{
  update, update_with, MapOrders, boot_order_changed, get_or_panic, apply_scalars, refit,
}
use terraform_provider_hyper.Hyperv.Client.{Client}
use terraform_provider_hyper.Common.Sort.{Sorter}
use terraform_provider_hyper.Types.Runes.{Unicode}
use terraform_provider_hyper.Common.{some, refl, Option, ◌≡◌, ℕ, []}

module _ {ℓ} {H : Type ℓ} ⦃u : Unicode⦄ ⦃s : Sorter⦄ (c : Client H) where
  get_or_panic-Ends :
      {A B : Type 0} (o : Option A) (f : A → Handler H B) (a : A)
      → o ≡ some a
      → Ends (f a)
      → Ends (get_or_panic o f)
  get_or_panic-Ends o f a q e h = rw q (e h)

  -- An Update with a configured client, whose plan and state have their cpu and memory blocks, comes to
  -- an end: either it writes the state, or it leaves it as it was and reports an error.
  pub update-IsReported :
      ⦃o : MapOrders⦄
      → (interval : ℕ) (plan state : Model) (plan_cpu state_cpu : CpuModel)
        (plan_memory state_memory : MemoryModel)
      → plan.cpu ≡ some plan_cpu
      → state.cpu ≡ some state_cpu
      → plan.memory ≡ some plan_memory
      → state.memory ≡ some state_memory
      → (h : H)
      → (r : Response) × ((update
            (record { client = some c; poll_interval = interval })
            plan
            state
            h).1
          ≡ Outcome.done r)
        × IsReported r
  unfolding update update_with
  update-IsReported interval plan state pc sc pm sm hpc hsc hpm hsm h =
      let n = value_string plan.name in
      let i = set_input plan state pc sc pm sm in
      let boot =
        set_boot_order_if c (boot_order_changed plan state) n
          (elements (boot_order_entries plan)) in
      let scalars = get_or_panic (build_set_input plan state) (λ i. apply_scalars c plan state i) in
      let e1 =
        then-Ends (refit c plan state) boot (refit-Ends c plan state)
          (boot-Ends c (boot_order_changed plan state) n (elements (boot_order_entries plan))) in
      let e2 = then-Ends (refit c plan state >> boot) scalars e1 (
        get_or_panic-Ends (build_set_input plan state) (λ i. apply_scalars c plan state i) i
          (build_set_input-set_input plan state pc sc pm sm hpc hsc hpm hsm)
          (apply_scalars-Ends c plan state i)) in
      respond-IsReported (update_with plan state c h) (
        next-EndsIn IsWritten (λ v. pure (write plan [] v))
          ((refit c plan state >> boot >> scalars) h) (e2 h) (λ v h. (reconciled plan v, refl)))
