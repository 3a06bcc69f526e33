-- ===== src/Vm/Crud/Ends.antt =====
-- How the parts of Create and Update end.
use terraform_provider_hyper.Vm.Slots.{
  diff_hard_disk_drives, diff_network_adapters, diff_dvd_drives,
}
use terraform_provider_hyper.Vm.Input.{set_input_has_changes}
use terraform_provider_hyper.Vm.Crud.{apply_scalars, furnish, refit, MapOrders, changed_transition}
use terraform_provider_hyper.Vm.Reconcile.{set_boot_order_input_for, should_apply_boot_order}
use terraform_provider_hyper.Hyperv.Errors.{is_not_found}
use terraform_provider_hyper.Hyperv.Dto.{SetVmStateInput, Vm, SetVmInput}
use terraform_provider_hyper.Hyperv.Client.{Call, Client, Result-cases}
use terraform_provider_hyper.Common.Sort.{Sorter}
use terraform_provider_hyper.Types.Runes.{Unicode}
use terraform_provider_hyper.Framework.{Diagnostic, Severity, value_string, elements}
use terraform_provider_hyper.Vm.Model.{
  Model, BootOrderEntryModel, DvdDriveModel, HardDiskDriveModel, NetworkAdapterModel,
  hard_disk_drive_models, network_adapter_models, dvd_drive_models, boot_order_entries,
}
use terraform_provider_hyper.Vm.Handlers.{
  Response, StateAction, respond, attach_dvd_drives, attach_hard_disks, attach_network_adapters,
  detach_dvd_drives, detach_hard_disks, detach_network_adapters, set_boot_order_if,
  transition_or_get, transition_or_keep, state_transition,
}
use terraform_provider_hyper.Vm.Effects.{Handler, Outcome, next, for_each, ◌>>◌, call, call_or_gone}
use terraform_provider_hyper.Common.{
  none, false, refl, ◌≡◌, ◌⊎◌, ◌∷◌, [], String, List, inl, inr, Bool, Option, Bool-cases, some,
  true,
}

-- A handler part comes to an end, with `P` of its value or with an error.
abbrev pub EndsIn : {A : Type 0} → (A → Type 0) → Outcome A → Type 0
EndsIn P (Outcome.done a) = P a
EndsIn P (Outcome.halted d) = d.severity ≡ Severity.error
EndsIn P Outcome.panicked = ⊥
EndsIn P Outcome.out_of_fuel = ⊥

-- The state is written, or an error is reported and the state is as it was.
abbrev pub IsReported : Response → Type 0
IsReported r =
    ((m : Model) × (r.state ≡ StateAction.written m))
    ⊎ ((d : Diagnostic) × (r.state ≡ StateAction.kept)
        × (r.diagnostics ≡ d ∷ [])
        × (d.severity ≡ Severity.error))

abbrev pub IsWritten : Response → Type 0
IsWritten r = (m : Model) × (r.state ≡ StateAction.written m)

module _ {ℓ} {H : Type ℓ} where
  pub next-EndsIn :
      {A B : Type 0} (P : B → Type 0) (f : A → Handler H B) (x : H × Outcome A)
      → EndsIn (λ a. Unit) x.1
      → ((a : A) (h : H) → EndsIn P (f a h).1)
      → EndsIn P (next f x).1
  next-EndsIn P f (h, Outcome.done a) e k = k a h
  next-EndsIn P f (h, Outcome.halted d) e k = e
  next-EndsIn P f (h, Outcome.panicked) e k = absurd e
  next-EndsIn P f (h, Outcome.out_of_fuel) e k = absurd e

  abbrev pub Ends : {A : Type 0} → Handler H A → Type ℓ
  Ends m = (h : H) → EndsIn (λ a. Unit) (m h).1

  pub then-Ends :
      {A B : Type 0} (m : Handler H A) (k : Handler H B) → Ends m → Ends k → Ends (m >> k)
  then-Ends m k em ek h = next-EndsIn (λ a. Unit) (λ a. k) (m h) (em h) (λ a. ek)

  pub call-Ends : {A : Type 0} (summary : String) (c : Call H A) → Ends (call summary c)
  call-Ends summary c h = elim (Result-cases (c h).1) [
    | inl (a, q) ↦ rw q tt
    | inr (e, q) ↦ rw q refl
  ]

  call_or_gone-Ends : (summary : String) (c : Call H Unit) → Ends (call_or_gone summary c)
  call_or_gone-Ends summary c h = elim (Result-cases (c h).1) [
    | inl (a, q) ↦ rw q tt
    | inr (e, q) ↦ elim (Bool-cases (is_not_found e)) [
      | inl p ↦ rw (q, p) tt
      | inr p ↦ rw (q, p) refl
    ]
  ]

  for_each-Ends :
      {A : Type 0} (f : A → Handler H Unit)
      → ((a : A) → Ends (f a))
      → (xs : List A) → Ends (for_each f xs)
  unfolding for_each
  for_each-Ends f e [] h = tt
  for_each-Ends f e (x ∷ xs) h =
      next-EndsIn (λ a. Unit) (λ a. for_each f xs) (f x h) (e x h) (λ a. for_each-Ends f e xs)

  pub respond-IsReported :
      (x : H × Outcome Response)
      → EndsIn IsWritten x.1
      → (r : Response) × ((respond x).1 ≡ Outcome.done r) × IsReported r
  respond-IsReported (h, Outcome.done r) e = (r, refl, inl e)
  respond-IsReported (h, Outcome.halted d) e =
      (record { state = StateAction.kept; diagnostics = d ∷ [] }, refl, inr (d, refl, refl, e))
  respond-IsReported (h, Outcome.panicked) e = absurd e
  respond-IsReported (h, Outcome.out_of_fuel) e = absurd e

module _ {ℓ} {H : Type ℓ} ⦃u : Unicode⦄ ⦃s : Sorter⦄ (c : Client H) where
  pub boot-Ends :
      (b : Bool) (n : String) (es : List BootOrderEntryModel) → Ends (set_boot_order_if c b n es)
  boot-Ends true n es =
      call-Ends "Set boot order failed" (c.set_boot_order (set_boot_order_input_for n es))
  boot-Ends false n es = λ h. tt

  transition_or_get-Ends :
      (i : Option SetVmStateInput) (n summary : String) → Ends (transition_or_get c i n summary)
  transition_or_get-Ends (some i) n summary = call-Ends "Set VM state failed" (c.set_vm_state i)
  transition_or_get-Ends none n summary = call-Ends summary (c.get_vm n)

  transition_or_keep-Ends : (i : Option SetVmStateInput) (v : Vm) → Ends (transition_or_keep c i v)
  transition_or_keep-Ends (some i) v = call-Ends "Set VM state failed" (c.set_vm_state i)
  transition_or_keep-Ends none v = λ h. tt

  attach_hard_disks-Ends :
      (n : String) (xs : List HardDiskDriveModel) → Ends (attach_hard_disks c n xs)
  unfolding attach_hard_disks
  attach_hard_disks-Ends n = for_each-Ends _ (λ d. call-Ends _ _)

  attach_network_adapters-Ends :
      (n : String) (xs : List NetworkAdapterModel) → Ends (attach_network_adapters c n xs)
  unfolding attach_network_adapters
  attach_network_adapters-Ends n = for_each-Ends _ (λ d. call-Ends _ _)

  attach_dvd_drives-Ends : (n : String) (xs : List DvdDriveModel) → Ends (attach_dvd_drives c n xs)
  unfolding attach_dvd_drives
  attach_dvd_drives-Ends n = for_each-Ends _ (λ d. call-Ends _ _)

  detach_hard_disks-Ends :
      (n : String) (xs : List HardDiskDriveModel) → Ends (detach_hard_disks c n xs)
  unfolding detach_hard_disks
  detach_hard_disks-Ends n = for_each-Ends _ (λ d. call_or_gone-Ends _ _)

  detach_network_adapters-Ends :
      (n : String) (xs : List NetworkAdapterModel) → Ends (detach_network_adapters c n xs)
  unfolding detach_network_adapters
  detach_network_adapters-Ends n = for_each-Ends _ (λ d. call_or_gone-Ends _ _)

  detach_dvd_drives-Ends : (n : String) (xs : List DvdDriveModel) → Ends (detach_dvd_drives c n xs)
  unfolding detach_dvd_drives
  detach_dvd_drives-Ends n = for_each-Ends _ (λ d. call_or_gone-Ends _ _)

  pub furnish-Ends : (plan : Model) → Ends (furnish c plan)
  unfolding furnish
  furnish-Ends plan =
      let n = value_string plan.name in
      let a0 = attach_hard_disks c n (elements (hard_disk_drive_models plan)) in
      let a1 = attach_network_adapters c n (elements (network_adapter_models plan)) in
      let a2 = attach_dvd_drives c n (elements (dvd_drive_models plan)) in
      let a3 =
        set_boot_order_if c (should_apply_boot_order (boot_order_entries plan)) n
          (elements (boot_order_entries plan)) in
      let a4 = transition_or_get c (state_transition plan) n "Read hyperv_vm after Create failed" in
      let e1 =
        then-Ends (a0) a1 (attach_hard_disks-Ends n (elements (hard_disk_drive_models plan)))
          (attach_network_adapters-Ends n (elements (network_adapter_models plan))) in
      let e2 =
        then-Ends (a0 >> a1) a2 (e1)
          (attach_dvd_drives-Ends n (elements (dvd_drive_models plan))) in
      let e3 = then-Ends (a0 >> a1 >> a2) a3 (e2) (
        boot-Ends (should_apply_boot_order (boot_order_entries plan)) n
          (elements (boot_order_entries plan))) in
      let e4 =
        then-Ends (a0 >> a1 >> a2 >> a3) a4 (e3)
          (transition_or_get-Ends (state_transition plan) n "Read hyperv_vm after Create failed") in
      e4

  pub refit-Ends : ⦃o : MapOrders⦄ → (plan state : Model) → Ends (refit c plan state)
  unfolding refit
  refit-Ends ⦃o⦄ plan state =
      let n = value_string plan.name in
      let hdd =
        diff_hard_disk_drives o.hdd_plan o.hdd_state (elements (hard_disk_drive_models plan))
          (elements (hard_disk_drive_models state)) in
      let nic =
        diff_network_adapters o.nic_plan o.nic_state (elements (network_adapter_models plan))
          (elements (network_adapter_models state)) in
      let dvd =
        diff_dvd_drives o.dvd_plan o.dvd_state (elements (dvd_drive_models plan))
          (elements (dvd_drive_models state)) in
      let a0 = detach_hard_disks c n hdd.1 in
      let a1 = attach_hard_disks c n hdd.0 in
      let a2 = detach_network_adapters c n nic.1 in
      let a3 = attach_network_adapters c n nic.0 in
      let a4 = detach_dvd_drives c n dvd.1 in
      let a5 = attach_dvd_drives c n dvd.0 in
      let e1 =
        then-Ends (a0) a1 (detach_hard_disks-Ends n hdd.1) (attach_hard_disks-Ends n hdd.0) in
      let e2 = then-Ends (a0 >> a1) a2 (e1) (detach_network_adapters-Ends n nic.1) in
      let e3 = then-Ends (a0 >> a1 >> a2) a3 (e2) (attach_network_adapters-Ends n nic.0) in
      let e4 = then-Ends (a0 >> a1 >> a2 >> a3) a4 (e3) (detach_dvd_drives-Ends n dvd.1) in
      let e5 = then-Ends (a0 >> a1 >> a2 >> a3 >> a4) a5 (e4) (attach_dvd_drives-Ends n dvd.0) in e5

  pub apply_scalars-Ends :
      (plan state : Model) (i : SetVmInput) → Ends (apply_scalars c plan state i)
  unfolding apply_scalars
  apply_scalars-Ends plan state i h = elim (Bool-cases (set_input_has_changes i)) [
    | inl q ↦ rw q (
        next-EndsIn (λ a. Unit) (λ v. transition_or_keep c (changed_transition plan state) v) _
          (call-Ends _ (c.set_vm i) h)
          (λ v. transition_or_keep-Ends (changed_transition plan state) v))
    | inr q ↦ rw q (transition_or_get-Ends (changed_transition plan state) _ _ h)
  ]
