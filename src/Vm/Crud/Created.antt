-- ===== src/Vm/Crud/Created.antt =====
-- How Create ends.
use terraform_provider_hyper.Hyperv.Clock.{Clock}
use terraform_provider_hyper.Vm.Wait.Ends.{wait_for_guest_ipv4-ends}
use terraform_provider_hyper.Vm.Effects.{◌>>=◌, ◌>>◌, Outcome, call, Handler, pure}
use terraform_provider_hyper.Vm.Handlers.{Response, write, reconciled}
use terraform_provider_hyper.Common.Int.{ℤ, negsuc, pos}
use terraform_provider_hyper.Vm.Input.{build_new_input}
use terraform_provider_hyper.Vm.Crud.Ends.{
  Ends, IsReported, then-Ends, call-Ends, furnish-Ends, next-EndsIn, respond-IsReported, IsWritten,
  EndsIn,
}
use terraform_provider_hyper.Hyperv.Dto.{Vm, NewVmInput}
use terraform_provider_hyper.Framework.{Diagnostics, value_string, attribute_error, PathStep}
use terraform_provider_hyper.Vm.Model.{Model, CpuModel, MemoryModel}
use terraform_provider_hyper.Vm.Crud.{create, create_with, waited_for_guest_ip, furnish, end_wait}
use terraform_provider_hyper.Hyperv.Client.{Client, Result}
use terraform_provider_hyper.Vm.Wait.{
  Text, wait_for_guest_ip_after_create, guest_ip_timeout, after_wait, wait_unless_zero,
  with_outcome,
}
use terraform_provider_hyper.Common.Sort.{Sorter}
use terraform_provider_hyper.Types.Runes.{Unicode}
use terraform_provider_hyper.Common.{
  none, some, zero, suc, refl, ℕ, String, ◌≤◌, ◌≡◌, Option, ◌∷◌, [], ap, sym, subst,
}

module _ {ℓ} {H : Type ℓ} ⦃u : Unicode⦄ ⦃s : Sorter⦄ ⦃t : Text⦄ ⦃k : Clock H⦄ (c : Client H)
    (interval : ℕ) (hget : (n : String) (h : H) → k.now h ≤ k.now (c.get_vm n h).0) where
  -- The wait after a create comes to an end.
  waits :
      (n : String) (timeout : Option ℤ) (v : Vm) (h : H)
      → (h' : H) × (w : Vm × Diagnostics) × (wait_unless_zero c interval n timeout v h
          ≡ some (h', w))
  unfolding wait_unless_zero
  waits n none v h = (
    h,
    (
      v,
      attribute_error (PathStep.name "wait_for_guest_ip_timeout" ∷ [])
            "Invalid wait_for_guest_ip_timeout"
          ∷ [],
    ),
    refl,
  )
  waits n (some (negsuc m)) v h = (h, (v, []), refl)
  waits n (some (pos zero)) v h = (h, (v, []), refl)
  waits n (some (pos (suc m))) v h =
      let (h', w, e, good) = wait_for_guest_ipv4-ends c interval hget n (suc m) h in
      (h', after_wait c interval v w, ap (with_outcome c interval v) e)

  waited-Ends : (plan : Model) (v : Vm) → Ends (waited_for_guest_ip c interval plan v)
  unfolding wait_for_guest_ip_after_create
  waited-Ends plan v h =
      let (h', w, e) =
        waits (value_string plan.name) (guest_ip_timeout plan.wait_for_guest_ip_timeout) v h in
      subst (λ x. EndsIn (λ a. Unit) (end_wait x h).1) (sym e) tt

  new_input :
      (plan : Model) (plan_cpu : CpuModel) (plan_memory : MemoryModel)
      → plan.cpu ≡ some plan_cpu
      → plan.memory ≡ some plan_memory
      → (i : NewVmInput) × (build_new_input plan ≡ some i)
  unfolding build_new_input
  new_input plan pc pm hpc hpm = rw (hpc, hpm) (_, refl)

  waited-done :
      (plan : Model) (v : Vm) (h : H)
      → (h' : H) × (w : Vm × Diagnostics) × (waited_for_guest_ip c interval plan v h
          ≡ (h', Outcome.done w))
  unfolding wait_for_guest_ip_after_create
  waited-done plan v h =
      let (h', w, e) =
        waits (value_string plan.name) (guest_ip_timeout plan.wait_for_guest_ip_timeout) v h in
      (h', w, ap (λ x. end_wait x h) e)

  ended :
      (plan : Model) (plan_cpu : CpuModel) (plan_memory : MemoryModel)
      → plan.cpu ≡ some plan_cpu
      → plan.memory ≡ some plan_memory
      → (h : H)
      → (r : Response) × ((create (record { client = some c; poll_interval = interval }) plan h).1
          ≡ Outcome.done r)
        × IsReported r
  unfolding create create_with
  ended plan pc pm hpc hpm h =
      let (i, q) = new_input plan pc pm hpc hpm in
      let made = call "Create hyperv_vm failed" (c.new_vm i) in
      let wait : Vm → Handler H (Vm × Diagnostics) = λ v. waited_for_guest_ip c interval plan v in
      let e1 =
        then-Ends made (furnish c plan) (call-Ends "Create hyperv_vm failed" (c.new_vm i))
          (furnish-Ends c plan) in
      let e2 : Ends (made >> furnish c plan >>= wait) = λ h.
        next-EndsIn (λ a. Unit) wait ((made >> furnish c plan) h) (e1 h)
          (λ v. waited-Ends plan v) in
      rw q (
        respond-IsReported
          ((made >> furnish c plan >>= wait >>= (λ (v, diags). pure (write plan diags v))) h)
          (next-EndsIn IsWritten (λ (v, diags). pure (write plan diags v))
            ((made >> furnish c plan >>= wait) h) (e2 h)
            (λ (v, diags) h. (reconciled plan v, refl))))

  -- The end of a Create whose VM is made and furnished.
  written :
      (plan : Model) (h h1 h2 h3 : H) (i : NewVmInput) (v0 v v1 : Vm) (ds : Diagnostics)
      → build_new_input plan ≡ some i
      → c.new_vm i h ≡ (h1, Result.ok v0)
      → furnish c plan h1 ≡ (h2, Outcome.done v)
      → waited_for_guest_ip c interval plan v h2 ≡ (h3, Outcome.done (v1, ds))
      → (create (record { client = some c; poll_interval = interval }) plan h).1
        ≡ Outcome.done (write plan ds v1)
  unfolding create create_with
  written plan h h1 h2 h3 i v0 v v1 ds qi qn qf qw = rw (qi, qn, qf, qw) refl

  -- A Create with a configured client, whose plan has its cpu and memory blocks, comes to an end if
  -- reading a VM never sets the clock back: either it writes the state, or it leaves the state as it was
  -- and reports an error. Once the VM is created and has its devices, boot order and power state, the
  -- state is written, however the wait for a guest address ends.
  pub create-IsReported :
      (plan : Model) (plan_cpu : CpuModel) (plan_memory : MemoryModel)
      → plan.cpu ≡ some plan_cpu
      → plan.memory ≡ some plan_memory
      → (h : H)
      → (r : Response) × ((create (record { client = some c; poll_interval = interval }) plan h).1
          ≡ Outcome.done r)
        × IsReported r
        × ((i : NewVmInput) (h1 h2 : H) (v0 v : Vm)
            → build_new_input plan ≡ some i
            → c.new_vm i h ≡ (h1, Result.ok v0)
            → furnish c plan h1 ≡ (h2, Outcome.done v)
            → IsWritten r)
  create-IsReported plan pc pm hpc hpm h =
      let (r, e, reported) = ended plan pc pm hpc hpm h in
      (
        r,
        e,
        reported,
        (λ i h1 h2 v0 v qi qn qf.
            let (h3, (v1, ds), qw) = waited-done plan v h2 in
            let w = written plan h h1 h2 h3 i v0 v v1 ds qi qn qf qw in
            let same : r ≡ write plan ds v1 = cc in (reconciled plan v1, ap (λ x. x.state) same)),
      )
