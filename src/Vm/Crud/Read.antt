-- ===== src/Vm/Crud/Read.antt =====
-- How Read and Delete end, by the client's answer.
use terraform_provider_hyper.Hyperv.Errors.{is_not_found}
use terraform_provider_hyper.Vm.Effects.{Outcome}
use terraform_provider_hyper.Vm.Crud.{read, delete}
use terraform_provider_hyper.Framework.{value_string, plain_error}
use terraform_provider_hyper.Hyperv.Dto.{Vm}
use terraform_provider_hyper.Vm.Model.{Model}
use terraform_provider_hyper.Vm.Handlers.{Response, Resource, StateAction, reconciled, write}
use terraform_provider_hyper.Types.Runes.{Unicode}
use terraform_provider_hyper.Hyperv.Client.{Result, Client, ok, Result-cases, failed}
use terraform_provider_hyper.Common.Sort.{Sorter}
use terraform_provider_hyper.Common.{
  refl, ℕ, ◌≡◌, [], some, inl, true, inr, ◌⊎◌, Bool-cases, false, ◌∷◌,
}

-- The response that goes with an answer to GetVM.
abbrev pub ReadEnds : ⦃s : Sorter⦄ → Model → Result Vm → Response → Type 0
ReadEnds state (ok v) r =
    (r.state ≡ StateAction.written (reconciled state v)) × (r.diagnostics ≡ [])
ReadEnds state (failed e) r =
    ((is_not_found e ≡ true) × (r.state ≡ StateAction.removed) × (r.diagnostics ≡ []))
    ⊎ ((is_not_found e ≡ false)
        × (r.state ≡ StateAction.kept)
        × (r.diagnostics ≡ plain_error "Read hyperv_vm failed" ∷ []))

-- The response that goes with an answer to RemoveVM.
abbrev pub DeleteEnds : Result Unit → Response → Type 0
DeleteEnds (ok v) r = r.diagnostics ≡ []
DeleteEnds (failed e) r =
    ((is_not_found e ≡ true) × (r.diagnostics ≡ []))
    ⊎ ((is_not_found e ≡ false) × (r.diagnostics ≡ plain_error "Delete hyperv_vm failed" ∷ []))

module _ {ℓ} {H : Type ℓ} ⦃u : Unicode⦄ ⦃s : Sorter⦄ (c : Client H) (interval : ℕ) (state : Model)
    (h : H) where
  abbrev resource : Resource H
  resource = record { client = some c; poll_interval = interval }

  abbrev got : H × Result Vm
  got = c.get_vm (value_string state.name) h

  abbrev gone : H × Result Unit
  gone = c.remove_vm (value_string state.name) h

  -- Read with a configured client makes one call and ends in one of three ways, by its answer: the VM is
  -- written to state, reconciled with the prior state; a VM that does not exist is dropped from state
  -- without an error; any other failure leaves the state as it was and is reported.
  pub read-ends :
      (r : Response) × (read resource state h ≡ (got.0, Outcome.done r)) × ReadEnds state got.1 r
  unfolding read
  read-ends = elim (Result-cases got.1) [
    | inl (v, q) ↦ rw (q, read) (write state [] v, refl, (refl, refl))
    | inr (e, q) ↦ elim (Bool-cases (is_not_found e)) [
      | inl p ↦
          rw (q, p)
            (record { state = StateAction.removed; diagnostics = [] }, refl, inl (refl, refl, refl))
      | inr p ↦
          rw (q, p)
            (
              record {
                state = StateAction.kept;
                diagnostics = plain_error "Read hyperv_vm failed" ∷ [];
              },
              refl,
              inr (refl, refl, refl),
            )
    ]
  ]

  -- Delete with a configured client makes one call, and reports an error exactly when it fails and not
  -- because the VM does not exist.
  pub delete-ends :
      (r : Response) × (delete resource state h ≡ (gone.0, Outcome.done r)) × DeleteEnds gone.1 r
  unfolding delete
  delete-ends = elim (Result-cases gone.1) [
    | inl (v, q) ↦
        rw (q, delete) (record { state = StateAction.kept; diagnostics = [] }, refl, refl)
    | inr (e, q) ↦ elim (Bool-cases (is_not_found e)) [
      | inl p ↦
          rw (q, p) (record { state = StateAction.kept; diagnostics = [] }, refl, inl (refl, refl))
      | inr p ↦
          rw (q, p)
            (
              record {
                state = StateAction.kept;
                diagnostics = plain_error "Delete hyperv_vm failed" ∷ [];
              },
              refl,
              inr (refl, refl),
            )
    ]
  ]
