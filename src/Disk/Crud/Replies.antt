-- ===== src/Disk/Crud/Replies.antt =====
-- What the replies of the handlers of hyperv_vhd say of the client's answers.
use terraform_provider_hyper.Common.{
  ℕ, String, List, [], ◌∷◌, false, Option, none, some, ◌≡◌, ◌⊎◌, inl, inr, refl, Bool-cases, true,
}
use terraform_provider_hyper.Framework.{known, Diagnostic, Severity}
use terraform_provider_hyper.Framework.Handlers.{Action, Reply, recording, dropping, silent}
use terraform_provider_hyper.Hyperv.Client.{Result, ok, failed}
use terraform_provider_hyper.Hyperv.Errors.{is_not_found}
use terraform_provider_hyper.Hyperv.Disks.{Vhd}
use terraform_provider_hyper.Hyperv.Images.{ImageFile}
use terraform_provider_hyper.Disk.Model.{Model, Lower, model_from_vhd}
use terraform_provider_hyper.Disk.Crud.{
  resize_reply, create_reply, read_reply, copy_reply, delete_reply, stat_reply,
  source_path_diagnostics, is_checksum_mismatch, is_invalid_parent_path,
}

-- One error, and the state is as it was.
abbrev pub IsRefused : Reply Model → Type 0
IsRefused y =
    (d : Diagnostic) × (y ≡ record { state = Action.kept; diagnostics = d ∷ [] })
    × (d.severity ≡ Severity.error)

-- A state is recorded, or the reply is refused.
abbrev pub IsWritten : Reply Model → Type 0
IsWritten y = ((m : Model) × (y ≡ recording m)) ⊎ IsRefused y

-- The reply to a Read: a disk that does not exist is dropped.
abbrev pub ReadsBy : Result Vhd → Reply Model → Type 0
ReadsBy (ok v) y = (m : Model) × (y ≡ recording m)
ReadsBy (failed e) y =
    (is_not_found e ≡ true → y ≡ dropping) × (is_not_found e ≡ false → IsRefused y)

-- To a Delete: a disk that does not exist is as good as removed.
abbrev pub DeletesBy : Result (List ℕ) → Reply Model → Type 0
DeletesBy (ok out) y = y ≡ silent
DeletesBy (failed e) y =
    (is_not_found e ≡ true → y ≡ silent) × (is_not_found e ≡ false → IsRefused y)

-- To a ModifyPlan that looks at the source: its hash is planned and nothing else, or the plan is left
-- alone, for a source that does not exist before the disk is created, or an error is reported.
abbrev pub PlansBy : Model → Option Model → Result ImageFile → Reply Model → Type 0
PlansBy plan prior (ok f) y = y ≡ recording (record plan { source_sha256 = known f.sha256 })
PlansBy plan none (failed e) y =
    (is_not_found e ≡ true → y ≡ silent) × (is_not_found e ≡ false → IsRefused y)
PlansBy plan (some m) (failed e) y = IsRefused y

module _ ⦃l : Lower⦄ where
  pub resize_reply-IsWritten : (m : Model) (r : Result Vhd) → IsWritten (resize_reply m r)
  resize_reply-IsWritten m (ok v) = inl (model_from_vhd v m, refl)
  resize_reply-IsWritten m (failed e) = inr (_, refl, refl)

  pub create_reply-IsWritten : (m : Model) (r : Result Vhd) → IsWritten (create_reply m r)
  create_reply-IsWritten m (ok v) = inl (model_from_vhd v m, refl)
  create_reply-IsWritten m (failed e) = elim (Bool-cases (is_invalid_parent_path e)) [
    | inl q ↦ rw q (inr (_, refl, refl))
    | inr q ↦ rw q (inr (_, refl, refl))
  ]

  pub read_reply-ReadsBy : (m : Model) (r : Result Vhd) → ReadsBy r (read_reply m r)
  read_reply-ReadsBy m (ok v) = (model_from_vhd v m, refl)
  read_reply-ReadsBy m (failed e) = ((λ q. rw q refl), (λ q. rw q (_, refl, refl)))

  pub copy_reply-IsWritten :
      (summary : String) (m : Model) (r : Result (Vhd × String))
      → IsWritten (copy_reply summary m r)
  unfolding source_path_diagnostics
  copy_reply-IsWritten summary m (ok (v, sha)) = inl (_, refl)
  copy_reply-IsWritten summary m (failed e) = elim (Bool-cases (is_checksum_mismatch e)) [
    | inl q ↦ rw q (inr (_, refl, refl))
    | inr q ↦ elim (Bool-cases (is_not_found e)) [
      | inl p ↦ rw (q, p) (inr (_, refl, refl))
      | inr p ↦ rw (q, p) (inr (_, refl, refl))
    ]
  ]

pub delete_reply-DeletesBy : (r : Result (List ℕ)) → DeletesBy r (delete_reply r)
delete_reply-DeletesBy (ok out) = refl
delete_reply-DeletesBy (failed e) = ((λ q. rw q refl), (λ q. rw q (_, refl, refl)))

pub stat_reply-PlansBy :
    (plan : Model) (prior : Option Model) (r : Result ImageFile)
    → PlansBy plan prior r (stat_reply plan prior r)
stat_reply-PlansBy plan prior (ok f) = refl
stat_reply-PlansBy plan none (failed e) = ((λ q. rw q refl), (λ q. rw q (_, refl, refl)))
stat_reply-PlansBy plan (some m) (failed e) = elim (Bool-cases (is_not_found e)) [
  | inl q ↦ rw q (_, refl, refl)
  | inr q ↦ rw q (_, refl, refl)
]
