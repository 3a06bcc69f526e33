-- ===== src/Disk/Crud.antt =====
-- ModifyPlan, Create, Read, Update and Delete of internal/resources/vhd/resource.go, over the client's
-- operations. `none` is an operation that waits for a lock of its own.
pub mod Replies
pub mod Locks
pub mod Ends
use terraform_provider_hyper.Common.{
  String, ℕ, List, Bool, true, false, not, ◌&&◌, Option, none, some, [], ◌∷◌, ◌==◌, if◌then◌else◌,
}
use terraform_provider_hyper.Common.Int.{ℤ, eq_ℤ}
use terraform_provider_hyper.Framework.{
  Attr, null, unknown, known, value_string, value_int64, is_known, is_unknown, equal, PathStep,
  attribute_error,
}
use terraform_provider_hyper.Framework.Handlers.{
  Action, Reply, reporting, recording, dropping, silent,
}
use terraform_provider_hyper.Hyperv.Client.{Result, ok, failed}
use terraform_provider_hyper.Hyperv.Errors.{ClientError, Sentinel, is_not_found}
use terraform_provider_hyper.Hyperv.Clock.{Clock}
use terraform_provider_hyper.Hyperv.Script.{Backend}
use terraform_provider_hyper.Hyperv.Session.{Session, Op, lift, return, ◌>>=◌}
use terraform_provider_hyper.Hyperv.Disks.{
  Vhd, DiskDecoder, get_vhd, resize_vhd, remove_vhd, new_vhd_fixed, new_vhd_dynamic,
  new_vhd_differencing,
}
use terraform_provider_hyper.Hyperv.Images.{ImageFile, FileDecoder, stat_image_file, copy_host_file}
use terraform_provider_hyper.Disk.Model.{Model, Lower, optional_int64, model_from_vhd}

-- The client that Configure stashed, with the decoders of its answers.
pub record Tools {ℓ} (H : Type ℓ) : Type ℓ where
  pub backend : Backend H
  pub disks : DiskDecoder
  pub files : FileDecoder

abbrev pub not_configured : Reply Model
not_configured = reporting "provider not configured"

abbrev pub reporting_at : String → String → Reply Model
reporting_at attr summary = record {
  state = Action.kept;
  diagnostics = attribute_error (PathStep.name attr ∷ []) summary ∷ [];
}

abbrev pub is_checksum_mismatch : ClientError → Bool
is_checksum_mismatch e = elim e.sentinel [ some Sentinel.checksum_mismatch ↦ true | _ ↦ false ]

abbrev pub is_invalid_parent_path : ClientError → Bool
is_invalid_parent_path e = elim e.sentinel [ some Sentinel.invalid_parent_path ↦ true | _ ↦ false ]

-- The summary is that of the operation.
unfoldable pub source_path_diagnostics : String → ClientError → Reply Model
source_path_diagnostics summary e =
    if is_checksum_mismatch e
    then reporting_at "source_path" "Source disk changed during apply"
    else if is_not_found e
    then reporting_at "source_path" "Source disk not found on host"
    else reporting summary

abbrev pub with_sha : String → Result Vhd → Result (Vhd × String)
with_sha sha (ok v) = ok (v, sha)
with_sha sha (failed e) = failed e

-- A handler.
abbrev pub Handled {ℓ} : Type ℓ → Type ℓ
Handled H = Session H → Option (Session H × Reply Model)

module _ ⦃l : Lower⦄ where
  -- The replies to the answers of the client.
  abbrev pub resize_reply : Model → Result Vhd → Reply Model
  resize_reply plan (ok v) = recording (model_from_vhd v plan)
  resize_reply plan (failed e) = reporting "Resize hyperv_vhd failed"

  abbrev pub create_reply : Model → Result Vhd → Reply Model
  create_reply plan (ok v) = recording (model_from_vhd v plan)
  create_reply plan (failed e) =
      if is_invalid_parent_path e
      then reporting_at "parent_path" "Parent VHD not found or invalid"
      else reporting "Create hyperv_vhd failed"

  abbrev pub read_reply : Model → Result Vhd → Reply Model
  read_reply state (ok v) = recording (model_from_vhd v state)
  read_reply state (failed e) =
      if is_not_found e then dropping else reporting "Read hyperv_vhd failed"

  abbrev pub copy_reply : String → Model → Result (Vhd × String) → Reply Model
  copy_reply summary plan (ok (v, sha)) =
      recording (model_from_vhd v (record plan { source_sha256 = known sha }))
  copy_reply summary plan (failed e) = source_path_diagnostics summary e

abbrev pub delete_reply : Result (List ℕ) → Reply Model
delete_reply (ok out) = silent
delete_reply (failed e) = if is_not_found e then silent else reporting "Delete hyperv_vhd failed"

abbrev pub stat_reply : Model → Option Model → Result ImageFile → Reply Model
stat_reply plan prior (ok f) = recording (record plan { source_sha256 = known f.sha256 })
stat_reply plan prior (failed e) =
    if is_not_found e
    then elim prior [
      | none ↦ silent
      | some m ↦ reporting_at "source_path" "Source disk not found on host"
    ]
    else reporting_at "source_path" "Cannot hash source disk at plan time"

unfoldable pub source_changed : Model → Model → Bool
source_changed plan state =
    is_known plan.source_path
    && not (is_unknown plan.source_sha256)
    && not (equal ◌==◌ plan.source_sha256 state.source_sha256)

module _ {ℓ} {H : Type ℓ} where
  abbrev pub answering : {A : Type 0} → Op H A → (Result A → Reply Model) → Handled H
  answering op f s = elim (op s) [ none ↦ none | some (t, r) ↦ some (t, f r) ]

  abbrev pub with_client : Option (Tools H) → (Tools H → Handled H) → Handled H
  with_client r f s = elim r [ none ↦ some (s, not_configured) | some k ↦ f k s ]

  module _ (k : Tools H) where
    -- A copy that cannot be resized is removed again.
    abbrev pub resized : String → String → Result Vhd → Op H (Vhd × String)
    resized path sha (ok v) = return (ok (v, sha))
    resized path sha (failed e) = remove_vhd k.backend k.disks path >>= (λ r. return (failed e))

    abbrev pub refreshed : Model → Result ImageFile → Op H (Vhd × String)
    refreshed plan (failed e) = return (failed e)
    refreshed plan (ok copied) =
        let path = value_string plan.path in
        if is_known plan.size_bytes
        then lift (resize_vhd k.backend k.disks path (value_int64 plan.size_bytes))
          >>= resized path copied.sha256
        else lift (get_vhd k.backend k.disks path) >>= (λ r. return (with_sha copied.sha256 r))

    unfoldable pub copy_and_resize : Model → Op H (Vhd × String)
    copy_and_resize plan =
        copy_host_file k.backend k.files (record {
          destination_path = value_string plan.path;
          source_path = value_string plan.source_path;
          expected_sha256 = value_string plan.source_sha256;
          replace_while_mounted = false;
        })
        >>= refreshed plan

    -- The switch over the kinds of disks.
    unfoldable pub create_kind : ⦃l : Lower⦄ → ⦃c : Clock H⦄ → Model → Handled H
    create_kind plan =
        let kind = value_string plan.vhd_type in
        if kind == "fixed"
        then answering
            (new_vhd_fixed k.backend k.disks (record {
              path = value_string plan.path;
              size_bytes = value_int64 plan.size_bytes;
              block_size_bytes = optional_int64 plan.block_size_bytes;
            }))
            (create_reply plan)
        else if kind == "dynamic"
        then answering
            (new_vhd_dynamic k.backend k.disks (record {
              path = value_string plan.path;
              size_bytes = value_int64 plan.size_bytes;
              block_size_bytes = optional_int64 plan.block_size_bytes;
            }))
            (create_reply plan)
        else if kind == "differencing"
        then answering
            (new_vhd_differencing k.backend k.disks (record {
              path = value_string plan.path;
              parent_path = value_string plan.parent_path;
            }))
            (create_reply plan)
        else (λ s. some (s, reporting_at "vhd_type" "unknown vhd_type"))

  module _ ⦃l : Lower⦄ (r : Option (Tools H)) where
    unfoldable pub create : ⦃c : Clock H⦄ → Model → Handled H
    create plan = with_client r (λ k.
        if is_known plan.source_path
        then answering (copy_and_resize k plan)
            (copy_reply "Create hyperv_vhd failed (source_path mode)" plan)
        else create_kind k plan)

    unfoldable pub read : Model → Handled H
    read state = with_client r (λ k.
        answering (lift (get_vhd k.backend k.disks (value_string state.path))) (read_reply state))

    unfoldable pub update : Model → Model → Handled H
    update plan state = with_client r (λ k.
        if source_changed plan state
        then answering (copy_and_resize k plan)
            (copy_reply "Update hyperv_vhd failed (source_path mode)" plan)
        else if equal eq_ℤ plan.size_bytes state.size_bytes
        then (λ s. some (s, recording plan))
        else answering
            (lift (
              resize_vhd k.backend k.disks (value_string state.path) (value_int64 plan.size_bytes)))
            (resize_reply plan))

  unfoldable pub delete : Option (Tools H) → Model → Handled H
  delete r state =
      with_client r
        (λ k. answering (remove_vhd k.backend k.disks (value_string state.path)) delete_reply)

  -- ModifyPlan: the plan is `none` on a destroy, and the prior state on a create. The timeout of the
  -- read is the field of the resource. The reply's state is the plan.
  unfoldable pub modify_plan : ℕ → Option (Tools H) → Option Model → Option Model → Handled H
  modify_plan timeout r none prior s = some (s, silent)
  modify_plan timeout none (some plan) prior s = some (s, silent)
  modify_plan timeout (some k) (some plan) prior s =
      if is_known plan.source_path
      then answering
          (lift (stat_image_file k.backend k.files (some timeout) (value_string plan.source_path)))
          (stat_reply plan prior) s
      else some (s, silent)
