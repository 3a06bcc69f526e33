-- ===== src/Vswitch/Crud.antt =====
-- Create, Read, Update and Delete of internal/resources/vswitch/resource.go, over the client's
-- operations. `none` is an operation that waits for a lock of its own.
pub mod Replies
pub mod Ends
use terraform_provider_hyper.Common.{
  Bool, true, false, not, ◌&&◌, Option, none, some, ◌==◌, if◌then◌else◌, String,
}
use terraform_provider_hyper.Framework.{value_string, value_bool}
use terraform_provider_hyper.Framework.Handlers.{Reply, reporting, recording, dropping, silent}
use terraform_provider_hyper.Hyperv.Client.{Result, ok, failed}
use terraform_provider_hyper.Hyperv.Errors.{is_not_found}
use terraform_provider_hyper.Hyperv.Clock.{Clock}
use terraform_provider_hyper.Hyperv.Script.{Backend}
use terraform_provider_hyper.Hyperv.Session.{Session, Op}
use terraform_provider_hyper.Hyperv.Switches.{
  VmSwitch, SwitchDecoder, new_vm_switch, get_vm_switch, set_vm_switch, remove_vm_switch,
}
use terraform_provider_hyper.Vswitch.Model.{
  Model, build_new_input, build_set_input, model_from_vm_switch,
}

-- The client that Configure stashed.
pub record Resource {ℓ} (H : Type ℓ) : Type ℓ where
  pub client : Option (Backend H × SwitchDecoder)

abbrev pub not_configured : Reply Model
not_configured = reporting "provider not configured"

-- What the plan or the prior state adds to a read.
abbrev pub hydrated : Model → VmSwitch → Model
hydrated prior sw =
    model_from_vm_switch sw prior.net_adapter_names prior.force_management_os_migration

unfoldable pub refusal : Model → Bool
refusal state =
    (value_string state.switch_type == "External")
    && value_bool state.allow_management_os
    && not (value_bool state.force_management_os_migration)

abbrev pub write_reply : String → Model → Result VmSwitch → Reply Model
write_reply summary prior (ok sw) = recording (hydrated prior sw)
write_reply summary prior (failed e) = reporting summary

abbrev pub read_reply : Model → Result VmSwitch → Reply Model
read_reply state (ok sw) = recording (hydrated state sw)
read_reply state (failed e) =
    if is_not_found e then dropping else reporting "Read hyperv_virtual_switch failed"

abbrev pub delete_reply : Result Unit → Reply Model
delete_reply (ok u) = silent
delete_reply (failed e) =
    if is_not_found e then silent else reporting "Delete hyperv_virtual_switch failed"

-- A handler.
abbrev pub Handled {ℓ} : Type ℓ → Type ℓ
Handled H = Session H → Option (Session H × Reply Model)

module _ {ℓ} {H : Type ℓ} where
  abbrev pub answering : {A : Type 0} → Op H A → (Result A → Reply Model) → Handled H
  answering op f s = elim (op s) [ none ↦ none | some (t, r) ↦ some (t, f r) ]

  abbrev pub with_client : Resource H → (Backend H → SwitchDecoder → Handled H) → Handled H
  with_client r f s = elim r.client [ none ↦ some (s, not_configured) | some (b, d) ↦ f b d s ]

  unfoldable pub read : Resource H → Model → Handled H
  read r state = with_client r (λ b d.
      answering (get_vm_switch b d (value_string state.name) (value_string state.nat_name))
        (read_reply state))

  unfoldable pub update : Resource H → Model → Model → Handled H
  update r plan state = with_client r (λ b d.
      answering (set_vm_switch b d (build_set_input plan state))
        (write_reply "Update hyperv_virtual_switch failed" plan))

  module _ ⦃c : Clock H⦄ where
    unfoldable pub create : Resource H → Model → Handled H
    create r plan = with_client r (λ b d.
        answering (new_vm_switch b d (build_new_input plan))
          (write_reply "Create hyperv_virtual_switch failed" plan))

    abbrev pub deletion : Model → Backend H → SwitchDecoder → Handled H
    deletion state b d =
        answering (remove_vm_switch b d (value_string state.name) (value_string state.nat_name))
          delete_reply

    unfoldable pub delete : Resource H → Model → Handled H
    unfolding refusal
    delete r state = with_client r (λ b d s.
        if refusal state
        then some
            (s, reporting "External switch destroy refused without force_management_os_migration")
        else deletion state b d s)
