-- ===== src/Hyperv/Switches.antt =====
-- internal/hyperv/vswitch.go and the switch DTOs of types.go: the client's operations on virtual
-- switches. The decoders of the scripts' output are parameters.
pub mod Locks
pub mod Remove
pub mod Destroy
use terraform_provider_hyper.Common.{
  ℕ, String, List, [], ◌∷◌, ◌++◌, Bool, true, false, not, ◌&&◌, Option, none, some, ◌==◌,
  if◌then◌else◌,
}
use terraform_provider_hyper.Hyperv.Client.{Result, ok, failed, Call}
use terraform_provider_hyper.Hyperv.Errors.{ClientError, is_not_found, is_session_dropped}
use terraform_provider_hyper.Hyperv.Clock.{Clock}
use terraform_provider_hyper.Hyperv.Script.{
  Payload, Value, Backend, plain, load, run_script, run_read_script, run_command,
}
use terraform_provider_hyper.Hyperv.Session.{
  Session, Op, Hold, lift, return, ◌>>=◌, holding_nat_if, with_nat_lock,
}
use terraform_provider_hyper.Hyperv.Verify.{Verdict, verify, verify_attempts}

pub record VmSwitch : Type 0 where
  pub name : String
  pub switch_type : String
  pub allow_management_os : Bool
  pub net_adapter_interface_description : String
  pub notes : String
  pub id : String
  pub nat_name : String
  pub nat_internal_address_prefix : String
  pub nat_host_address : String

pub record NewVmSwitchInput : Type 0 where
  pub name : String
  pub switch_type : String
  pub net_adapter_names : List String
  pub allow_management_os : Option Bool
  pub notes : Option String
  pub nat_name : String
  pub nat_internal_address_prefix : String
  pub nat_host_address : String

pub record SetVmSwitchInput : Type 0 where
  pub name : String
  pub switch_type : String
  pub net_adapter_names : List String
  pub allow_management_os : Option Bool
  pub notes : Option String
  pub nat_name : String

pub record SwitchDecoder : Type 0 where
  pub switch : List ℕ → Option VmSwitch
  pub switch_names : List ℕ → Option (List String)

-- `omitempty` on a string, a slice and the pointers.
abbrev unless_empty : String → String → Payload
unless_empty key s = if s == "" then [] else (key, Value.text s) ∷ []

abbrev unless_none : String → List String → Payload
unless_none key [] = []
unless_none key (s ∷ ss) = (key, Value.texts (s ∷ ss)) ∷ []

abbrev optional_flag : String → Option Bool → Payload
optional_flag key none = []
optional_flag key (some b) = (key, Value.flag b) ∷ []

abbrev optional_text : String → Option String → Payload
optional_text key none = []
optional_text key (some s) = (key, Value.text s) ∷ []

abbrev pub new_payload : NewVmSwitchInput → Payload
new_payload in' =
    ("name", Value.text in'.name)
      ∷ ("switch_type", Value.text in'.switch_type)
      ∷ unless_none "net_adapter_names" in'.net_adapter_names
    ++ optional_flag "allow_management_os" in'.allow_management_os
    ++ optional_text "notes" in'.notes
    ++ unless_empty "nat_name" in'.nat_name
    ++ unless_empty "nat_internal_address_prefix" in'.nat_internal_address_prefix
    ++ unless_empty "nat_host_address" in'.nat_host_address

abbrev pub set_payload : SetVmSwitchInput → Payload
set_payload in' =
    ("name", Value.text in'.name) ∷ unless_empty "switch_type" in'.switch_type
    ++ unless_none "net_adapter_names" in'.net_adapter_names
    ++ optional_flag "allow_management_os" in'.allow_management_os
    ++ optional_text "notes" in'.notes
    ++ unless_empty "nat_name" in'.nat_name

abbrev pub name_payload : String → String → Payload
name_payload name nat_name = ("name", Value.text name) ∷ unless_empty "nat_name" nat_name

-- How the three loops judge a read: after a create, after the management OS was taken off the switch,
-- and after a remove.
unfoldable pub judge_new : Result VmSwitch → Verdict VmSwitch
judge_new (ok sw) = Verdict.confirmed sw
judge_new (failed e) = if is_not_found e then Verdict.refuted else Verdict.unclear

unfoldable pub judge_disabled : Result VmSwitch → Verdict Unit
judge_disabled (ok sw) = if sw.allow_management_os then Verdict.refuted else Verdict.confirmed tt
judge_disabled (failed e) = if is_not_found e then Verdict.confirmed tt else Verdict.unclear

unfoldable pub judge_removed : Result VmSwitch → Verdict Unit
judge_removed (ok sw) = Verdict.refuted
judge_removed (failed e) = if is_not_found e then Verdict.confirmed tt else Verdict.unclear

module _ {ℓ} {H : Type ℓ} (b : Backend H) (d : SwitchDecoder) where
  unfoldable pub get_vm_switch : String → String → Op H VmSwitch
  get_vm_switch name nat_name = holding_nat_if Hold.reading nat_name (
      lift (
        load b "vswitch" "get"
          (λ body. run_read_script b d.switch body (name_payload name nat_name))))

  unfoldable pub set_vm_switch : SetVmSwitchInput → Op H VmSwitch
  set_vm_switch in' =
      holding_nat_if Hold.writing in'.nat_name
        (lift (load b "vswitch" "set" (λ body. run_script b none d.switch body (set_payload in'))))

  unfoldable pub list_vm_switches_by_prefix : String → Call H (List String)
  list_vm_switches_by_prefix prefix =
      load b "vswitch" "list"
        (λ body. run_read_script b d.switch_names body (("name_prefix", Value.text prefix) ∷ []))

  -- A script that is loaded before the lock is taken.
  unfoldable pub load_first : {A : Type 0} → String → (List ℕ → Op H A) → Op H A
  load_first verb k s = elim (b.scripts.script "vswitch" verb) [
    | none ↦ some (s, failed plain)
    | some body ↦ k body s
  ]

  unfoldable pub run_new : NewVmSwitchInput → Op H VmSwitch
  run_new in' = load_first "new" (λ body.
      with_nat_lock in'.nat_name (lift (run_script b none d.switch body (new_payload in'))))

  abbrev discarded : Result (List ℕ) → Result Unit
  discarded (ok out) = ok tt
  discarded (failed e) = failed e

  unfoldable pub run_remove : String → String → Op H Unit
  run_remove name nat_name = load_first "remove" (λ body. with_nat_lock nat_name (
      lift (λ h.
        let (h', r) = run_command b none body (name_payload name nat_name) h in (h', discarded r))))

  module _ ⦃c : Clock H⦄ where
    unfoldable pub recover_vm_switch_new_on_drop : String → String → ClientError → Op H VmSwitch
    recover_vm_switch_new_on_drop name nat_name original =
        verify (get_vm_switch name nat_name) judge_new original verify_attempts

    unfoldable pub verify_vm_switch_allow_management_os_disabled : String → ClientError → Op H Unit
    verify_vm_switch_allow_management_os_disabled name original =
        verify (get_vm_switch name "") judge_disabled original verify_attempts

    unfoldable pub recover_vm_switch_remove_on_drop : String → String → ClientError → Op H Unit
    recover_vm_switch_remove_on_drop name nat_name original =
        verify (get_vm_switch name nat_name) judge_removed original verify_attempts

    -- A script's answer, unless its failure is a dropped connection: then what the recovery finds.
    abbrev pub unless_dropped : {A : Type 0} → (ClientError → Op H A) → Result A → Op H A
    unless_dropped recover (ok a) s = some (s, ok a)
    unless_dropped recover (failed e) s =
        if is_session_dropped e then recover e s else some (s, failed e)

    unfoldable pub new_vm_switch : NewVmSwitchInput → Op H VmSwitch
    new_vm_switch in' =
        run_new in' >>= unless_dropped (recover_vm_switch_new_on_drop in'.name in'.nat_name)

    abbrev pub disable_input : String → SetVmSwitchInput
    disable_input name = record {
      name = name;
      switch_type = "External";
      net_adapter_names = [];
      allow_management_os = some false;
      notes = none;
      nat_name = "";
    }

    abbrev pub prepared : String → Result VmSwitch → Op H Unit
    prepared name (ok sw) s = some (s, ok tt)
    prepared name (failed e) s =
        if is_session_dropped e
        then verify_vm_switch_allow_management_os_disabled name e s
        else some (s, failed e)

    unfoldable pub prepare_vm_switch_external_for_remove : String → Op H Unit
    prepare_vm_switch_external_for_remove name =
        set_vm_switch (disable_input name) >>= prepared name

    -- The removal itself, once the switch may go.
    unfoldable pub removal : String → String → Op H Unit
    removal name nat_name =
        run_remove name nat_name >>= unless_dropped (recover_vm_switch_remove_on_drop name nat_name)

    abbrev pub if_prepared : Op H Unit → Result Unit → Op H Unit
    if_prepared next (ok u) = next
    if_prepared next (failed e) = return (failed e)

    abbrev pub is_shared_external : VmSwitch → Bool
    is_shared_external sw = (sw.switch_type == "External") && sw.allow_management_os

    unfoldable pub remove_found : String → String → Result VmSwitch → Op H Unit
    remove_found name nat_name (failed e) = return (if is_not_found e then ok tt else failed e)
    remove_found name nat_name (ok current) =
        if is_shared_external current
        then prepare_vm_switch_external_for_remove name >>= if_prepared (removal name nat_name)
        else removal name nat_name

    unfoldable pub remove_vm_switch : String → String → Op H Unit
    unfolding remove_found
    remove_vm_switch name nat_name = get_vm_switch name nat_name >>= remove_found name nat_name
