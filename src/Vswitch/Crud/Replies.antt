-- ===== src/Vswitch/Crud/Replies.antt =====
-- What the replies of the handlers of hyperv_virtual_switch say of the client's answers.
use terraform_provider_hyper.Common.{
  String, true, false, ◌≡◌, ◌↔◌, refl, [], ◌∷◌, Bool, not, ◌&&◌, ◌==◌, ◌≢◌, eq_iff, arith,
}
use terraform_provider_hyper.Framework.{
  Diagnostic, Severity, value_bool, Attr, null, unknown, known, value_string,
}
use terraform_provider_hyper.Framework.Handlers.{Action, Reply, recording, dropping, silent}
use terraform_provider_hyper.Hyperv.Client.{Result, ok, failed}
use terraform_provider_hyper.Hyperv.Errors.{is_not_found}
use terraform_provider_hyper.Hyperv.Switches.{VmSwitch}
use terraform_provider_hyper.Vswitch.Model.{Model}
use terraform_provider_hyper.Vswitch.Crud.{hydrated, refusal, write_reply, read_reply, delete_reply}

-- One error, and the state is as it was.
abbrev pub IsRefused : Reply Model → Type 0
IsRefused y =
    (d : Diagnostic) × (y ≡ record { state = Action.kept; diagnostics = d ∷ [] })
    × (d.severity ≡ Severity.error)

-- The reply to a Create or an Update: the switch that was read is recorded, with what the plan adds, or
-- the failure is reported.
abbrev pub WritesBy : Model → Result VmSwitch → Reply Model → Type 0
WritesBy plan (ok sw) y = y ≡ recording (hydrated plan sw)
WritesBy plan (failed e) y = IsRefused y

-- To a Read: a switch that does not exist is dropped.
abbrev pub ReadsBy : Model → Result VmSwitch → Reply Model → Type 0
ReadsBy state (ok sw) y = y ≡ recording (hydrated state sw)
ReadsBy state (failed e) y =
    (is_not_found e ≡ true → y ≡ dropping) × (is_not_found e ≡ false → IsRefused y)

-- To a Delete: a switch that does not exist is as good as removed.
abbrev pub DeletesBy : Result Unit → Reply Model → Type 0
DeletesBy (ok u) y = y ≡ silent
DeletesBy (failed e) y =
    (is_not_found e ≡ true → y ≡ silent) × (is_not_found e ≡ false → IsRefused y)

pub write_reply-WritesBy :
    (summary : String) (plan : Model) (r : Result VmSwitch)
    → WritesBy plan r (write_reply summary plan r)
write_reply-WritesBy summary plan (ok sw) = refl
write_reply-WritesBy summary plan (failed e) = (_, refl, refl)

pub read_reply-ReadsBy :
    (state : Model) (r : Result VmSwitch) → ReadsBy state r (read_reply state r)
read_reply-ReadsBy state (ok sw) = refl
read_reply-ReadsBy state (failed e) = ((λ q. rw q refl), (λ q. rw q (_, refl, refl)))

pub delete_reply-DeletesBy : (r : Result Unit) → DeletesBy r (delete_reply r)
delete_reply-DeletesBy (ok u) = refl
delete_reply-DeletesBy (failed e) = ((λ q. rw q refl), (λ q. rw q (_, refl, refl)))

-- The recorded switch is External and shared with the host's own system, and its migration is not forced.
abbrev pub IsShared : Model → Type 0
IsShared state =
    (state.switch_type ≡ known "External")
    × (state.allow_management_os ≡ known true)
    × (state.force_management_os_migration ≢ known true)

pub external_iff :
    (a : Attr String) → ((value_string a == "External") ≡ true) ↔ (a ≡ known "External")
external_iff null = ((λ h. absurd (cc)), (λ h. absurd (cc)))
external_iff unknown = ((λ h. absurd (cc)), (λ h. absurd (cc)))
external_iff (known s) = ground (arith, eq_iff s "External")

pub flag_iff : (a : Attr Bool) → (value_bool a ≡ true) ↔ (a ≡ known true)
flag_iff null = ((λ h. absurd (cc)), (λ h. absurd (cc)))
flag_iff unknown = ((λ h. absurd (cc)), (λ h. absurd (cc)))
flag_iff (known b) = ground arith

pub all_but_lem :
    (a b c : Bool) → ((a && b && not c) ≡ true) ↔ ((a ≡ true) × (b ≡ true) × (c ≢ true))
all_but_lem a b c = ground arith

pub refusal_iff : (state : Model) → (refusal state ≡ true) ↔ IsShared state
unfolding refusal
refusal_iff state =
    let both =
      all_but_lem (value_string state.switch_type == "External")
        (value_bool state.allow_management_os) (value_bool state.force_management_os_migration) in
    let external = external_iff state.switch_type in
    let allowed = flag_iff state.allow_management_os in
    let forced = flag_iff state.force_management_os_migration in
    (
      (λ h. let (a, b, c) = both.0 h in (external.0 a, allowed.0 b, (λ f. c (forced.1 f)))),
      (λ (a, b, c). both.1 (external.1 a, allowed.1 b, (λ f. c (forced.0 f)))),
    )
