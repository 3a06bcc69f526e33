-- ===== src/Hyperv/Disks.antt =====
-- internal/hyperv/vhd.go and the disk DTOs of types.go: the client's operations on virtual hard disks.
-- The decoders of the scripts' output are parameters.
pub mod Recovery
use terraform_provider_hyper.Common.{
  ℕ, String, List, [], ◌∷◌, ◌++◌, Bool, true, false, not, ◌&&◌, Option, none, some, ◌==◌,
  if◌then◌else◌, ◌≡◌,
}
use terraform_provider_hyper.Common.Int.{ℤ, pos, eq_ℤ, ltb_ℤ}
use terraform_provider_hyper.Hyperv.Client.{Result, ok, failed, Call}
use terraform_provider_hyper.Hyperv.Errors.{ClientError, is_not_found, is_session_dropped}
use terraform_provider_hyper.Hyperv.Clock.{Clock}
use terraform_provider_hyper.Hyperv.Script.{
  Payload, Value, Backend, load, run_script, run_read_script, run_command,
}
use terraform_provider_hyper.Hyperv.Session.{Session, Op, lift, holding_path}
use terraform_provider_hyper.Hyperv.Verify.{Verdict, verify, verify_attempts}

pub record Vhd : Type 0 where
  pub path : String
  pub vhd_type : String
  pub size_bytes : ℤ
  pub file_size_bytes : ℤ
  pub block_size_bytes : ℤ
  pub parent_path : String
  pub format : String
  pub attached : Bool

pub record NewVhdFixedInput : Type 0 where
  pub path : String
  pub size_bytes : ℤ
  pub block_size_bytes : Option ℤ

pub record NewVhdDynamicInput : Type 0 where
  pub path : String
  pub size_bytes : ℤ
  pub block_size_bytes : Option ℤ

pub record NewVhdDifferencingInput : Type 0 where
  pub path : String
  pub parent_path : String

-- A size of 0 says that the size is not to be looked at.
pub record ExpectedVhd : Type 0 where
  pub path : String
  pub vhd_type : String
  pub size_bytes : ℤ

-- Of the JSON decoder.
pub record DiskDecoder : Type 0 where
  pub vhd : List ℕ → Option Vhd
  pub vhd_paths : List ℕ → Option (List String)

-- `omitempty` on a pointer: the key is left out when the pointer is nil.
abbrev optional : String → Option ℤ → Payload
optional key none = []
optional key (some z) = (key, Value.number z) ∷ []

abbrev pub fixed_payload : NewVhdFixedInput → Payload
fixed_payload in' =
    ("path", Value.text in'.path)
      ∷ ("size_bytes", Value.number in'.size_bytes)
      ∷ optional "block_size_bytes" in'.block_size_bytes
    ++ ("vhd_type", Value.text "fixed") ∷ []

abbrev pub dynamic_payload : NewVhdDynamicInput → Payload
dynamic_payload in' =
    ("path", Value.text in'.path)
      ∷ ("size_bytes", Value.number in'.size_bytes)
      ∷ optional "block_size_bytes" in'.block_size_bytes
    ++ ("vhd_type", Value.text "dynamic") ∷ []

abbrev pub differencing_payload : NewVhdDifferencingInput → Payload
differencing_payload in' =
    ("path", Value.text in'.path)
    ∷ ("parent_path", Value.text in'.parent_path)
    ∷ ("vhd_type", Value.text "differencing")
    ∷ []

-- How the recovery judges a read.
unfoldable pub judge_vhd : ExpectedVhd → Result Vhd → Verdict Vhd
judge_vhd expected (ok v) =
    if not (v.vhd_type == expected.vhd_type)
    then Verdict.refuted
    else if ltb_ℤ (pos 0) expected.size_bytes && not (eq_ℤ v.size_bytes expected.size_bytes)
    then Verdict.refuted
    else Verdict.confirmed v
judge_vhd expected (failed e) = if is_not_found e then Verdict.refuted else Verdict.unclear

module _ {ℓ} {H : Type ℓ} (b : Backend H) (d : DiskDecoder) where
  unfoldable pub get_vhd : String → Call H Vhd
  get_vhd path =
      load b "vhd" "get" (λ body. run_read_script b d.vhd body (("path", Value.text path) ∷ []))

  unfoldable pub resize_vhd : String → ℤ → Call H Vhd
  resize_vhd path size = load b "vhd" "set" (λ body.
      run_script b none d.vhd body
        (("path", Value.text path) ∷ ("size_bytes", Value.number size) ∷ []))

  unfoldable pub remove_vhd : String → Op H (List ℕ)
  unfolding holding_path
  remove_vhd path = holding_path path (
      lift
        (load b "vhd" "remove" (λ body. run_command b none body (("path", Value.text path) ∷ []))))

  unfoldable pub list_vhds_by_prefix : String → String → Call H (List String)
  list_vhds_by_prefix parent_dir prefix = load b "vhd" "list" (λ body.
      run_read_script b d.vhd_paths body
        (("parent_dir", Value.text parent_dir) ∷ ("name_prefix", Value.text prefix) ∷ []))

  module _ ⦃c : Clock H⦄ where
    unfoldable pub recover_vhd_new_on_drop : ExpectedVhd → ClientError → Op H Vhd
    recover_vhd_new_on_drop expected original =
        verify (lift (get_vhd expected.path)) (judge_vhd expected) original verify_attempts

    -- What the three create operations do with the answer of the script.
    abbrev pub unless_dropped : ExpectedVhd → Result Vhd → Op H Vhd
    unless_dropped expected (ok v) s = some (s, ok v)
    unless_dropped expected (failed e) s =
        if is_session_dropped e then recover_vhd_new_on_drop expected e s else some (s, failed e)

    abbrev pub run_new : Payload → Call H Vhd
    run_new payload = load b "vhd" "new" (λ body. run_script b none d.vhd body payload)

    abbrev pub new_vhd : Payload → ExpectedVhd → Op H Vhd
    new_vhd payload expected s =
        let (h, r) = run_new payload s.host in unless_dropped expected r (record s { host = h })

    unfoldable pub new_vhd_fixed : NewVhdFixedInput → Op H Vhd
    new_vhd_fixed in' =
        new_vhd (fixed_payload in')
          (record { path = in'.path; vhd_type = "Fixed"; size_bytes = in'.size_bytes })

    unfoldable pub new_vhd_dynamic : NewVhdDynamicInput → Op H Vhd
    new_vhd_dynamic in' =
        new_vhd (dynamic_payload in')
          (record { path = in'.path; vhd_type = "Dynamic"; size_bytes = in'.size_bytes })

    unfoldable pub new_vhd_differencing : NewVhdDifferencingInput → Op H Vhd
    new_vhd_differencing in' =
        new_vhd (differencing_payload in')
          (record { path = in'.path; vhd_type = "Differencing"; size_bytes = pos 0 })
