-- ===== src/Hyperv/Images.antt =====
-- internal/hyperv/image_file.go: the operations on files that the host already holds. The decoder of
-- the scripts' output and `strings.EqualFold` are parameters. Downloads and uploads are left out.
use terraform_provider_hyper.Common.{
  ℕ, String, List, [], ◌∷◌, Bool, Option, none, some, ◌==◌, if◌then◌else◌,
}
use terraform_provider_hyper.Common.Int.{ℤ}
use terraform_provider_hyper.Hyperv.Client.{Result, ok, failed, Call}
use terraform_provider_hyper.Hyperv.Script.{
  Payload, Value, Backend, default_read_timeout, load, run_script, run_command,
}
use terraform_provider_hyper.Hyperv.Session.{Op, lift, holding_path}

pub record ImageFile : Type 0 where
  pub path : String
  pub size_bytes : ℤ
  pub sha256 : String

pub record CopyHostFileInput : Type 0 where
  pub destination_path : String
  pub source_path : String
  pub expected_sha256 : String
  pub replace_while_mounted : Bool

pub record RemoveImageFileInput : Type 0 where
  pub destination_path : String
  pub force : Bool
  pub expected_sha256 : String

pub record FileDecoder : Type 0 where
  pub file : List ℕ → Option ImageFile
  pub equal_fold : String → String → Bool

module _ {ℓ} {H : Type ℓ} (b : Backend H) (d : FileDecoder) where
  -- The timeout is the caller's.
  unfoldable pub stat_image_file : Option ℕ → String → Call H ImageFile
  stat_image_file timeout path =
      load b "image_file" "get"
        (λ body. run_script b timeout d.file body (("path", Value.text path) ∷ []))

  unfoldable pub get_image_file : String → Call H ImageFile
  unfolding stat_image_file
  get_image_file = stat_image_file (some default_read_timeout)

  abbrev matching : String → Result ImageFile → Option ImageFile
  matching expected (ok f) = if d.equal_fold f.sha256 expected then some f else none
  matching expected (failed e) = none

  unfoldable pub skip_if_destination_matches : String → String → H → H × Option ImageFile
  unfolding get_image_file
  skip_if_destination_matches path expected h =
      if expected == ""
      then (h, none)
      else let (h', r) = get_image_file path h in (h', matching expected r)

  abbrev copy_payload : CopyHostFileInput → Payload
  copy_payload in' =
      ("destination_path", Value.text in'.destination_path)
      ∷ ("source_path", Value.text in'.source_path)
      ∷ ("expected_sha256", Value.text in'.expected_sha256)
      ∷ ("replace_while_mounted", Value.flag in'.replace_while_mounted)
      ∷ ("source_mode", Value.text "source_path")
      ∷ []

  -- The copy, while the lock of the destination is held.
  unfoldable pub run_copy : CopyHostFileInput → Call H ImageFile
  unfolding skip_if_destination_matches
  run_copy in' h =
      let (h', existing) = skip_if_destination_matches in'.destination_path in'.expected_sha256 h in
      elim existing [
        | some f ↦ (h', ok f)
        | none ↦
            load b "image_file" "new" (λ body. run_script b none d.file body (copy_payload in')) h'
      ]

  unfoldable pub copy_host_file : CopyHostFileInput → Op H ImageFile
  unfolding holding_path
  copy_host_file in' = holding_path in'.destination_path (lift (run_copy in'))

  unfoldable pub new_image_file_from_host_path : String → Call H ImageFile
  new_image_file_from_host_path path = load b "image_file" "new" (λ body.
      run_script b none d.file body
        (("destination_path", Value.text path) ∷ ("source_mode", Value.text "host_path") ∷ []))

  unfoldable pub remove_image_file : RemoveImageFileInput → Op H (List ℕ)
  unfolding holding_path
  remove_image_file in' = holding_path in'.destination_path (
      lift (
        load b "image_file" "remove" (λ body. run_command b none body (
          ("path", Value.text in'.destination_path)
          ∷ ("force", Value.flag in'.force)
          ∷ ("expected_sha256", Value.text in'.expected_sha256)
          ∷ []))))
