-- ===== src/Disk/Crud/Ends.antt =====
-- How the handlers of hyperv_vhd end.
use terraform_provider_hyper.Disk.Crud.Locks.{EndsBy}
use terraform_provider_hyper.Disk.Crud.Replies.{PlansBy}
use terraform_provider_hyper.Common.{ℕ, false, Option, some, ◌≡◌, true}
use terraform_provider_hyper.Framework.{value_string, is_known}
use terraform_provider_hyper.Framework.Handlers.{silent}
use terraform_provider_hyper.Hyperv.Clock.{Clock}
use terraform_provider_hyper.Hyperv.Session.{Session, lift}
use terraform_provider_hyper.Hyperv.Images.{stat_image_file}
use terraform_provider_hyper.Disk.Model.{Model, Lower}
use terraform_provider_hyper.Disk.Crud.{Tools, modify_plan}

module _ {ℓ} {H : Type ℓ} ⦃l : Lower⦄ ⦃c : Clock H⦄ (k : Tools H) (s : Session H) where
  -- Without a known source the plan is left alone.
  abbrev pub PlanEnds : ℕ → Model → Option Model → Type ℓ
  PlanEnds timeout plan prior =
      let out = modify_plan timeout (some k) (some plan) prior s in
      (is_known plan.source_path ≡ false → out ≡ some (s, silent))
      × (is_known plan.source_path ≡ true
          → EndsBy
              (lift
                (stat_image_file k.backend k.files (some timeout) (value_string plan.source_path)))
              (PlansBy plan prior) s out)
