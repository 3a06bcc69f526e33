-- ===== src/Disk/Tests.antt =====
-- Disks on the test host, and the theorems of internal/resources/vhd there.
use terraform_provider_hyper.Common.{[], false, some, ◌≡◌, ◌↔◌, ◌⊎◌, refl}
use terraform_provider_hyper.Common.Int.{pos}
use terraform_provider_hyper.Framework.{null, unknown, known}
use terraform_provider_hyper.Types.Runes.{ascii_tables}
use terraform_provider_hyper.Types.Path.{string_semantic_equals, normalize}
use terraform_provider_hyper.Hyperv.Images.{FileDecoder}
use terraform_provider_hyper.Hyperv.Tests.{Lab, lab, lab_clock, disks}
use terraform_provider_hyper.Disk.Model.{Model, Lower}
use terraform_provider_hyper.Disk.Crud.{Tools}
use terraform_provider_hyper.Disk.Validators.{
  validate, validate_parent_path, validate_size_bytes, validate_block_size_bytes,
  validate_source_path,
}
use terraform_provider_hyper.Disk.Validators.Shapes.{IsCopy, IsChild, IsOwn, validate-accepted_iff}

abbrev copy : Model
copy = record {
  id = unknown;
  path = known "C:/vhd/a.vhdx";
  vhd_type = null;
  size_bytes = known (pos 8192);
  parent_path = null;
  source_path = known "C:/vhd/base.vhdx";
  source_sha256 = unknown;
  block_size_bytes = null;
  file_size_bytes = unknown;
  format = unknown;
  attached = unknown;
}

abbrev onto_itself : Model
onto_itself = record copy { source_path = known "c:\\VHD\\a.vhdx" }

abbrev files : FileDecoder
files = record {
  file = λ out. some (record { path = "C:/vhd/a.vhdx"; size_bytes = pos 4096; sha256 = "ab" });
  equal_fold = λ s t. false;
}

abbrev tools : Tools Lab
tools = record { backend = lab; disks = disks; files = files }

instance as_is : Lower
as_is = record { to_lower = λ s. s }

copy_ok : validate ⦃u = ascii_tables⦄ copy ≡ []
unfolding validate validate_parent_path validate_size_bytes validate_block_size_bytes
    validate_source_path string_semantic_equals normalize
copy_ok = refl

onto_itself_rejected : ¬ (validate ⦃u = ascii_tables⦄ onto_itself ≡ [])
unfolding validate validate_parent_path validate_size_bytes validate_block_size_bytes
    validate_source_path string_semantic_equals normalize
onto_itself_rejected h = cc

validate-accepted_iff_example :
    (validate ⦃u = ascii_tables⦄ copy ≡ [])
    ↔ (IsCopy ⦃u = ascii_tables⦄ copy ⊎ IsChild copy ⊎ IsOwn copy)
validate-accepted_iff_example =
    validate-accepted_iff copy (refl, refl, refl, refl, refl) ⦃u = ascii_tables⦄
