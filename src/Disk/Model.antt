-- ===== src/Disk/Model.antt =====
-- internal/resources/vhd/model.go, and modelFromVHD and optionalInt64 of resource.go. `strings.ToLower`
-- is a parameter.
use terraform_provider_hyper.Common.{String, Bool, Option, none, some, ◌==◌, if◌then◌else◌}
use terraform_provider_hyper.Common.Int.{ℤ}
use terraform_provider_hyper.Framework.{Attr, null, unknown, known}
use terraform_provider_hyper.Hyperv.Disks.{Vhd}

pub record Model : Type 0 where
  pub id : Attr String
  pub path : Attr String
  pub vhd_type : Attr String
  pub size_bytes : Attr ℤ
  pub parent_path : Attr String
  pub source_path : Attr String
  pub source_sha256 : Attr String
  pub block_size_bytes : Attr ℤ
  pub file_size_bytes : Attr ℤ
  pub format : Attr String
  pub attached : Attr Bool

pub record Lower : Type 0 where
  pub to_lower : String → String

abbrev pub optional_int64 : Attr ℤ → Option ℤ
optional_int64 null = none
optional_int64 unknown = none
optional_int64 (known z) = some z

abbrev pub parent_path_or_null : String → Attr String
parent_path_or_null p = if p == "" then null else known p

abbrev pub source_sha : Attr String → Attr String → Attr String
source_sha null sha = null
source_sha unknown sha = null
source_sha (known p) null = null
source_sha (known p) unknown = null
source_sha (known p) (known sha) = known sha

abbrev pub source_or_null : Attr String → Attr String
source_or_null null = null
source_or_null unknown = null
source_or_null (known p) = known p

unfoldable pub model_from_vhd : ⦃l : Lower⦄ → Vhd → Model → Model
model_from_vhd ⦃l⦄ v intent = record {
  id = known v.path;
  path = known v.path;
  vhd_type = known (l.to_lower v.vhd_type);
  size_bytes = known v.size_bytes;
  parent_path = parent_path_or_null v.parent_path;
  source_path = source_or_null intent.source_path;
  source_sha256 = source_sha intent.source_path intent.source_sha256;
  block_size_bytes = known v.block_size_bytes;
  file_size_bytes = known v.file_size_bytes;
  format = known v.format;
  attached = known v.attached;
}
