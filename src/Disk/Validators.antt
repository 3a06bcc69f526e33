-- ===== src/Disk/Validators.antt =====
-- The configuration validators of internal/resources/vhd/resource.go. The framework decodes the
-- configuration; each `validate` gets the model.
pub mod Shapes
use terraform_provider_hyper.Common.{
  String, List, [], ◌∷◌, ◌++◌, Bool, true, false, not, ◌&&◌, ◌||◌, ◌==◌, if◌then◌else◌,
}
use terraform_provider_hyper.Framework.{
  Attr, null, unknown, known, is_null, is_unknown, is_known, value_string, Diagnostic, Diagnostics,
  PathStep, attribute_error,
}
use terraform_provider_hyper.Types.Runes.{Unicode}
use terraform_provider_hyper.Types.Path.{string_semantic_equals}
use terraform_provider_hyper.Disk.Model.{Model}

abbrev pub report_at : Bool → String → String → Diagnostics
report_at b attr summary = if b then attribute_error (PathStep.name attr ∷ []) summary ∷ [] else []

abbrev pub is_differencing : Model → Bool
is_differencing data' = value_string data'.vhd_type == "differencing"

unfoldable pub validate_parent_path : Model → Diagnostics
validate_parent_path data' =
    let parent_set =
      not (is_null data'.parent_path) && not (value_string data'.parent_path == "") in
    if is_unknown data'.vhd_type || is_unknown data'.parent_path
    then []
    else if not (is_null data'.source_path)
    then []
    else if is_differencing data' && not parent_set
    then report_at true "parent_path" "parent_path is required for differencing VHDs"
    else report_at (not (is_differencing data') && parent_set) "parent_path"
        "parent_path is only valid for differencing VHDs"

unfoldable pub validate_size_bytes : Model → Diagnostics
validate_size_bytes data' =
    let size_set = not (is_null data'.size_bytes) in
    if is_unknown data'.vhd_type || is_unknown data'.size_bytes
    then []
    else if not (is_null data'.source_path)
    then []
    else if not (is_differencing data') && not size_set
    then report_at true "size_bytes" "size_bytes is required for fixed and dynamic VHDs"
    else report_at (is_differencing data' && size_set) "size_bytes"
        "size_bytes is not valid for differencing VHDs"

unfoldable pub validate_block_size_bytes : Model → Diagnostics
validate_block_size_bytes data' =
    if is_unknown data'.vhd_type || is_unknown data'.block_size_bytes
    then []
    else if not (is_differencing data')
    then []
    else if is_null data'.block_size_bytes
    then []
    else report_at true "block_size_bytes" "block_size_bytes is not valid for differencing VHDs"

module _ ⦃u : Unicode⦄ where
  unfoldable pub validate_source_path : Model → Diagnostics
  validate_source_path data' =
      if is_unknown data'.source_path || is_unknown data'.vhd_type
      then []
      else if is_null data'.source_path
      then report_at (is_null data'.vhd_type) "vhd_type" "vhd_type is required"
      else report_at (not (is_null data'.vhd_type)) "vhd_type"
          "vhd_type is not valid with source_path"
        ++ report_at (is_known data'.parent_path) "parent_path"
            "parent_path is not valid with source_path"
        ++ report_at (is_known data'.block_size_bytes) "block_size_bytes"
            "block_size_bytes is not valid with source_path"
        ++ report_at (is_known data'.path && string_semantic_equals data'.source_path data'.path)
            "source_path" "source_path and path must differ"

  -- ConfigValidators: the framework runs all of them and gathers what they report.
  unfoldable pub validate : Model → Diagnostics
  validate data' =
      validate_parent_path data'
      ++ validate_size_bytes data'
      ++ validate_block_size_bytes data'
      ++ validate_source_path data'
