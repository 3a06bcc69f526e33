-- ===== src/Hyperv/Errors.antt =====
-- internal/hyperv/errors.go: the sentinel errors, and the mapping of the scripts' error envelopes to
-- them. The JSON decoder is a parameter.
pub mod Laws
use terraform_provider_hyper.Connection.{TransportError, session_dropped}
use terraform_provider_hyper.Common.{
  String, Bool, true, false, Option, none, some, ◌==◌, if◌then◌else◌,
}

pub data Sentinel : Type 0 where
  not_found unavailable unauthorized invalid_parent_path checksum_mismatch decompression_failed
        content_drift ps_execution :
      Sentinel
  -- A sentinel of the connection layer, which the client passes on.
  transport : TransportError → Sentinel

-- An error that wraps a sentinel. Its text goes to the detail of a diagnostic only, and is left out.
pub record ClientError : Type 0 where
  pub sentinel : Option Sentinel

-- `errors.Is(err, ErrNotFound)`.
abbrev pub is_not_found : ClientError → Bool
is_not_found e = elim e.sentinel [ some not_found ↦ true | _ ↦ false ]

-- `errors.Is(err, connection.ErrSessionDropped)`.
abbrev pub is_session_dropped : ClientError → Bool
is_session_dropped e = elim e.sentinel [ some (transport session_dropped) ↦ true | _ ↦ false ]

pub record ErrorEnvelope : Type 0 where
  pub category : String
  pub fully_qualified_error_id : String

-- `strings.HasPrefix s p`.
abbrev pub has_prefix : String → String → Bool
has_prefix s String.[] = true
has_prefix String.[] (String.◌∷◌ d p) = false
has_prefix (String.◌∷◌ c s) (String.◌∷◌ d p) =
    let rest = has_prefix s p in
    if String.◌∷◌ c String.[] == String.◌∷◌ d String.[] then rest else false

unfoldable pub map_category : ErrorEnvelope → Sentinel
map_category env =
    if env.category == "ObjectNotFound"
    then not_found
    else if env.category == "ResourceUnavailable"
    then unavailable
    else if env.category == "PermissionDenied"
    then unauthorized
    else if env.category == "InvalidArgument"
    then if has_prefix env.fully_qualified_error_id "InvalidParameter,Microsoft.Vhd."
      then invalid_parent_path
      else ps_execution
    else if env.category == "InvalidData"
    then if has_prefix env.fully_qualified_error_id "ImageFileChecksumMismatch"
      then checksum_mismatch
      else if has_prefix env.fully_qualified_error_id "ImageFileContentDrift"
      then content_drift
      else ps_execution
    else ps_execution

-- Empty output and output that is no envelope are execution errors.
unfoldable pub parse_error_envelope : (String → Option ErrorEnvelope) → String → ClientError
unfolding map_category
parse_error_envelope unmarshal trimmed =
    if trimmed == "" then record { sentinel = some ps_execution } else elim (unmarshal trimmed) [
      | none ↦ record { sentinel = some ps_execution }
      | some env ↦ record { sentinel = some (map_category env) }
    ]
