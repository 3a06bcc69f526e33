-- ===== src/Firewall.antt =====
-- internal/resources/internal/firewallrule/firewallrule.go: the nested attribute firewall_rule. An object
-- that does not convert to the nested model carries what the framework's conversion makes of it: what
-- it leaves in its target, and its error.
use terraform_provider_hyper.Common.{String, [], ◌∷◌, Bool, true, ◌==◌, if◌then◌else◌}
use terraform_provider_hyper.Framework.{
  Attr, null, unknown, known, value_or, value_string, Diagnostics, plain_error,
}

abbrev pub default_enabled : Bool
default_enabled = true

abbrev pub default_profile : String
default_profile = "Any"

-- Model.
pub record Rule : Type 0 where
  pub enabled : Attr Bool
  pub name : Attr String
  pub profile : Attr String

pub record Settings : Type 0 where
  pub enabled : Bool
  pub name : String
  pub profile : String

pub data Object : Type 0 where
  readable : Rule → Object
  malformed : Rule → String → Object

abbrev pub no_rule : Rule
no_rule = record { enabled = null; name = null; profile = null }

unfoldable pub unpack : Attr Object → Rule × Diagnostics
unpack null = (no_rule, [])
unpack unknown = (no_rule, [])
unpack (known (readable fw)) = (fw, [])
unpack (known (malformed fw summary)) = (fw, plain_error summary ∷ [])

unfoldable pub name_or : Rule → String → String
name_or m default_name = let name = value_string m.name in if name == "" then default_name else name

unfoldable pub resolve : Rule → String → Settings
resolve m name = record {
  enabled = value_or default_enabled m.enabled;
  name = name;
  profile = value_or default_profile m.profile;
}

unfoldable pub import_object : String → Attr Object
import_object name = known (
    readable (record {
      enabled = known default_enabled;
      name = known name;
      profile = known default_profile;
    }))

-- A rule that the host does not have has an empty profile.
unfoldable pub state_object : Bool → String → String → Attr Object
state_object present name host_profile = known (
    readable (record {
      enabled = known present;
      name = known name;
      profile = known (if host_profile == "" then default_profile else host_profile);
    }))
