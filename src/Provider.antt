-- ===== src/Provider.antt =====
-- internal/provider: the configuration of the provider. This file has provider_model.go, and what
-- backend_select.go resolves from an attribute, the environment and a fallback.
pub mod Checked
pub mod Backends
pub mod Connected
pub mod Options
pub mod Accepted
mod Tests
use terraform_provider_hyper.Common.{
  String, Bool, true, false, not, ◌&&◌, ◌||◌, Option, none, some, ◌==◌, if◌then◌else◌,
}
use terraform_provider_hyper.Common.Int.{ℤ, pos}
use terraform_provider_hyper.Framework.{Attr, null, unknown, known}
use terraform_provider_hyper.Connection.{Machine}

pub record LocalConfig : Type 0 where
  pub pwsh_path : Attr String

pub record SshConfig : Type 0 where
  pub private_key : Attr String
  pub private_key_path : Attr String
  pub passphrase : Attr String
  pub known_hosts_path : Attr String

pub record KerberosConfig : Type 0 where
  pub realm : Attr String
  pub spn : Attr String
  pub config_path : Attr String
  pub ccache_path : Attr String

pub record WinRmConfig : Type 0 where
  pub use_https : Attr Bool
  pub insecure : Attr Bool
  pub auth : Attr String
  pub cacert : Attr String
  pub max_shells : Attr ℤ
  pub kerberos : Option KerberosConfig

pub record ProviderModel : Type 0 where
  pub backend : Attr String
  pub host : Attr String
  pub port : Attr ℤ
  pub username : Attr String
  pub password : Attr String
  pub timeout : Attr String
  pub skip_auth_probe : Attr Bool
  pub local : Option LocalConfig
  pub ssh : Option SshConfig
  pub winrm : Option WinRmConfig

module _ ⦃k : Machine⦄ where
  abbrev env_or : String → String → String
  env_or env_var fallback = if k.getenv env_var == "" then fallback else k.getenv env_var

  unfoldable pub resolve_string : Attr String → String → String → String
  resolve_string null env_var fallback = env_or env_var fallback
  resolve_string unknown env_var fallback = env_or env_var fallback
  resolve_string (known s) env_var fallback = if s == "" then env_or env_var fallback else s

  -- `none` is the error of an environment variable that is no integer.
  abbrev env_int : String → ℤ → Option ℤ
  env_int env_var fallback =
      if k.getenv env_var == "" then some fallback else k.atoi (k.getenv env_var)

  unfoldable pub resolve_int : Attr ℤ → String → ℤ → Option ℤ
  resolve_int null env_var fallback = env_int env_var fallback
  resolve_int unknown env_var fallback = env_int env_var fallback
  resolve_int (known n) env_var fallback = some n

  abbrev truth : String → Option Bool
  truth s =
      if (s == "true") || (s == "1") || (s == "t") || (s == "yes")
      then some true
      else if (s == "false") || (s == "0") || (s == "f") || (s == "no")
      then some false
      else none

  abbrev env_bool : String → Bool → Option Bool
  env_bool env_var fallback =
      if k.getenv env_var == "" then some fallback else truth (k.to_lower (k.getenv env_var))

  unfoldable pub resolve_bool : Attr Bool → String → Bool → Option Bool
  resolve_bool null env_var fallback = env_bool env_var fallback
  resolve_bool unknown env_var fallback = env_bool env_var fallback
  resolve_bool (known b) env_var fallback = some b

  unfoldable pub resolve_duration : Attr String → String → Option ℤ
  unfolding resolve_string
  resolve_duration attr env_var =
      let raw = resolve_string attr env_var "" in
      if raw == "" then some (pos 0) else k.parse_duration raw
