-- ===== src/Provider/Tests.antt =====
-- A bare machine and a WinRM and an SSH configuration, and the theorems of internal/provider there.
use terraform_provider_hyper.Common.{String, true, false, none, some, ◌≡◌, ◌≢◌, ◌↔◌, refl}
use terraform_provider_hyper.Common.Int.{pos, ◌≤ℤ◌}
use terraform_provider_hyper.Framework.{has_error, null, known}
use terraform_provider_hyper.Connection.{Machine}
use terraform_provider_hyper.Connection.Ssh.{SshOptions}
use terraform_provider_hyper.Connection.Winrm.{WinRmOptions, new_winrm, or_text}
use terraform_provider_hyper.Provider.{
  ProviderModel, resolve_string, resolve_int, resolve_bool, resolve_duration,
}
use terraform_provider_hyper.Provider.Backends.{
  Connection, new_connection, ssh_options, winrm_options,
}
use terraform_provider_hyper.Provider.Options.{IsPort}
use terraform_provider_hyper.Provider.Connected.{new_connection-connected_iff}
use terraform_provider_hyper.Provider.Accepted.{
  IsKnownAuth, winrm_options-accepted_iff, ssh_options_bounds,
}

-- Nothing in the environment, no files.
instance bare : Machine
bare = record {
  getenv = λ s. "";
  home = none;
  join = λ s ss. s;
  exists = λ s. false;
  read_file = λ s. none;
  look_path = λ s. none;
  parse_key = λ s. false;
  parse_key_with = λ s t. false;
  known_hosts = λ s. true;
  atoi = λ s. none;
  parse_duration = λ s. none;
  to_lower = λ s. s;
  join_host_port = λ s n. s;
  is_ip = λ s. false;
}

abbrev config : String → ProviderModel
config backend = record {
  backend = known backend;
  host = known "hv01.lab";
  port = null;
  username = known "admin";
  password = known "secret";
  timeout = null;
  skip_auth_probe = null;
  local = none;
  ssh = none;
  winrm = none;
}

abbrev options : WinRmOptions
options = record {
  host = "hv01.lab";
  port = pos 5986;
  username = "admin";
  password = "secret";
  use_https = true;
  insecure = false;
  auth = "ntlm";
  cacert = "";
  krb_realm = "";
  krb_spn = "";
  krb_config_path = "";
  krb_ccache_path = "";
  timeout = pos 0;
  command_timeout = pos 0;
  pwsh_path = "";
  max_shells = pos 0;
}

abbrev ssh : SshOptions
ssh = record {
  host = "hv01.lab";
  port = pos 22;
  username = "admin";
  private_key = "";
  private_key_path = "";
  passphrase = "";
  password = "secret";
  known_hosts_path = "";
  timeout = pos 0;
  command_timeout = pos 0;
  keepalive_interval = pos 0;
  pwsh_path = "";
  max_concurrent_sessions = pos 0;
}

winrm_yields : (winrm_options (config "winrm")).value ≡ some options
unfolding winrm_options resolve_string resolve_int resolve_bool resolve_duration bare
winrm_yields = refl

ssh_yields : (ssh_options (config "ssh")).value ≡ some ssh
unfolding ssh_options resolve_string resolve_int resolve_duration bare
ssh_yields = refl

new_connection-connected_iff_example :
    ((c : Connection) × ((new_connection (config "winrm")).value ≡ some c))
    ↔ (has_error (new_connection (config "winrm")).diagnostics ≡ false)
new_connection-connected_iff_example = new_connection-connected_iff (config "winrm")

winrm_options-accepted_iff_example :
    ((kept : WinRmOptions) × (new_winrm options ≡ some kept)
      × (kept.port ≡ pos 5986)
      × IsPort kept.port
      × (pos 1 ≤ℤ kept.max_shells))
    ↔ IsKnownAuth (or_text "ntlm" "ntlm")
winrm_options-accepted_iff_example =
    winrm_options-accepted_iff (config "winrm") options winrm_yields

ssh_options_bounds_example : (ssh.host ≢ "") × (ssh.username ≢ "") × IsPort ssh.port
ssh_options_bounds_example = ssh_options_bounds (config "ssh") ssh ssh_yields
