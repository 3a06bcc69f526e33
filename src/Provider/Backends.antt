-- ===== src/Provider/Backends.antt =====
-- internal/provider/backend_select.go: from the provider's configuration to a connection.
use terraform_provider_hyper.Common.{
  String, Bool, true, false, not, ◌&&◌, ◌||◌, Option, none, some, [], ◌∷◌, ◌==◌, if◌then◌else◌,
}
use terraform_provider_hyper.Common.Int.{ℤ, pos, ltb_ℤ}
use terraform_provider_hyper.Framework.{
  Attr, null, Diagnostic, PathStep, attribute_error, attribute_warning, plain_error,
}
use terraform_provider_hyper.Connection.{Machine}
use terraform_provider_hyper.Connection.Ssh.{SshOptions, SshBackend, new_ssh}
use terraform_provider_hyper.Connection.Winrm.{WinRmOptions, new_winrm}
use terraform_provider_hyper.Connection.Local.{new_local}
use terraform_provider_hyper.Provider.{
  ProviderModel, LocalConfig, SshConfig, WinRmConfig, KerberosConfig, resolve_string, resolve_int,
  resolve_bool, resolve_duration,
}
use terraform_provider_hyper.Provider.Checked.{
  Checked, pass, refuse, or_refuse, guard, warn_if, ◌>>=◌, ◌>>◌,
}

pub data Connection : Type 0 where
  local : String → Connection
  ssh : SshBackend → Connection
  winrm : WinRmOptions → Connection

abbrev pub at : String → String → Diagnostic
at attr summary = attribute_error (PathStep.name attr ∷ []) summary

abbrev pub at_winrm : String → String → Diagnostic
at_winrm attr summary = attribute_error (PathStep.name "winrm" ∷ PathStep.name attr ∷ []) summary

abbrev pub at_kerberos : String → String → Diagnostic
at_kerberos attr summary =
    attribute_error (PathStep.name "winrm" ∷ PathStep.name "kerberos" ∷ PathStep.name attr ∷ [])
      summary

-- A nil block reads as one whose attributes are all null.
abbrev pub ssh_block : Option SshConfig → SshConfig
ssh_block (some c) = c
ssh_block none = record {
  private_key = null;
  private_key_path = null;
  passphrase = null;
  known_hosts_path = null;
}

abbrev pub winrm_block : Option WinRmConfig → WinRmConfig
winrm_block (some c) = c
winrm_block none = record {
  use_https = null;
  insecure = null;
  auth = null;
  cacert = null;
  max_shells = null;
  kerberos = none;
}

abbrev pub kerberos_block : Option KerberosConfig → KerberosConfig
kerberos_block (some c) = c
kerberos_block none = record { realm = null; spn = null; config_path = null; ccache_path = null }

abbrev pub pwsh_attr : Option LocalConfig → Attr String
pwsh_attr none = null
pwsh_attr (some c) = c.pwsh_path

abbrev pub in_range : ℤ → Bool
in_range port = not (ltb_ℤ port (pos 1) || ltb_ℤ (pos 65535) port)

-- `strings.Contains(host, ".")`.
abbrev pub has_dot : String → Bool
has_dot String.[] = false
has_dot (String.◌∷◌ c s) =
    let rest = has_dot s in if String.◌∷◌ c String.[] == "." then true else rest

module _ ⦃k : Machine⦄ where
  -- The options that newSSHConnection hands to NewSSH.
  unfoldable pub ssh_options : ProviderModel → Checked SshOptions
  ssh_options m = do
    let host = resolve_string m.host "HYPERV_HOST" ""
    guard (not (host == "")) (at "host" "SSH backend requires host")
    let username = resolve_string m.username "HYPERV_USERNAME" ""
    guard (not (username == "")) (at "username" "SSH backend requires username")
    port ← or_refuse (at "port" "Invalid SSH port") (resolve_int m.port "HYPERV_PORT" (pos 22))
    guard (in_range port) (at "port" "Invalid SSH port")
    let c = ssh_block m.ssh
    command_timeout ←
        or_refuse (at "timeout" "Invalid timeout") (resolve_duration m.timeout "HYPERV_TIMEOUT")
    pass (record {
      host = host;
      port = port;
      username = username;
      private_key = resolve_string c.private_key "HYPERV_SSH_PRIVATE_KEY" "";
      private_key_path = resolve_string c.private_key_path "HYPERV_SSH_PRIVATE_KEY_PATH" "";
      passphrase = resolve_string c.passphrase "HYPERV_SSH_PASSPHRASE" "";
      password = resolve_string m.password "HYPERV_PASSWORD" "";
      known_hosts_path = resolve_string c.known_hosts_path "HYPERV_SSH_KNOWN_HOSTS_PATH" "";
      timeout = pos 0;
      command_timeout = command_timeout;
      keepalive_interval = pos 0;
      pwsh_path = "";
      max_concurrent_sessions = pos 0;
    })

  unfoldable pub new_ssh_connection : ProviderModel → Checked Connection
  unfolding ssh_options
  new_ssh_connection m = do
    opts ← ssh_options m
    backend ← or_refuse (plain_error "SSH backend initialization failed") (new_ssh opts)
    pass (Connection.ssh backend)

  -- The checks of a Kerberos configuration.
  unfoldable pub check_kerberos : String → String → String → String → Checked Unit
  check_kerberos host realm password ccache_path = do
    guard (not (realm == "")) (at_kerberos "realm" "WinRM kerberos auth requires a realm")
    guard (not (not (password == "") && not (ccache_path == ""))) (
        at_kerberos "ccache_path"
          "WinRM kerberos auth: password and ccache_path are mutually exclusive")
    guard (not (password == "") || not (ccache_path == ""))
        (at "password" "WinRM kerberos auth requires either password or ccache_path")
    warn_if (not (has_dot host) || k.is_ip host) (
        attribute_warning (PathStep.name "host" ∷ [])
          "WinRM kerberos auth typically requires an FQDN host")

  -- The options that newWinRMConnection hands to NewWinRM.
  unfoldable pub winrm_options : ProviderModel → Checked WinRmOptions
  unfolding check_kerberos
  winrm_options m = do
    let host = resolve_string m.host "HYPERV_HOST" ""
    guard (not (host == "")) (at "host" "WinRM backend requires host")
    let username = resolve_string m.username "HYPERV_USERNAME" ""
    guard (not (username == "")) (at "username" "WinRM backend requires username")
    let password = resolve_string m.password "HYPERV_PASSWORD" ""
    let c = winrm_block m.winrm
    use_https ←
        or_refuse (at_winrm "use_https" "Invalid WinRM use_https")
          (resolve_bool c.use_https "HYPERV_WINRM_USE_HTTPS" true)
    insecure ←
        or_refuse (at_winrm "insecure" "Invalid WinRM insecure")
          (resolve_bool c.insecure "HYPERV_WINRM_INSECURE" false)
    let auth = resolve_string c.auth "HYPERV_WINRM_AUTH" "ntlm"
    let kc = kerberos_block c.kerberos
    let realm = resolve_string kc.realm "HYPERV_KRB5_REALM" ""
    let ccache_path = resolve_string kc.ccache_path "HYPERV_KRB5_CCACHE_PATH" ""
    guard (not ((password == "") && not (auth == "kerberos")))
        (at "password" "WinRM backend requires password")
    (if auth == "kerberos" then check_kerberos host realm password ccache_path else pass tt)
    warn_if ((auth == "basic") && not use_https) (
        attribute_warning (PathStep.name "winrm" ∷ PathStep.name "auth" ∷ [])
          "WinRM Basic auth over HTTP exposes credentials in cleartext")
    port ←
        or_refuse (at "port" "Invalid WinRM port")
          (resolve_int m.port "HYPERV_PORT" (if use_https then pos 5986 else pos 5985))
    guard (in_range port) (at "port" "Invalid WinRM port")
    command_timeout ←
        or_refuse (at "timeout" "Invalid timeout") (resolve_duration m.timeout "HYPERV_TIMEOUT")
    max_shells ←
        or_refuse (at_winrm "max_shells" "Invalid WinRM max_shells")
          (resolve_int c.max_shells "HYPERV_WINRM_MAX_SHELLS" (pos 0))
    guard (not (ltb_ℤ max_shells (pos 0))) (at_winrm "max_shells" "Invalid WinRM max_shells")
    pass (record {
      host = host;
      port = port;
      username = username;
      password = password;
      use_https = use_https;
      insecure = insecure;
      auth = auth;
      cacert = resolve_string c.cacert "HYPERV_WINRM_CACERT" "";
      krb_realm = realm;
      krb_spn = resolve_string kc.spn "HYPERV_KRB5_SPN" "";
      krb_config_path = resolve_string kc.config_path "HYPERV_KRB5_CONF_PATH" "";
      krb_ccache_path = ccache_path;
      timeout = pos 0;
      command_timeout = command_timeout;
      pwsh_path = "";
      max_shells = max_shells;
    })

  unfoldable pub new_winrm_connection : ProviderModel → Checked Connection
  unfolding winrm_options
  new_winrm_connection m = do
    opts ← winrm_options m
    backend ← or_refuse (plain_error "WinRM backend initialization failed") (new_winrm opts)
    pass (Connection.winrm backend)

  unfoldable pub new_local_connection : ProviderModel → Checked Connection
  new_local_connection m = do
    let pwsh = pwsh_attr m.local
    path ←
        or_refuse (plain_error "Local backend initialization failed")
          (new_local (resolve_string pwsh "HYPERV_PWSH_PATH" ""))
    pass (Connection.local path)

  unfoldable pub new_connection : ProviderModel → Checked Connection
  unfolding new_ssh_connection new_winrm_connection new_local_connection
  new_connection m =
      let backend = resolve_string m.backend "HYPERV_BACKEND" "local" in
      if backend == "local"
      then new_local_connection m
      else if backend == "ssh"
      then new_ssh_connection m
      else if backend == "winrm"
      then new_winrm_connection m
      else refuse (at "backend" "Invalid backend")
