-- ===== src/Connection/Winrm.antt =====
-- internal/connection/winrm.go: the checks and defaults of NewWinRM. Durations are nanoseconds.
use terraform_provider_hyper.Common.{
  String, Bool, false, not, ◌&&◌, ◌||◌, [], ◌∷◌, Option, none, some, ◌==◌, if◌then◌else◌,
}
use terraform_provider_hyper.Common.Int.{ℤ, pos, ltb_ℤ, eq_ℤ}
use Prim.Native.String.{◌++◌}
use terraform_provider_hyper.Connection.{Machine}

pub record WinRmOptions : Type 0 where
  pub host : String
  pub port : ℤ
  pub username : String
  pub password : String
  pub use_https : Bool
  pub insecure : Bool
  pub auth : String
  pub cacert : String
  pub krb_realm : String
  pub krb_spn : String
  pub krb_config_path : String
  pub krb_ccache_path : String
  pub timeout : ℤ
  pub command_timeout : ℤ
  pub pwsh_path : String
  pub max_shells : ℤ

abbrev pub default_pwsh_path : String
default_pwsh_path = "powershell.exe"

abbrev pub default_command_timeout : ℤ
default_command_timeout = pos 300000000000

abbrev pub or_text : String → String → String
or_text s d = if s == "" then d else s

abbrev pub or_int : ℤ → ℤ → ℤ
or_int n d = if eq_ℤ n (pos 0) then d else n

unfoldable pub default_krb_config_path : ⦃k : Machine⦄ → String
default_krb_config_path ⦃k⦄ =
    let system = if k.exists "/etc/krb5.conf" then "/etc/krb5.conf" else "" in
    if not (k.getenv "KRB5_CONFIG" == "") then k.getenv "KRB5_CONFIG" else elim k.home [
      | none ↦ system
      | some home ↦
          let user = k.join home (".config" ∷ "krb5.conf" ∷ []) in
          if k.exists user then user else system
    ]

-- Whether the credentials fit the way of authentication.
unfoldable pub credentials_ok : String → WinRmOptions → Bool
credentials_ok auth opts =
    let has_password = not (opts.password == "") in
    let has_ccache = not (opts.krb_ccache_path == "") in
    if (auth == "ntlm") || (auth == "basic")
    then has_password
    else if auth == "kerberos"
    then if opts.krb_realm == ""
      then false
      else if has_password && has_ccache
      then false
      else has_password || has_ccache
    else false

abbrev pub with_defaults : ⦃k : Machine⦄ → String → ℤ → WinRmOptions → WinRmOptions
with_defaults auth port opts = record opts {
  port = port;
  auth = auth;
  krb_spn =
      if (auth == "kerberos") && (opts.krb_spn == "") then "HTTP/" ++ opts.host else opts.krb_spn;
  krb_config_path =
      if (auth == "kerberos") && (opts.krb_config_path == "")
      then default_krb_config_path
      else opts.krb_config_path;
  command_timeout = or_int opts.command_timeout default_command_timeout;
  pwsh_path = or_text opts.pwsh_path default_pwsh_path;
  max_shells = or_int opts.max_shells (pos 3);
}

-- The options of the backend that NewWinRM returns; `none` is its error.
unfoldable pub new_winrm : ⦃k : Machine⦄ → WinRmOptions → Option WinRmOptions
unfolding default_krb_config_path
new_winrm opts =
    let auth = or_text opts.auth "ntlm" in
    let port = or_int opts.port (if opts.use_https then pos 5986 else pos 5985) in
    if opts.host == ""
    then none
    else if opts.username == ""
    then none
    else if not (credentials_ok auth opts)
    then none
    else if ltb_ℤ port (pos 1) || ltb_ℤ (pos 65535) port
    then none
    else if ltb_ℤ opts.max_shells (pos 0)
    then none
    else some (with_defaults auth port opts)
