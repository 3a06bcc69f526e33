-- ===== src/Connection/Ssh.antt =====
-- internal/connection/ssh.go: the checks and defaults of NewSSH. Durations are nanoseconds.
use terraform_provider_hyper.Common.{
  String, Bool, false, not, List, [], ◌∷◌, ◌++◌, Option, none, some, ◌==◌, if◌then◌else◌,
}
use terraform_provider_hyper.Common.Int.{ℤ, pos}
use terraform_provider_hyper.Connection.{Machine}
use terraform_provider_hyper.Connection.Winrm.{or_text, or_int}

pub record SshOptions : Type 0 where
  pub host : String
  pub port : ℤ
  pub username : String
  pub private_key : String
  pub private_key_path : String
  pub passphrase : String
  pub password : String
  pub known_hosts_path : String
  pub timeout : ℤ
  pub command_timeout : ℤ
  pub keepalive_interval : ℤ
  pub pwsh_path : String
  pub max_concurrent_sessions : ℤ

pub data AuthMethod : Type 0 where
  public_keys password : AuthMethod

-- The backend, without the channels and the client that Open fills in.
pub record SshBackend : Type 0 where
  pub opts : SshOptions
  pub auths : List AuthMethod
  pub addr : String

unfoldable pub parse_private_key : ⦃k : Machine⦄ → String → String → Bool
parse_private_key ⦃k⦄ key passphrase =
    if passphrase == "" then k.parse_key key else k.parse_key_with key passphrase

abbrev pub key_auth : Bool → Option (List AuthMethod)
key_auth parsed = if parsed then some (AuthMethod.public_keys ∷ []) else none

unfoldable pub build_ssh_auth_methods : ⦃k : Machine⦄ → SshOptions → Option (List AuthMethod)
unfolding parse_private_key
build_ssh_auth_methods ⦃k⦄ opts =
    let keys =
      if not (opts.private_key == "")
      then key_auth (parse_private_key opts.private_key opts.passphrase)
      else if not (opts.private_key_path == "")
      then elim (k.read_file opts.private_key_path) [
        | none ↦ none
        | some key ↦ key_auth (parse_private_key key opts.passphrase)
      ]
      else some [] in
    elim keys [
      | none ↦ none
      | some auths ↦ some (if opts.password == "" then auths else auths ++ AuthMethod.password ∷ [])
    ]

unfoldable pub load_known_hosts : ⦃k : Machine⦄ → String → Bool
load_known_hosts ⦃k⦄ path =
    if path == ""
    then elim k.home [
      | none ↦ false
      | some home ↦ k.known_hosts (k.join home (".ssh" ∷ "known_hosts" ∷ []))
    ]
    else k.known_hosts path

-- The options that the backend keeps: no credential among them.
abbrev pub kept_options : SshOptions → SshOptions
kept_options opts = record {
  host = opts.host;
  port = or_int opts.port (pos 22);
  username = opts.username;
  private_key = "";
  private_key_path = "";
  passphrase = "";
  password = "";
  known_hosts_path = "";
  timeout = or_int opts.timeout (pos 30000000000);
  command_timeout = or_int opts.command_timeout (pos 300000000000);
  keepalive_interval = or_int opts.keepalive_interval (pos 30000000000);
  pwsh_path = or_text opts.pwsh_path "powershell.exe";
  max_concurrent_sessions = or_int opts.max_concurrent_sessions (pos 4);
}

unfoldable pub new_ssh : ⦃k : Machine⦄ → SshOptions → Option SshBackend
unfolding build_ssh_auth_methods load_known_hosts
new_ssh ⦃k⦄ opts =
    if opts.host == ""
    then none
    else if opts.username == ""
    then none
    else elim (build_ssh_auth_methods opts) [
      | none ↦ none
      | some [] ↦ none
      | some (a ∷ auths) ↦
          if load_known_hosts opts.known_hosts_path
          then some (record {
            opts = kept_options opts;
            auths = a ∷ auths;
            addr = k.join_host_port opts.host (or_int opts.port (pos 22));
          })
          else none
    ]
