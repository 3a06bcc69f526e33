-- ===== src/Connection.antt =====
-- internal/connection: how the transports fail, and how the three backends are set up. What the set-up
-- asks of the machine (its environment, its files, the binaries on the path, the key parsers of
-- golang.org/x/crypto) is the parameter `Machine`.
pub mod Ssh
pub mod Winrm
pub mod Local
use terraform_provider_hyper.Common.{String, Bool, List, Option}
use terraform_provider_hyper.Common.Int.{ℤ}

pub data TransportError : Type 0 where
  unreachable timeout session_dropped unsupported_backend : TransportError

pub record Machine : Type 0 where
  -- os.Getenv and os.UserHomeDir, filepath.Join under the home directory, os.Stat, os.ReadFile.
  pub getenv : String → String
  pub home : Option String
  pub join : String → List String → String
  pub exists : String → Bool
  pub read_file : String → Option String
  -- exec.LookPath, ssh.ParsePrivateKey with and without a passphrase, knownhosts.New.
  pub look_path : String → Option String
  pub parse_key : String → Bool
  pub parse_key_with : String → String → Bool
  pub known_hosts : String → Bool
  -- strconv.Atoi, time.ParseDuration, strings.ToLower, strconv.Itoa, net.JoinHostPort, net.ParseIP.
  pub atoi : String → Option ℤ
  pub parse_duration : String → Option ℤ
  pub to_lower : String → String
  pub join_host_port : String → ℤ → String
  pub is_ip : String → Bool
