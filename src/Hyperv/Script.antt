-- ===== src/Hyperv/Script.antt =====
-- internal/hyperv/script.go: the one way from the client's operations to PowerShell. The embedded
-- scripts, the transport, the JSON decoder and the white space and case tables of Go's library are
-- parameters; the heartbeat of the log is left out. Text is runes.
pub mod Minify
use terraform_provider_hyper.Connection.{TransportError}
use terraform_provider_hyper.Common.{
  ℕ, String, List, [], ◌∷◌, ◌++◌, Bool, true, false, Option, none, some, if◌then◌else◌,
}
use terraform_provider_hyper.Common.Int.{ℤ, pos, eq_ℤ}
use terraform_provider_hyper.Hyperv.Errors.{
  Sentinel, ClientError, ErrorEnvelope, parse_error_envelope,
}
use terraform_provider_hyper.Hyperv.Client.{Result, Call}
use terraform_provider_hyper.Hyperv.Script.Minify.{Spaces, minify_ps, trim_space, is_empty}

-- A struct as its JSON tags lay it out: the keys in order, with those that `omitempty` drops left out.
pub data Scalar : Type 0 where
  text : String → Scalar
  number : ℤ → Scalar
  flag : Bool → Scalar

pub data Value : Type 0 where
  text : String → Value
  number : ℤ → Value
  flag : Bool → Value
  texts : List String → Value
  object : List (String × Scalar) → Value
  objects : List (List (String × Scalar)) → Value

abbrev pub Payload : Type 0
Payload = List (String × Value)

-- What is embedded: the preamble, and a script by its folder and its verb.
pub record Scripts : Type 0 where
  pub preamble : Option (List ℕ)
  pub script : String → String → Option (List ℕ)

-- connection.Result without its duration. The error output is as `bytes.TrimSpace` leaves it.
pub record Output : Type 0 where
  pub stdout : List ℕ
  pub stderr : String
  pub exit_code : ℤ

pub data Ran : Type 0 where
  broken : Option TransportError → Ran
  exited : Output → Ran

-- connection.Runner: `run_script` takes the timeout of the context, if it has one of its own.
pub record Runner {ℓ} (H : Type ℓ) : Type ℓ where
  pub run_script : Option ℕ → List ℕ → Payload → H → H × Ran

-- What the client is built on.
pub record Backend {ℓ} (H : Type ℓ) : Type ℓ where
  pub scripts : Scripts
  pub runner : Runner H
  pub spaces : Spaces
  pub unmarshal_envelope : String → Option ErrorEnvelope

abbrev pub error : Sentinel → ClientError
error s = record { sentinel = some s }

-- An error of the client's own that wraps no sentinel.
abbrev pub plain : ClientError
plain = record { sentinel = none }

abbrev pub default_read_timeout : ℕ
default_read_timeout = 60000000000

-- The preamble, the body after it, and both shrunk for the wire.
unfoldable pub full_script : Spaces → List ℕ → List ℕ → List ℕ
full_script sp preamble body = minify_ps sp (preamble ++ 10 ∷ body)

module _ {ℓ} {H : Type ℓ} (b : Backend H) where
  abbrev pub checked : Ran → Result (List ℕ)
  checked (broken none) = Result.failed plain
  checked (broken (some e)) = Result.failed (error (Sentinel.transport e))
  checked (exited o) =
      if eq_ℤ o.exit_code (pos 0)
      then Result.ok o.stdout
      else Result.failed (parse_error_envelope b.unmarshal_envelope o.stderr)

  -- A script whose output nobody reads: `dst == nil`.
  unfoldable pub run_command : Option ℕ → List ℕ → Payload → Call H (List ℕ)
  unfolding full_script
  run_command timeout body stdin h = elim b.scripts.preamble [
    | none ↦ (h, Result.failed plain)
    | some preamble ↦
        let (h', r) = b.runner.run_script timeout (full_script b.spaces preamble body) stdin h in
        (h', checked r)
  ]

  unfoldable pub decoded : {A : Type 0} → (List ℕ → Option A) → Result (List ℕ) → Result A
  decoded unmarshal (Result.failed e) = Result.failed e
  decoded unmarshal (Result.ok out) =
      if is_empty (trim_space b.spaces out)
      then Result.failed (error Sentinel.ps_execution)
      else elim (unmarshal out) [
        | none ↦ Result.failed (error Sentinel.ps_execution)
        | some a ↦ Result.ok a
      ]

  unfoldable pub run_script :
      {A : Type 0} → Option ℕ → (List ℕ → Option A) → List ℕ → Payload → Call H A
  unfolding run_command decoded
  run_script timeout unmarshal body stdin h =
      let (h', r) = run_command timeout body stdin h in (h', decoded unmarshal r)

  unfoldable pub run_read_script : {A : Type 0} → (List ℕ → Option A) → List ℕ → Payload → Call H A
  unfolding run_script
  run_read_script = run_script (some default_read_timeout)

  -- A script by its folder and verb; a script that is not embedded is an error.
  unfoldable pub load : {A : Type 0} → String → String → (List ℕ → Call H A) → Call H A
  load folder verb k h = elim (b.scripts.script folder verb) [
    | none ↦ (h, Result.failed plain)
    | some body ↦ k body h
  ]
