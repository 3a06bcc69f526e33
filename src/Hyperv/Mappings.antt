-- ===== src/Hyperv/Mappings.antt =====
-- internal/hyperv/nat_static_mapping.go and port_proxy.go, with their DTOs of types.go: the client's
-- operations on NAT mappings and port proxies. This file has what the two share.
pub mod Nat
pub mod Proxy
use terraform_provider_hyper.Common.{
  String, Option, none, some, List, ◌∷◌, [], ◌++◌, ℕ, if◌then◌else◌, Bool,
}
use terraform_provider_hyper.Hyperv.Client.{Result, ok, failed, Call}
use terraform_provider_hyper.Hyperv.Errors.{is_not_found}
use terraform_provider_hyper.Hyperv.Script.{Backend, Scalar, Value, plain, Payload, run_command}

pub record FirewallInput : Type 0 where
  pub enabled : Bool
  pub name : String
  pub profile : String

abbrev pub firewall_value : FirewallInput → Value
firewall_value f = Value.object (
    ("enabled", Scalar.flag f.enabled)
    ∷ ("name", Scalar.text f.name)
    ∷ ("profile", Scalar.text f.profile)
    ∷ [])

abbrev pub or_gone : Result (List ℕ) → Result Unit
or_gone (ok out) = ok tt
or_gone (failed e) = if is_not_found e then ok tt else failed e

module _ {ℓ} {H : Type ℓ} (b : Backend H) where
  -- The script of a verb with the firewall helper and the folder's own helper before it.
  unfoldable pub load_with_helpers :
      {A : Type 0} → String → String → String → (List ℕ → Call H A) → Call H A
  load_with_helpers folder helper verb k h = elim (b.scripts.script folder verb) [
    | none ↦ (h, failed plain)
    | some body ↦ elim (b.scripts.script "common" "firewall-rule") [
      | none ↦ (h, failed plain)
      | some firewall ↦ elim (b.scripts.script folder helper) [
        | none ↦ (h, failed plain)
        | some helpers ↦ k (firewall ++ 10 ∷ helpers ++ 10 ∷ body) h
      ]
    ]
  ]

  -- A removal, which an object that is already gone does not fail.
  unfoldable pub remove_unless_gone : String → String → Payload → Call H Unit
  unfolding load_with_helpers
  remove_unless_gone folder helper payload =
      load_with_helpers folder helper "remove"
        (λ body h. let (h', r) = run_command b none body payload h in (h', or_gone r))
