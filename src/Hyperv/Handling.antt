-- ===== src/Hyperv/Handling.antt =====
-- What the handlers of the mapping resources share: a client that Configure may not have stashed, and a
-- reply to the answer of an operation. `none` is an operation that waits for a lock of its own.
use terraform_provider_hyper.Common.{◌++◌, Option, none, some}
use terraform_provider_hyper.Framework.{Diagnostics}
use terraform_provider_hyper.Framework.Handlers.{Action, Reply, reporting}
use terraform_provider_hyper.Hyperv.Client.{Result}
use terraform_provider_hyper.Hyperv.Session.{Session, Op}

-- An input with the diagnostics of its making, or only the diagnostics.
pub data Built (I : Type 0) : Type 0 where
  built : I → Diagnostics → Built I
  refused : Diagnostics → Built I

module _ {M : Type 0} where
  abbrev pub refusing : Diagnostics → Reply M
  refusing ds = record { state = Action.kept; diagnostics = ds }

  abbrev pub adding : Diagnostics → Reply M → Reply M
  adding ds y = record { state = y.state; diagnostics = ds ++ y.diagnostics }

abbrev pub Handled {ℓ} : Type ℓ → Type 0 → Type ℓ
Handled H M = Session H → Option (Session H × Reply M)

module _ {ℓ} {H : Type ℓ} {M : Type 0} where
  abbrev pub answering : {A : Type 0} → Op H A → (Result A → Reply M) → Handled H M
  answering op f s = elim (op s) [ none ↦ none | some (t, r) ↦ some (t, f r) ]

  abbrev pub with_client : {K : Type ℓ} → Option K → (K → Handled H M) → Handled H M
  with_client r f s = elim r [
    | none ↦ some (s, reporting "provider not configured")
    | some k ↦ f k s
  ]

  abbrev pub with_input : {I : Type 0} → Built I → (I → Diagnostics → Handled H M) → Handled H M
  with_input b f s = elim b [ built i ds ↦ f i ds s | refused ds ↦ some (s, refusing ds) ]
