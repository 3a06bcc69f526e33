-- ===== src/Vm/Effects.antt =====
-- The control flow of the handlers: calls of the client one after another, with a return at the first
-- error that is reported.
use terraform_provider_hyper.Common.{List, [], ◌∷◌, if◌then◌else◌, String}
use terraform_provider_hyper.Framework.{Diagnostic, plain_error}
use terraform_provider_hyper.Hyperv.Client.{Call, Result, ok, failed}
use terraform_provider_hyper.Hyperv.Errors.{is_not_found}

-- How a part of a handler ends: with a value, with a reported error and a return, or with the fault of
-- a nil pointer. A wait that runs out of fuel has no end.
pub data Outcome (A : Type 0) : Type 0 where
  done : A → Outcome A
  halted : Diagnostic → Outcome A
  panicked out_of_fuel : Outcome A

abbrev pub Handler {ℓ} : Type ℓ → Type 0 → Type ℓ
Handler H A = H → H × Outcome A

module _ {ℓ} {H : Type ℓ} where
  abbrev pub pure : {A : Type 0} → A → Handler H A
  pure a h = (h, Outcome.done a)

  abbrev pub next : {A B : Type 0} → (A → Handler H B) → H × Outcome A → H × Outcome B
  next f (h, Outcome.done a) = f a h
  next f (h, Outcome.halted d) = (h, Outcome.halted d)
  next f (h, Outcome.panicked) = (h, Outcome.panicked)
  next f (h, Outcome.out_of_fuel) = (h, Outcome.out_of_fuel)

  infixl 5 ◌>>=◌
  abbrev pub ◌>>=◌ : {A B : Type 0} → Handler H A → (A → Handler H B) → Handler H B
  (m >>= f) h = next f (m h)

  infixl 5 ◌>>◌
  abbrev pub ◌>>◌ : {A B : Type 0} → Handler H A → Handler H B → Handler H B
  (m >> k) h = next (λ a. k) (m h)

  abbrev answered : {A : Type 0} → String → H × Result A → H × Outcome A
  answered summary (h, ok a) = (h, Outcome.done a)
  answered summary (h, failed e) = (h, Outcome.halted (plain_error summary))

  -- A call whose failure is reported.
  abbrev pub call : {A : Type 0} → String → Call H A → Handler H A
  call summary c h = answered summary (c h)

  abbrev answered_or_gone : String → H × Result Unit → H × Outcome Unit
  answered_or_gone summary (h, ok a) = (h, Outcome.done a)
  answered_or_gone summary (h, failed e) =
      (h, if is_not_found e then Outcome.done tt else Outcome.halted (plain_error summary))

  -- A call whose `ErrNotFound` is the state that is wanted.
  abbrev pub call_or_gone : String → Call H Unit → Handler H Unit
  call_or_gone summary c h = answered_or_gone summary (c h)

  unfoldable pub for_each : {A : Type 0} → (A → Handler H Unit) → List A → Handler H Unit
  for_each f [] h = (h, Outcome.done tt)
  for_each f (a ∷ as') h = next (λ u. for_each f as') (f a h)
