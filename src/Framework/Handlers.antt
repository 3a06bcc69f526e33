-- ===== src/Framework/Handlers.antt =====
-- What a handler of a resource leaves behind, as the plugin framework takes it.
use terraform_provider_hyper.Common.{[], ◌∷◌, String}
use terraform_provider_hyper.Framework.{Diagnostics, plain_error}

-- The recorded state after the handler: as it was, dropped, or a model.
pub data Action (M : Type 0) : Type 0 where
  kept removed : Action M
  written : M → Action M

pub record Reply (M : Type 0) : Type 0 where
  pub state : Action M
  pub diagnostics : Diagnostics

module _ {M : Type 0} where
  abbrev pub reporting : String → Reply M
  reporting summary = record { state = Action.kept; diagnostics = plain_error summary ∷ [] }

  abbrev pub recording : M → Reply M
  recording m = record { state = Action.written m; diagnostics = [] }

  abbrev pub dropping : Reply M
  dropping = record { state = Action.removed; diagnostics = [] }

  -- A Delete that succeeded: the framework drops the state itself.
  abbrev pub silent : Reply M
  silent = record { state = Action.kept; diagnostics = [] }
