-- ===== src/Provider/Checked.antt =====
-- A configuration step: the diagnostics it reports, and its value unless one of them is an error after
-- which the code returns.
use terraform_provider_hyper.Common.{Bool, [], ◌∷◌, ◌++◌, Option, none, some, if◌then◌else◌}
use terraform_provider_hyper.Framework.{Diagnostic, Diagnostics}

pub record Checked (A : Type 0) : Type 0 where
  pub diagnostics : Diagnostics
  pub value : Option A

module _ {A : Type 0} where
  abbrev pub pass : A → Checked A
  pass a = record { diagnostics = []; value = some a }

  abbrev pub refuse : Diagnostic → Checked A
  refuse d = record { diagnostics = d ∷ []; value = none }

  abbrev pub or_refuse : Diagnostic → Option A → Checked A
  or_refuse d none = refuse d
  or_refuse d (some a) = pass a

abbrev pub guard : Bool → Diagnostic → Checked Unit
guard ok d = if ok then pass tt else refuse d

abbrev pub warn_if : Bool → Diagnostic → Checked Unit
warn_if b d = if b then record { diagnostics = d ∷ []; value = some tt } else pass tt

infixl 5 ◌>>=◌ ◌>>◌
abbrev pub ◌>>=◌ : {A B : Type 0} → Checked A → (A → Checked B) → Checked B
m >>= f = elim m.value [
  | none ↦ record { diagnostics = m.diagnostics; value = none }
  | some a ↦ let r = f a in record { diagnostics = m.diagnostics ++ r.diagnostics; value = r.value }
]

abbrev pub ◌>>◌ : {B : Type 0} → Checked Unit → Checked B → Checked B
m >> k = m >>= (λ u. k)
