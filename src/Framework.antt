-- ===== src/Framework.antt =====
-- The Terraform plugin framework's values, as the resources of internal/ read and write them: an
-- attribute is null, unknown or known, and a handler reports diagnostics. The framework is not part of
-- the repository: its attribute values appear here only as the three documented states, and the
-- accessors return the zero value of Go's type on null and unknown, as documented.
pub mod Handlers
use terraform_provider_hyper.Common.{
  ℕ, String, ◌≡◌, ◌↔◌, Bool, true, false, Option, none, some, List, [], arith, ◌==◌, eq_iff, ◌∷◌,
}
use terraform_provider_hyper.Common.Int.{ℤ, pos, eq_ℤ, eq_ℤ_iff}

pub data Attr {ℓ} (A : Type ℓ) : Type ℓ where
  null : Attr A
  unknown : Attr A
  known : A → Attr A

module _ {ℓ} {A : Type ℓ} where
  abbrev pub is_null : Attr A → Bool
  is_null null = true
  is_null unknown = false
  is_null (known a) = false

  abbrev pub is_unknown : Attr A → Bool
  is_unknown null = false
  is_unknown unknown = true
  is_unknown (known a) = false

  -- `!v.IsNull() && !v.IsUnknown()`.
  abbrev pub is_known : Attr A → Bool
  is_known null = false
  is_known unknown = false
  is_known (known a) = true

  abbrev pub value_or : A → Attr A → A
  value_or d null = d
  value_or d unknown = d
  value_or d (known a) = a

  -- Raw equality: the same state, and the same value where both are known.
  abbrev pub equal : (A → A → Bool) → Attr A → Attr A → Bool
  equal eq null null = true
  equal eq unknown unknown = true
  equal eq (known a) (known b) = eq a b
  equal eq null unknown = false
  equal eq null (known b) = false
  equal eq unknown null = false
  equal eq unknown (known b) = false
  equal eq (known a) null = false
  equal eq (known a) unknown = false

  -- A value that may be written to state: it is not unknown.
  abbrev pub IsResolved : Attr A → Type 0
  IsResolved null = Unit
  IsResolved unknown = ⊥
  IsResolved (known a) = Unit

abbrev pub value_string : Attr String → String
value_string = value_or ""

abbrev pub value_int64 : Attr ℤ → ℤ
value_int64 = value_or (pos 0)

abbrev pub value_bool : Attr Bool → Bool
value_bool = value_or false

abbrev pub bool_eq : Bool → Bool → Bool
bool_eq true b = b
bool_eq false true = false
bool_eq false false = true

pub equal_string_iff : (a b : Attr String) → (equal ◌==◌ a b ≡ true) ↔ (a ≡ b)
equal_string_iff (known s) (known t) = ground (arith, eq_iff s t)
equal_string_iff null b = ground arith
equal_string_iff unknown b = ground arith
equal_string_iff (known s) _ = ground arith

pub equal_int64_iff : (a b : Attr ℤ) → (equal eq_ℤ a b ≡ true) ↔ (a ≡ b)
equal_int64_iff (known s) (known t) = ground (arith, eq_ℤ_iff s t)
equal_int64_iff null b = ground arith
equal_int64_iff unknown b = ground arith
equal_int64_iff (known s) _ = ground arith

pub data Severity : Type 0 where
  error warning : Severity

-- One step of an attribute path: `Root` and `AtName` give names, `AtListIndex` an index.
pub data PathStep : Type 0 where
  name : String → PathStep
  index : ℕ → PathStep

-- The detail text of a diagnostic, which is prose for the operator, is left out.
pub record Diagnostic : Type 0 where
  pub severity : Severity
  pub path : List PathStep
  pub summary : String

abbrev pub Diagnostics : Type 0
Diagnostics = List Diagnostic

-- `diags.HasError()`.
abbrev pub has_error : Diagnostics → Bool
has_error [] = false
has_error (d ∷ ds) = let rest = has_error ds in elim d.severity [ error ↦ true | warning ↦ rest ]

abbrev pub attribute_error : List PathStep → String → Diagnostic
attribute_error p s = record { severity = error; path = p; summary = s }

abbrev pub attribute_warning : List PathStep → String → Diagnostic
attribute_warning p s = record { severity = warning; path = p; summary = s }

abbrev pub plain_error : String → Diagnostic
plain_error s = record { severity = error; path = []; summary = s }

-- A Go slice: nil, or the list of its elements.
abbrev pub Slice {ℓ} : Type ℓ → Type ℓ
Slice A = Option (List A)

abbrev pub elements {ℓ} : {A : Type ℓ} → Slice A → List A
elements none = []
elements (some xs) = xs

module _ {ℓ} {A : Type ℓ} where
  -- A list attribute read into a Go slice: nil if it is null or unknown.
  abbrev pub to_slice : Attr (List A) → Slice A
  to_slice null = none
  to_slice unknown = none
  to_slice (known xs) = some xs

  -- A Go slice written to a list attribute: null if it is nil.
  abbrev pub of_slice : Slice A → Attr (List A)
  of_slice none = null
  of_slice (some xs) = known xs
