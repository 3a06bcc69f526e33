-- ===== src/Vm/Validators.antt =====
-- The configuration validators of internal/resources/vm/resource.go and wait.go. The framework decodes
-- the configuration; each `validate` gets the model.
use terraform_provider_hyper.Common.Eq.{string_eq}
use terraform_provider_hyper.Common.Assoc.{insert, lookup}
use terraform_provider_hyper.Vm.Wait.{Text, guest_ip_timeout}
use terraform_provider_hyper.Vm.Model.{
  MemoryModel, Model, StateModel, BootOrderEntryModel, NetworkAdapterModel, network_adapter_models,
}
use terraform_provider_hyper.Framework.{
  Attr, Diagnostic, PathStep, Diagnostics, attribute_error, elements, is_known, is_unknown, is_null,
  value_bool, value_int64, value_string,
}
use terraform_provider_hyper.Common.Int.{ℤ, ltb_ℤ, eq_ℤ, pos}
use terraform_provider_hyper.Common.Eq.{Eq}
pub mod Memory
pub mod Generation
pub mod Running
pub mod Names
use terraform_provider_hyper.Common.{
  String, ℕ, suc, Bool, true, false, ◌&&◌, ◌||◌, not, Option, none, some, List, [], ◌∷◌, ◌++◌,
  arith, ◌==◌, if◌then◌else◌,
}

abbrev pub memory_field : String → List PathStep
memory_field f = PathStep.name "memory" ∷ PathStep.name f ∷ []

abbrev pub report_if : Bool → Diagnostic → Diagnostics
report_if true d = d ∷ []
report_if false d = []

-- dynamicMemoryBoundsValidator: rule 1 without a dynamic flag that is true, rules 2 and 3 with it.
abbrev without_dynamic : MemoryModel → Diagnostics
without_dynamic mem =
    report_if (is_known mem.min_bytes)
      (attribute_error (memory_field "min_bytes") "memory.min_bytes requires memory.dynamic = true")
    ++ report_if (is_known mem.max_bytes) (
        attribute_error (memory_field "max_bytes")
          "memory.max_bytes requires memory.dynamic = true")

abbrev bracket_startup : ℤ → MemoryModel → Diagnostics
bracket_startup startup mem =
    report_if (is_known mem.min_bytes && ltb_ℤ startup (value_int64 mem.min_bytes)) (
      attribute_error (memory_field "min_bytes") "memory.min_bytes must be <= memory.startup_bytes")
    ++ report_if (is_known mem.max_bytes && ltb_ℤ (value_int64 mem.max_bytes) startup) (
        attribute_error (memory_field "max_bytes")
          "memory.max_bytes must be >= memory.startup_bytes")

unfoldable pub validate_memory : MemoryModel → Diagnostics
validate_memory mem =
    if not (is_known mem.dynamic && value_bool mem.dynamic)
    then without_dynamic mem
    else if not (is_known mem.startup_bytes)
    then []
    else bracket_startup (value_int64 mem.startup_bytes) mem

unfoldable pub validate_dynamic_memory_bounds : Model → Diagnostics
unfolding validate_memory
validate_dynamic_memory_bounds config = elim config.memory [
  | none ↦ []
  | some mem ↦ validate_memory mem
]

-- The guards that the three generation 1 validators share, up to the attribute's own.
abbrev pub rejected_for_gen1 : Attr ℤ → Bool → Diagnostic → Diagnostics
rejected_for_gen1 generation unset d =
    if is_unknown generation
    then []
    else if eq_ℤ (value_int64 generation) (pos 2)
    then []
    else if unset
    then []
    else d ∷ []

unfoldable pub validate_secure_boot : Model → Diagnostics
validate_secure_boot config =
    if is_unknown config.generation || is_unknown config.secure_boot
    then []
    else rejected_for_gen1 config.generation (is_null config.secure_boot) (
        attribute_error (PathStep.name "secure_boot" ∷ [])
          "secure_boot is not valid for generation 1 VMs")

unfoldable pub validate_secure_boot_template : Model → Diagnostics
validate_secure_boot_template config =
    if is_unknown config.generation || is_unknown config.secure_boot_template
    then []
    else rejected_for_gen1 config.generation (is_null config.secure_boot_template) (
        attribute_error (PathStep.name "secure_boot_template" ∷ [])
          "secure_boot_template is not valid for generation 1 VMs")

abbrev pub is_empty : Attr (List BootOrderEntryModel) → Bool
is_empty (Attr.known (e ∷ es)) = false
is_empty _ = true

unfoldable pub validate_boot_order : Model → Diagnostics
validate_boot_order config = rejected_for_gen1 config.generation (is_empty config.boot_order) (
    attribute_error (PathStep.name "boot_order" ∷ [])
      "boot_order is not valid for generation 1 VMs")

abbrev duplicate_name : ℕ → Diagnostic
duplicate_name i =
    attribute_error (PathStep.name "network_adapter" ∷ PathStep.index i ∷ PathStep.name "name" ∷ [])
      "network_adapter names must be unique within a VM"

-- The loop with its map of names seen, from index `i` on.
unfoldable pub first_duplicate : List (String × ℕ) → ℕ → List NetworkAdapterModel → Option ℕ
first_duplicate seen i [] = none
first_duplicate seen i (n ∷ ns) =
    let skipped = first_duplicate seen (suc i) ns in
    let rest = first_duplicate (insert (value_string n.name) i seen) (suc i) ns in
    if not (is_known n.name)
    then skipped
    else elim (lookup (value_string n.name) seen) [ some prev ↦ some i | none ↦ rest ]

unfoldable pub validate_unique_names : Model → Diagnostics
unfolding first_duplicate
validate_unique_names config =
    elim (first_duplicate [] 0 (elements (network_adapter_models config))) [
      | none ↦ []
      | some i ↦ duplicate_name i ∷ []
    ]

-- The desired power state of a nil block, or of one without it, is the empty string.
abbrev pub desired_of : Option StateModel → Attr String
desired_of none = Attr.null
desired_of (some s) = s.desired

abbrev pub runs_after : Option ℤ → Attr String → Diagnostics
runs_after timeout desired = elim timeout [
  | none ↦ []
  | some t ↦
      if not (ltb_ℤ (pos 0) t)
      then []
      else if is_unknown desired
      then []
      else if value_string desired == "Running"
      then []
      else attribute_error (PathStep.name "wait_for_guest_ip_timeout" ∷ [])
          "wait_for_guest_ip_timeout requires state.desired = \"Running\""
        ∷ []
]

unfoldable pub validate_wait_requires_running : ⦃t : Text⦄ → Model → Diagnostics
unfolding guest_ip_timeout
validate_wait_requires_running config =
    runs_after (guest_ip_timeout config.wait_for_guest_ip_timeout) (desired_of config.state)

-- nonNegativeDurationValidator.
unfoldable pub validate_duration : ⦃t : Text⦄ → List PathStep → Attr String → Diagnostics
validate_duration path Attr.null = []
validate_duration path Attr.unknown = []
validate_duration ⦃t⦄ path (Attr.known s) = elim (t.parse_duration s) [
  | none ↦ attribute_error path "Invalid duration" ∷ []
  | some d ↦ if ltb_ℤ d (pos 0) then attribute_error path "Invalid duration" ∷ [] else []
]
