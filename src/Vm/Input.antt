-- ===== src/Vm/Input.antt =====
-- buildNewInput, buildSetInput, setInputHasChanges and pathSemanticEquals of
-- internal/resources/vm/resource.go: what a create and an update send to the scripts.
pub mod Laws
use terraform_provider_hyper.Common.{
  String, ◌≡◌, Bool, true, false, ◌&&◌, ◌||◌, not, Option, none, some, arith, ◌==◌, if◌then◌else◌,
}
use terraform_provider_hyper.Common.Int.{ℤ, eq_ℤ}
use terraform_provider_hyper.Framework.{
  Attr, is_known, value_string, value_int64, value_bool, equal, bool_eq,
}
use terraform_provider_hyper.Types.Runes.{Unicode}
use terraform_provider_hyper.Types.Path
use terraform_provider_hyper.Hyperv.Dto.{NewVmInput, SetVmInput}
use terraform_provider_hyper.Vm.Model.{Model, MemoryModel, CpuModel}
use terraform_provider_hyper.Vm.Slots.{optional}

infixl 5 ◌>>=◌
abbrev pub ◌>>=◌ {ℓ κ} : {A : Type ℓ} {B : Type κ} → Option A → (A → Option B) → Option B
none >>= f = none
some a >>= f = f a

-- `none` is the fault of a nil `cpu` or `memory` block.
unfoldable pub build_new_input : Model → Option NewVmInput
build_new_input plan = do
  cpu ← plan.cpu
  memory ← plan.memory
  some (record {
    name = value_string plan.name;
    generation = value_int64 plan.generation;
    vcpu = value_int64 cpu.count;
    memory_bytes = value_int64 memory.startup_bytes;
    dynamic_memory = optional memory.dynamic;
    min_memory_bytes = optional memory.min_bytes;
    max_memory_bytes = optional memory.max_bytes;
    secure_boot = optional plan.secure_boot;
    secure_boot_template = optional plan.secure_boot_template;
    notes = optional plan.notes;
    path = optional plan.path;
  })

module _ {ℓ} {A : Type ℓ} where
  -- A required value, sent if it is not the recorded one.
  abbrev pub changed_value : (A → A → Bool) → A → Attr A → Attr A → Option A
  changed_value eq zero_value plan state =
      if not (equal eq plan state)
      then some (elim plan [ Attr.known a ↦ a | _ ↦ zero_value ])
      else none

  -- An optional value, sent if it is known and not the recorded one.
  abbrev pub changed : (A → A → Bool) → Attr A → Attr A → Option A
  changed eq plan state = if not (equal eq plan state) then optional plan else none

  abbrev pub is_some : Option A → Bool
  is_some none = false
  is_some (some a) = true

-- The memory part of the input: the current dynamic flag goes along with any memory change.
abbrev pub pinned_dynamic : Option Bool → Option ℤ → Option ℤ → Option ℤ → Attr Bool → Option Bool
pinned_dynamic dynamic startup min_bytes max_bytes plan =
    if not (is_some dynamic)
      && ((is_some min_bytes || (is_some max_bytes || is_some startup)) && is_known plan)
    then some (value_bool plan)
    else dynamic

module _ ⦃u : Unicode⦄ where
  -- A null or unknown side never matches.
  unfoldable pub path_semantic_equals : Attr String → Attr String → Bool
  path_semantic_equals a b =
      if is_known a && is_known b then Path.string_semantic_equals a b else false

  abbrev pub changed_path : Attr String → Attr String → Option String
  changed_path plan state =
      if is_known plan && not (path_semantic_equals plan state)
      then some (value_string plan)
      else none

  -- The input once the four nested blocks are there.
  unfoldable pub set_input :
      Model → Model → CpuModel → CpuModel → MemoryModel → MemoryModel → SetVmInput
  set_input plan state plan_cpu state_cpu plan_memory state_memory =
      let memory_bytes =
        changed_value eq_ℤ (ℤ.pos 0) plan_memory.startup_bytes state_memory.startup_bytes in
      let min_bytes = changed eq_ℤ plan_memory.min_bytes state_memory.min_bytes in
      let max_bytes = changed eq_ℤ plan_memory.max_bytes state_memory.max_bytes in
      record {
        name = value_string plan.name;
        generation = value_int64 state.generation;
        vcpu = changed_value eq_ℤ (ℤ.pos 0) plan_cpu.count state_cpu.count;
        memory_bytes = memory_bytes;
        dynamic_memory =
            pinned_dynamic (changed bool_eq plan_memory.dynamic state_memory.dynamic) memory_bytes
              min_bytes max_bytes plan_memory.dynamic;
        min_memory_bytes = min_bytes;
        max_memory_bytes = max_bytes;
        secure_boot = changed bool_eq plan.secure_boot state.secure_boot;
        notes = changed ◌==◌ plan.notes state.notes;
        path = changed_path plan.path state.path;
      }

  unfoldable pub build_set_input : Model → Model → Option SetVmInput
  unfolding set_input
  build_set_input plan state = do
    plan_cpu ← plan.cpu
    state_cpu ← state.cpu
    plan_memory ← plan.memory
    state_memory ← state.memory
    some (set_input plan state plan_cpu state_cpu plan_memory state_memory)

unfoldable pub set_input_has_changes : SetVmInput → Bool
set_input_has_changes i =
    is_some i.vcpu
    || (is_some i.memory_bytes
        || (is_some i.dynamic_memory
            || (is_some i.min_memory_bytes
                || (is_some i.max_memory_bytes
                    || (is_some i.secure_boot || (is_some i.notes || is_some i.path))))))
