-- ===== src/Vm/Input/Laws.antt =====
-- When an update sends a field, and what it sends.
use terraform_provider_hyper.Vm.Slots.{optional}
use terraform_provider_hyper.Hyperv.Dto.{SetVmInput}
use terraform_provider_hyper.Vm.Model.{Model, CpuModel, MemoryModel}
use terraform_provider_hyper.Types.Runes.{Unicode, runes_eq_iff}
use terraform_provider_hyper.Types.Path
use terraform_provider_hyper.Framework.{
  Attr, equal, is_known, bool_eq, value_bool, equal_int64_iff, equal_string_iff, value_string,
}
use terraform_provider_hyper.Common.{
  String, ◌≡◌, refl, ◌↔◌, ◌⊎◌, Bool, true, false, ◌||◌, Option, none, some, arith, ◌==◌,
}
use terraform_provider_hyper.Common.Int.{ℤ, eq_ℤ}
use terraform_provider_hyper.Vm.Input.{
  changed, is_some, changed_value, build_set_input, path_semantic_equals, set_input,
  set_input_has_changes, pinned_dynamic, changed_path,
}

-- An optional attribute that an update leaves alone: the plan has the recorded value, or none.
abbrev pub Unmanaged {ℓ} : {A : Type ℓ} → Attr A → Attr A → Type ℓ
Unmanaged p s = (p ≡ s) ⊎ (is_known p ≡ false)

module _ {ℓ} {A : Type ℓ} (eq : A → A → Bool)
    (eq_ok : (a b : Attr A) → (equal eq a b ≡ true) ↔ (a ≡ b)) where
  changed-none_iff : (p s : Attr A) → (is_some (changed eq p s) ≡ false) ↔ Unmanaged p s
  changed-none_iff (Attr.known a) s = ground (arith, eq_ok (Attr.known a) s)
  changed-none_iff Attr.null s = ground arith
  changed-none_iff Attr.unknown s = ground arith

  changed_value-none_iff :
      (z : A) (p s : Attr A) → (is_some (changed_value eq z p s) ≡ false) ↔ (p ≡ s)
  changed_value-none_iff z p s = ground (arith, eq_ok p s)

equal_bool_iff : (a b : Attr Bool) → (equal bool_eq a b ≡ true) ↔ (a ≡ b)
equal_bool_iff a b = ground arith

pinned_dynamic_lem :
    (d : Option Bool) (startup least most : Option ℤ) (p : Attr Bool)
    → (d ≡ none) ⊎ (d ≡ optional p)
    → is_known p ≡ true
    → (is_some startup || (is_some least || is_some most)) ≡ true
    → pinned_dynamic d startup least most p ≡ some (value_bool p)
pinned_dynamic_lem d startup least most p hd hp h = ground arith

changed_cases {ℓ} :
    {A : Type ℓ} (eq : A → A → Bool) (p s : Attr A)
    → (changed eq p s ≡ none) ⊎ (changed eq p s ≡ optional p)
changed_cases eq p s = ground arith

-- Some planned memory size is sent.
abbrev pub sizes_changed : MemoryModel → MemoryModel → Bool
sizes_changed plan state =
    is_some (changed_value eq_ℤ (ℤ.pos 0) plan.startup_bytes state.startup_bytes)
    || (is_some (changed eq_ℤ plan.min_bytes state.min_bytes)
        || is_some (changed eq_ℤ plan.max_bytes state.max_bytes))

or-false : {a b : Bool} → (a || b) ≡ false → (a ≡ false) × (b ≡ false)
or-false {a = true} h = ground arith
or-false {a = false} h = (refl, h)

false-or : {a b : Bool} → a ≡ false → b ≡ false → (a || b) ≡ false
false-or ha hb = ground arith

-- The pin adds a flag only where one of the sizes is sent.
unpinned :
    (d : Option Bool) (startup least most : Option ℤ) (p : Attr Bool)
    → is_some (pinned_dynamic d startup least most p) ≡ false
    → is_some d ≡ false
unpinned none startup least most p h = refl
unpinned (some b) startup least most p h = h

pinned-none :
    (d : Option Bool) (startup least most : Option ℤ) (p : Attr Bool)
    → is_some d ≡ false
    → is_some startup ≡ false
    → is_some least ≡ false
    → is_some most ≡ false
    → is_some (pinned_dynamic d startup least most p) ≡ false
pinned-none d startup least most p hd hs hl hm = ground arith

-- The plan has no path, or both have one path up to slash style and case.
abbrev pub SamePathOrNone : ⦃u : Unicode⦄ → Attr String → Attr String → Type 0
SamePathOrNone p s =
    (is_known p ≡ false)
    ⊎ ((is_known s ≡ true) × (Path.normalize (value_string p) ≡ Path.normalize (value_string s)))

-- What must hold for an update to leave all scalar attributes alone.
pub record NoScalarChange ⦃u : Unicode⦄ (plan state : Model) (plan_cpu state_cpu : CpuModel)
    (plan_memory state_memory : MemoryModel) : Type 0 where
  pub cpu_count : plan_cpu.count ≡ state_cpu.count
  pub startup_bytes : plan_memory.startup_bytes ≡ state_memory.startup_bytes
  pub dynamic : Unmanaged plan_memory.dynamic state_memory.dynamic
  pub min_bytes : Unmanaged plan_memory.min_bytes state_memory.min_bytes
  pub max_bytes : Unmanaged plan_memory.max_bytes state_memory.max_bytes
  pub secure_boot : Unmanaged plan.secure_boot state.secure_boot
  pub notes : Unmanaged plan.notes state.notes
  pub path : SamePathOrNone plan.path state.path

module _ ⦃u : Unicode⦄ (plan state : Model) (plan_cpu state_cpu : CpuModel)
    (plan_memory state_memory : MemoryModel) (hpc : plan.cpu ≡ some plan_cpu)
    (hsc : state.cpu ≡ some state_cpu) (hpm : plan.memory ≡ some plan_memory)
    (hsm : state.memory ≡ some state_memory) where
  abbrev input : SetVmInput
  input = set_input plan state plan_cpu state_cpu plan_memory state_memory

  pub build_set_input-set_input : build_set_input plan state ≡ some input
  unfolding build_set_input
  build_set_input-set_input = rw (hpc, hsc, hpm, hsm)

  -- An update whose plan and state have their cpu and memory blocks, whose plan knows the dynamic flag
  -- and some memory size of which is to be sent, builds an input that carries the planned flag.
  pub build_set_input-pins_dynamic :
      is_known plan_memory.dynamic ≡ true
      → sizes_changed plan_memory state_memory ≡ true
      → (i : SetVmInput) × (build_set_input plan state ≡ some i)
        × (i.dynamic_memory ≡ some (value_bool plan_memory.dynamic))
  build_set_input-pins_dynamic k h = (
    input,
    build_set_input-set_input,
    unfold set_input in
        pinned_dynamic_lem (changed bool_eq plan_memory.dynamic state_memory.dynamic)
          (changed_value eq_ℤ (ℤ.pos 0) plan_memory.startup_bytes state_memory.startup_bytes)
          (changed eq_ℤ plan_memory.min_bytes state_memory.min_bytes)
          (changed eq_ℤ plan_memory.max_bytes state_memory.max_bytes) plan_memory.dynamic
          (changed_cases bool_eq plan_memory.dynamic state_memory.dynamic) k h,
  )

  changed_path-none_iff :
      (p s : Attr String) → (is_some (changed_path p s) ≡ false) ↔ SamePathOrNone p s
  unfolding path_semantic_equals Path.string_semantic_equals
  changed_path-none_iff p s =
      ground
        (arith, runes_eq_iff (Path.normalize (value_string p)) (Path.normalize (value_string s)))

  no_changes-of :
      set_input_has_changes input ≡ false
      → NoScalarChange plan state plan_cpu state_cpu plan_memory state_memory
  no_changes-of h =
      unfold set_input set_input_has_changes in
      let (f0, r0) = or-false h in
      let (f1, r1) = or-false r0 in
      let (f2, r2) = or-false r1 in
      let (f3, r3) = or-false r2 in
      let (f4, r4) = or-false r3 in
      let (f5, r5) = or-false r4 in
      let (f6, f7) = or-false r5 in
      record {
        cpu_count =
            (changed_value-none_iff eq_ℤ equal_int64_iff (ℤ.pos 0) plan_cpu.count state_cpu.count).0
              (f0);
        startup_bytes =
            (changed_value-none_iff eq_ℤ equal_int64_iff (ℤ.pos 0) plan_memory.startup_bytes
                state_memory.startup_bytes).0
              (f1);
        dynamic =
            (changed-none_iff bool_eq equal_bool_iff plan_memory.dynamic state_memory.dynamic).0 (
              unpinned (changed bool_eq plan_memory.dynamic state_memory.dynamic)
                (changed_value eq_ℤ (ℤ.pos 0) plan_memory.startup_bytes state_memory.startup_bytes)
                (changed eq_ℤ plan_memory.min_bytes state_memory.min_bytes)
                (changed eq_ℤ plan_memory.max_bytes state_memory.max_bytes) plan_memory.dynamic f2);
        min_bytes =
            (changed-none_iff eq_ℤ equal_int64_iff plan_memory.min_bytes state_memory.min_bytes).0
              (f3);
        max_bytes =
            (changed-none_iff eq_ℤ equal_int64_iff plan_memory.max_bytes state_memory.max_bytes).0
              (f4);
        secure_boot =
            (changed-none_iff bool_eq equal_bool_iff plan.secure_boot state.secure_boot).0 (f5);
        notes = (changed-none_iff ◌==◌ equal_string_iff plan.notes state.notes).0 (f6);
        path = (changed_path-none_iff plan.path state.path).0 (f7);
      }

  no_changes-to :
      NoScalarChange plan state plan_cpu state_cpu plan_memory state_memory
      → set_input_has_changes input ≡ false
  no_changes-to h =
      unfold set_input set_input_has_changes in
      let f0 =
        (changed_value-none_iff eq_ℤ equal_int64_iff (ℤ.pos 0) plan_cpu.count state_cpu.count).1
          h.cpu_count in
      let f1 =
        (changed_value-none_iff eq_ℤ equal_int64_iff (ℤ.pos 0) plan_memory.startup_bytes
            state_memory.startup_bytes).1
          h.startup_bytes in
      let f2 =
        (changed-none_iff bool_eq equal_bool_iff plan_memory.dynamic state_memory.dynamic).1
          h.dynamic in
      let f3 =
        (changed-none_iff eq_ℤ equal_int64_iff plan_memory.min_bytes state_memory.min_bytes).1
          h.min_bytes in
      let f4 =
        (changed-none_iff eq_ℤ equal_int64_iff plan_memory.max_bytes state_memory.max_bytes).1
          h.max_bytes in
      let f5 =
        (changed-none_iff bool_eq equal_bool_iff plan.secure_boot state.secure_boot).1
          h.secure_boot in
      let f6 = (changed-none_iff ◌==◌ equal_string_iff plan.notes state.notes).1 h.notes in
      let f7 = (changed_path-none_iff plan.path state.path).1 h.path in
      false-or f0 (
        false-or f1 (
          false-or
            (pinned-none (changed bool_eq plan_memory.dynamic state_memory.dynamic)
              (changed_value eq_ℤ (ℤ.pos 0) plan_memory.startup_bytes state_memory.startup_bytes)
              (changed eq_ℤ plan_memory.min_bytes state_memory.min_bytes)
              (changed eq_ℤ plan_memory.max_bytes state_memory.max_bytes) plan_memory.dynamic f2 f1
              f3 f4)
            (false-or f3 (false-or f4 (false-or f5 (false-or f6 f7))))))

  -- The input that an update builds for the set script has nothing to change exactly when the required attributes are the recorded ones, each
  -- optional one is the recorded one or not known in the plan, and the path is not known in the plan or
  -- is the recorded one up to slash style and case.
  pub no_changes_iff :
      (i : SetVmInput) × (build_set_input plan state ≡ some i)
      × ((set_input_has_changes i ≡ false)
          ↔ NoScalarChange plan state plan_cpu state_cpu plan_memory state_memory)
  no_changes_iff = (input, build_set_input-set_input, (no_changes-of, no_changes-to))
