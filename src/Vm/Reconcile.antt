-- ===== src/Vm/Reconcile.antt =====
-- The reconciliations of internal/resources/vm/resource.go: which of the plan's and the host's values
-- go to state, for the memory and state blocks and for the boot order; and when an update must call
-- SetBootOrder or SetVMState.
pub mod BootOrder
pub mod Kept
pub mod Blocks
use terraform_provider_hyper.Common.{
  ℕ, String, ◌≡◌, Bool, true, false, ◌&&◌, ◌||◌, not, Option, none, some, List, [], ◌∷◌, map, arith,
  ◌==◌, if◌then◌else◌, length, nat_eq,
}
use terraform_provider_hyper.Common.Int.{ℤ, pos, eq_ℤ}
use terraform_provider_hyper.Framework.{
  Attr, null, known, is_null, is_unknown, is_known, value_string, value_int64, Slice, elements,
  to_slice, of_slice,
}
use terraform_provider_hyper.Hyperv.Dto.{SetBootOrderEntryInput, SetBootOrderInput}
use terraform_provider_hyper.Vm.Model.{
  Model, MemoryModel, StateModel, BootOrderEntryModel, boot_order_list_from_slice,
}

-- An explicit null in the configuration wins over the host's value.
abbrev pub null_wins {ℓ} : {A : Type ℓ} → Attr A → Attr A → Attr A
null_wins plan host = if is_null plan then null else host

unfoldable pub reconcile_memory_block : Option MemoryModel → Option MemoryModel → Option MemoryModel
reconcile_memory_block plan none = plan
reconcile_memory_block none (some host) = some host
reconcile_memory_block (some plan) (some host) = some (record {
  startup_bytes = host.startup_bytes;
  dynamic = null_wins plan.dynamic host.dynamic;
  min_bytes = null_wins plan.min_bytes host.min_bytes;
  max_bytes = null_wins plan.max_bytes host.max_bytes;
})

abbrev pub unknown_to_null {ℓ} : {A : Type ℓ} → Attr A → Attr A
unknown_to_null a = if is_unknown a then null else a

unfoldable pub reconcile_state_block : Option StateModel → Option StateModel → Option StateModel
reconcile_state_block none host = none
reconcile_state_block (some plan) none = some (record {
  desired = plan.desired;
  current = null;
  shutdown_mode = unknown_to_null plan.shutdown_mode;
})
reconcile_state_block (some plan) (some host) = some (record {
  desired = plan.desired;
  current = host.current;
  shutdown_mode = unknown_to_null plan.shutdown_mode;
})

-- A null, unknown or empty controller type means SCSI.
unfoldable pub controller_type_or_scsi : Attr String → String
controller_type_or_scsi t =
    if is_null t || is_unknown t
    then "SCSI"
    else if value_string t == ""
    then "SCSI"
    else value_string t

unfoldable pub boot_order_entry_equals : BootOrderEntryModel → BootOrderEntryModel → Bool
unfolding controller_type_or_scsi
boot_order_entry_equals a b =
    if is_unknown a.type || is_unknown b.type
    then false
    else if not (value_string a.type == value_string b.type)
    then false
    else if value_string a.type == "hard_disk_drive" || value_string a.type == "dvd_drive"
    then controller_type_or_scsi a.controller_type == controller_type_or_scsi b.controller_type
      && (eq_ℤ (value_int64 a.controller_number) (value_int64 b.controller_number)
          && eq_ℤ (value_int64 a.controller_location) (value_int64 b.controller_location))
    else if value_string a.type == "network_adapter"
    then value_string a.name == value_string b.name
    else false

unfoldable pub equals_pairwise : List BootOrderEntryModel → List BootOrderEntryModel → Bool
unfolding boot_order_entry_equals
equals_pairwise [] bs = true
equals_pairwise (a ∷ as') [] = true
equals_pairwise (a ∷ as') (b ∷ bs) =
    let rest = equals_pairwise as' bs in if not (boot_order_entry_equals a b) then false else rest

unfoldable pub boot_order_semantic_equals :
    List BootOrderEntryModel → List BootOrderEntryModel → Bool
unfolding equals_pairwise
boot_order_semantic_equals as' bs =
    if not (nat_eq (length as') (length bs)) then false else equals_pairwise as' bs

unfoldable pub should_apply_boot_order : Slice BootOrderEntryModel → Bool
should_apply_boot_order none = false
should_apply_boot_order (some []) = false
should_apply_boot_order (some (e ∷ es)) = true

-- The inner loop with its break: some planned entry is the host's.
unfoldable pub is_planned : BootOrderEntryModel → List BootOrderEntryModel → Bool
is_planned h [] = false
is_planned h (p ∷ ps) =
    let rest = is_planned h ps in if boot_order_entry_equals h p then true else rest

unfoldable pub keep_planned :
    List BootOrderEntryModel → List BootOrderEntryModel → List BootOrderEntryModel
unfolding is_planned
keep_planned plan [] = []
keep_planned plan (h ∷ hs) =
    let rest = keep_planned plan hs in if is_planned h plan then h ∷ rest else rest

unfoldable pub reconcile_boot_order_state :
    Slice BootOrderEntryModel → Slice BootOrderEntryModel → Slice BootOrderEntryModel
unfolding should_apply_boot_order keep_planned
reconcile_boot_order_state plan host =
    if not (should_apply_boot_order plan)
    then plan
    else some (keep_planned (elements plan) (elements host))

-- The model's boot order, reconciled with the one of the plan or of the prior state.
unfoldable pub reconcile_boot_order_in_state : Model → Attr (List BootOrderEntryModel) → Model
unfolding reconcile_boot_order_state
reconcile_boot_order_in_state m prior = record m {
  boot_order =
      boot_order_list_from_slice
        (reconcile_boot_order_state (to_slice prior) (to_slice m.boot_order));
}

unfoldable pub should_apply_state : Option StateModel → Bool
should_apply_state none = false
should_apply_state (some s) = is_known s.desired

unfoldable pub state_desired_changed : Option StateModel → Option StateModel → Bool
state_desired_changed none state = false
state_desired_changed (some plan) none = is_known plan.desired
state_desired_changed (some plan) (some state) =
    if not (is_known plan.desired)
    then false
    else if not (is_known state.current)
    then true
    else not (value_string plan.desired == value_string state.current)

abbrev boot_order_entry_input : BootOrderEntryModel → SetBootOrderEntryInput
boot_order_entry_input e =
    if value_string e.type == "hard_disk_drive" || value_string e.type == "dvd_drive"
    then record {
      type = value_string e.type;
      controller_type =
          if is_null e.controller_type
            || (is_unknown e.controller_type || value_string e.controller_type == "")
          then "SCSI"
          else value_string e.controller_type;
      controller_number = value_int64 e.controller_number;
      controller_location = value_int64 e.controller_location;
      name = "";
    }
    else if value_string e.type == "network_adapter"
    then record {
      type = value_string e.type;
      controller_type = "";
      controller_number = pos 0;
      controller_location = pos 0;
      name = value_string e.name;
    }
    else record {
      type = value_string e.type;
      controller_type = "";
      controller_number = pos 0;
      controller_location = pos 0;
      name = "";
    }

unfoldable pub set_boot_order_input_for : String → List BootOrderEntryModel → SetBootOrderInput
set_boot_order_input_for vm_name entries = record {
  name = vm_name;
  boot_order = map (λ e. boot_order_entry_input e) entries;
}
