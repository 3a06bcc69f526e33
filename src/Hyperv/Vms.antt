-- ===== src/Hyperv/Vms.antt =====
-- internal/hyperv/vm.go, with the JSON tags of the VM part of types.go, and netnat.go: the operations
-- on VMs over the script runner, which fill the interface of Hyperv/Client. The decoders of the scripts'
-- output are parameters.
use terraform_provider_hyper.Common.{
  ℕ, String, List, [], ◌∷◌, ◌++◌, map, Option, none, some, ◌==◌, if◌then◌else◌,
}
use terraform_provider_hyper.Common.Int.{ℤ, pos, eq_ℤ}
use terraform_provider_hyper.Hyperv.Client.{Result, ok, failed, Call, Client}
use terraform_provider_hyper.Hyperv.Dto.{
  Vm, NewVmInput, SetVmInput, SetVmStateInput, SetBootOrderInput, SetBootOrderEntryInput,
  AttachHardDiskInput, DetachHardDiskInput, AttachNetworkAdapterInput, DetachNetworkAdapterInput,
  AttachDvdDriveInput, DetachDvdDriveInput,
}
use terraform_provider_hyper.Hyperv.Script.{
  Payload, Value, Scalar, Backend, load, run_script, run_read_script, run_command, plain,
}
use terraform_provider_hyper.Hyperv.Session.{Op, Hold, lift, holding_nat}

pub record VmName : Type 0 where
  pub name : String

pub record VmDecoder : Type 0 where
  pub vm : List ℕ → Option Vm
  pub vm_names : List ℕ → Option (List VmName)
  pub removed : List ℕ → Option (List String)

-- `omitempty` on a pointer.
abbrev optional : {A : Type 0} → (A → Value) → String → Option A → Payload
optional value key none = []
optional value key (some a) = (key, value a) ∷ []

-- `omitempty` on a string and on an int.
abbrev optional_text : String → String → Payload
optional_text key s = if s == "" then [] else (key, Value.text s) ∷ []

abbrev optional_number : String → ℤ → Payload
optional_number key z = if eq_ℤ z (pos 0) then [] else (key, Value.number z) ∷ []

abbrev pub new_payload : NewVmInput → Payload
new_payload in' =
    ("name", Value.text in'.name)
      ∷ ("generation", Value.number in'.generation)
      ∷ ("vcpu", Value.number in'.vcpu)
      ∷ ("memory_bytes", Value.number in'.memory_bytes)
      ∷ optional Value.flag "dynamic_memory" in'.dynamic_memory
    ++ optional Value.number "min_memory_bytes" in'.min_memory_bytes
    ++ optional Value.number "max_memory_bytes" in'.max_memory_bytes
    ++ optional Value.flag "secure_boot" in'.secure_boot
    ++ optional Value.text "secure_boot_template" in'.secure_boot_template
    ++ optional Value.text "notes" in'.notes
    ++ optional Value.text "path" in'.path

abbrev pub set_payload : SetVmInput → Payload
set_payload in' =
    ("name", Value.text in'.name)
      ∷ ("generation", Value.number in'.generation)
      ∷ optional Value.number "vcpu" in'.vcpu
    ++ optional Value.number "memory_bytes" in'.memory_bytes
    ++ optional Value.flag "dynamic_memory" in'.dynamic_memory
    ++ optional Value.number "min_memory_bytes" in'.min_memory_bytes
    ++ optional Value.number "max_memory_bytes" in'.max_memory_bytes
    ++ optional Value.flag "secure_boot" in'.secure_boot
    ++ optional Value.text "notes" in'.notes
    ++ optional Value.text "path" in'.path

abbrev state_payload : SetVmStateInput → Payload
state_payload in' =
    ("name", Value.text in'.name)
    ∷ ("desired", Value.text in'.desired)
    ∷ optional_text "shutdown_mode" in'.shutdown_mode

abbrev slot_payload : String → String → ℤ → ℤ → Payload
slot_payload name kind number location =
    ("name", Value.text name)
    ∷ ("controller_type", Value.text kind)
    ∷ ("controller_number", Value.number number)
    ∷ ("controller_location", Value.number location)
    ∷ []

abbrev attach_disk_payload : AttachHardDiskInput → Payload
attach_disk_payload in' =
    slot_payload in'.name in'.controller_type in'.controller_number in'.controller_location
    ++ ("path", Value.text in'.path) ∷ []

abbrev detach_disk_payload : DetachHardDiskInput → Payload
detach_disk_payload in' =
    slot_payload in'.name in'.controller_type in'.controller_number in'.controller_location

abbrev attach_adapter_payload : AttachNetworkAdapterInput → Payload
attach_adapter_payload in' =
    ("name", Value.text in'.name)
      ∷ ("vm_name", Value.text in'.vm_name)
      ∷ ("switch_name", Value.text in'.switch_name)
      ∷ optional_text "mac_address" in'.mac_address
    ++ optional_number "vlan_id" in'.vlan_id

abbrev detach_adapter_payload : DetachNetworkAdapterInput → Payload
detach_adapter_payload in' =
    ("name", Value.text in'.name) ∷ ("vm_name", Value.text in'.vm_name) ∷ []

abbrev attach_dvd_payload : AttachDvdDriveInput → Payload
attach_dvd_payload in' =
    slot_payload in'.name in'.controller_type in'.controller_number in'.controller_location
    ++ optional Value.text "iso_path" in'.iso_path

abbrev detach_dvd_payload : DetachDvdDriveInput → Payload
detach_dvd_payload in' =
    slot_payload in'.name in'.controller_type in'.controller_number in'.controller_location

abbrev entry_payload : SetBootOrderEntryInput → List (String × Scalar)
entry_payload e =
    ("type", Scalar.text e.type)
    ∷ ("controller_type", Scalar.text e.controller_type)
    ∷ ("controller_number", Scalar.number e.controller_number)
    ∷ ("controller_location", Scalar.number e.controller_location)
    ∷ ("name", Scalar.text e.name)
    ∷ []

abbrev boot_order_payload : SetBootOrderInput → Payload
boot_order_payload in' =
    ("name", Value.text in'.name)
    ∷ ("boot_order", Value.objects (map entry_payload in'.boot_order))
    ∷ []

abbrev done : Result (List ℕ) → Result Unit
done (ok out) = ok tt
done (failed e) = failed e

module _ {ℓ} {H : Type ℓ} (b : Backend H) (d : VmDecoder) where
  -- loadVMReadEmitter: the helpers that emit a VM, and the script after them.
  unfoldable pub load_vm_read_emitter : {A : Type 0} → String → (List ℕ → Call H A) → Call H A
  unfolding load
  load_vm_read_emitter verb k =
      load b "vm" verb (λ body. load b "vm" "read-result" (λ rr. k (rr ++ 10 ∷ body)))

  -- A script whose output nobody reads.
  abbrev run_quiet : String → Payload → Call H Unit
  run_quiet verb stdin =
      load b "vm" verb (λ body h. let (h', r) = run_command b none body stdin h in (h', done r))

  unfoldable pub get_vm : String → Call H Vm
  unfolding load_vm_read_emitter
  get_vm name =
      load_vm_read_emitter "get"
        (λ body. run_read_script b d.vm body (("name", Value.text name) ∷ []))

  unfoldable pub new_vm : NewVmInput → Call H Vm
  unfolding load_vm_read_emitter
  new_vm in' = load_vm_read_emitter "new" (λ body. run_script b none d.vm body (new_payload in'))

  unfoldable pub set_vm : SetVmInput → Call H Vm
  unfolding load_vm_read_emitter
  set_vm in' = load_vm_read_emitter "set" (λ body. run_script b none d.vm body (set_payload in'))

  unfoldable pub set_vm_state : SetVmStateInput → Call H Vm
  unfolding load_vm_read_emitter
  set_vm_state in' =
      load_vm_read_emitter "set-state" (λ body. run_script b none d.vm body (state_payload in'))

  unfoldable pub remove_vm : String → Call H Unit
  remove_vm name = run_quiet "remove" (("name", Value.text name) ∷ [])

  unfoldable pub list_vms_by_prefix : String → Call H (List VmName)
  list_vms_by_prefix prefix =
      load b "vm" "list"
        (λ body. run_read_script b d.vm_names body (("name_prefix", Value.text prefix) ∷ []))

  unfoldable pub attach_hard_disk : AttachHardDiskInput → Call H Unit
  attach_hard_disk in' = run_quiet "add-hard-disk-drive" (attach_disk_payload in')

  unfoldable pub detach_hard_disk : DetachHardDiskInput → Call H Unit
  detach_hard_disk in' = run_quiet "remove-hard-disk-drive" (detach_disk_payload in')

  unfoldable pub attach_network_adapter : AttachNetworkAdapterInput → Call H Unit
  attach_network_adapter in' = run_quiet "add-network-adapter" (attach_adapter_payload in')

  unfoldable pub detach_network_adapter : DetachNetworkAdapterInput → Call H Unit
  detach_network_adapter in' = run_quiet "remove-network-adapter" (detach_adapter_payload in')

  unfoldable pub attach_dvd_drive : AttachDvdDriveInput → Call H Unit
  attach_dvd_drive in' = run_quiet "add-dvd-drive" (attach_dvd_payload in')

  unfoldable pub detach_dvd_drive : DetachDvdDriveInput → Call H Unit
  detach_dvd_drive in' = run_quiet "remove-dvd-drive" (detach_dvd_payload in')

  unfoldable pub set_boot_order : SetBootOrderInput → Call H Unit
  set_boot_order in' = run_quiet "set-boot-order" (boot_order_payload in')

  -- SweepNetNats.
  unfoldable pub sweep_net_nats : String → Op H (List String)
  unfolding holding_nat
  sweep_net_nats prefix s = elim (b.scripts.script "netnat" "sweep") [
    | none ↦ some (s, failed plain)
    | some body ↦
        holding_nat Hold.writing
          (lift (run_script b none d.removed body (("name_prefix", Value.text prefix) ∷ []))) s
  ]

  -- The client that the VM resource calls.
  unfoldable pub vm_client : Client H
  vm_client = record {
    new_vm = new_vm;
    get_vm = get_vm;
    set_vm = set_vm;
    remove_vm = remove_vm;
    set_vm_state = set_vm_state;
    set_boot_order = set_boot_order;
    attach_hard_disk = attach_hard_disk;
    detach_hard_disk = detach_hard_disk;
    attach_network_adapter = attach_network_adapter;
    detach_network_adapter = detach_network_adapter;
    attach_dvd_drive = attach_dvd_drive;
    detach_dvd_drive = detach_dvd_drive;
  }
