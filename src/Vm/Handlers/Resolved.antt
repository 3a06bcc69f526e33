-- ===== src/Vm/Handlers/Resolved.antt =====
-- Unknown values, and the state that Create, Read and Update write.
use terraform_provider_hyper.Vm.Model.Resolved.{
  AdapterResolved, DiskResolved, DvdResolved, EntryResolved, MemoryResolved, desired_state,
  AllResolved, ModelResolved, StateResolved,
}
use terraform_provider_hyper.Common.Sort.{Sorter}
use terraform_provider_hyper.Hyperv.Dto.{
  BootOrderEntry, DvdDrive, HardDiskDrive, NetworkAdapter, Vm,
}
use terraform_provider_hyper.Vm.Handlers.{reconciled}
use terraform_provider_hyper.Vm.Hydrate.{
  known_or_null, nonempty_or_null, boot_order_entry_model, dvd_drive_model, hard_disk_model,
  memory_model_from_vm, network_adapter_model, model_from_vm,
}
use terraform_provider_hyper.Vm.Reconcile.{
  keep_planned, null_wins, unknown_to_null, is_planned, reconcile_boot_order_state,
  reconcile_memory_block, reconcile_state_block, reconcile_boot_order_in_state,
  should_apply_boot_order,
}
use terraform_provider_hyper.Vm.Model.{BootOrderEntryModel, Model, MemoryModel, StateModel}
use terraform_provider_hyper.Framework.{Attr, IsResolved, Slice, of_slice, to_slice}
use terraform_provider_hyper.Common.{
  refl, none, some, [], ◌∷◌, ◌≡◌, true, false, map, List, Option, String, All, Bool, arith,
  if◌then◌else◌, Bool-cases, ◌==◌, ◌||◌, inl, inr,
}

nonempty-IsResolved : (s : String) → IsResolved (nonempty_or_null s)
nonempty-IsResolved s = ground arith

option-IsResolved : {A : Type 0} (o : Option A) → IsResolved (known_or_null o)
option-IsResolved none = tt
option-IsResolved (some a) = tt

null_wins-IsResolved : {A : Type 0} (p h : Attr A) → IsResolved h → IsResolved (null_wins p h)
null_wins-IsResolved Attr.null h r = tt
null_wins-IsResolved Attr.unknown h r = r
null_wins-IsResolved (Attr.known a) h r = r

to_null-IsResolved : {A : Type 0} (p : Attr A) → IsResolved (unknown_to_null p)
to_null-IsResolved Attr.null = tt
to_null-IsResolved Attr.unknown = tt
to_null-IsResolved (Attr.known a) = tt

All-map :
    {A B : Type 0} (P : B → Type 0) (f : A → B) (h : (a : A) → P (f a)) (xs : List A)
    → All P (map f xs)
All-map P f h [] = tt
All-map P f h (x ∷ xs) = (h x, All-map P f h xs)

All-if :
    (P : BootOrderEntryModel → Type 0) (b : Bool) (x : BootOrderEntryModel)
    (xs : List BootOrderEntryModel)
    → P x
    → All P xs
    → All P (if b then x ∷ xs else xs)
All-if P true x xs hx h = (hx, h)
All-if P false x xs hx h = h

All-keep_planned :
    (P : BootOrderEntryModel → Type 0) (ps hs : List BootOrderEntryModel)
    → All P hs
    → All P (keep_planned ps hs)
unfolding keep_planned
All-keep_planned P ps [] h = tt
All-keep_planned P ps (x ∷ hs) (hx, h) =
    All-if P (is_planned x ps) x (keep_planned ps hs) hx (All-keep_planned P ps hs h)

boot_order-resolved :
    (plan : Slice BootOrderEntryModel) (hs : List BootOrderEntryModel)
    → All EntryResolved hs
    → AllResolved EntryResolved (of_slice (reconcile_boot_order_state plan (some hs)))
unfolding reconcile_boot_order_state should_apply_boot_order
boot_order-resolved none hs h = tt
boot_order-resolved (some []) hs h = tt
boot_order-resolved (some (p ∷ ps)) hs h = All-keep_planned EntryResolved (p ∷ ps) hs h

memory-resolved :
    (plan host : Option MemoryModel)
    → MemoryResolved host
    → (m : MemoryModel) → host ≡ some m
    → MemoryResolved (reconcile_memory_block plan host)
unfolding reconcile_memory_block
memory-resolved plan none h m q = absurd (ground (arith, q))
memory-resolved none (some host) h m q = h
memory-resolved (some plan) (some host) (a, b, c, d) m q = (
  a,
  null_wins-IsResolved plan.dynamic host.dynamic b,
  null_wins-IsResolved plan.min_bytes host.min_bytes c,
  null_wins-IsResolved plan.max_bytes host.max_bytes d,
)

power-resolved :
    (plan host : Option StateModel)
    → IsResolved (desired_state plan)
    → StateResolved host
    → StateResolved (reconcile_state_block plan host)
unfolding reconcile_state_block
power-resolved none host r h = tt
power-resolved (some plan) none r h = (r, tt, to_null-IsResolved plan.shutdown_mode)
power-resolved (some plan) (some host) r (a, b, c) = (r, b, to_null-IsResolved plan.shutdown_mode)

disk-resolved : (d : HardDiskDrive) → DiskResolved (hard_disk_model d)
unfolding hard_disk_model
disk-resolved d = (tt, tt, tt, tt)

adapter-resolved : (n : NetworkAdapter) → AdapterResolved (network_adapter_model n)
unfolding network_adapter_model
adapter-resolved n = (tt, tt, tt, nonempty-IsResolved n.mac_address, ground arith)

dvd-resolved : (d : DvdDrive) → DvdResolved (dvd_drive_model d)
unfolding dvd_drive_model
dvd-resolved d = (nonempty-IsResolved d.path, tt, tt, tt)

entry-resolved : (e : BootOrderEntry) → EntryResolved (boot_order_entry_model e)
unfolding boot_order_entry_model
entry-resolved e = elim (Bool-cases (e.type == "hard_disk_drive" || e.type == "dvd_drive")) [
  | inl p ↦ rw p (tt, tt, tt, tt, tt)
  | inr p ↦ elim (Bool-cases (e.type == "network_adapter")) [
    | inl q ↦ rw (p, q) (tt, tt, tt, tt, tt)
    | inr q ↦ rw (p, q) (tt, tt, tt, tt, tt)
  ]
]

host_memory-resolved : (v : Vm) → MemoryResolved (some (memory_model_from_vm v))
unfolding memory_model_from_vm
host_memory-resolved v =
    (tt, tt, option-IsResolved v.memory_minimum_bytes, option-IsResolved v.memory_maximum_bytes)

-- What Create, Read and Update write to state has no unknown value anywhere, if the desired power state
-- and the wait's timeout of the plan (of the prior state, in Read) are not unknown; its other values may
-- be unknown.
pub reconciled-ModelResolved :
    ⦃s : Sorter⦄
    → (prior : Model) (v : Vm) → IsResolved (desired_state prior.state)
    → IsResolved prior.wait_for_guest_ip_timeout
    → ModelResolved (reconciled prior v)
unfolding reconciled reconcile_boot_order_in_state model_from_vm
reconciled-ModelResolved ⦃s⦄ prior v hd hw = record {
  id = tt;
  vm_id = tt;
  name = tt;
  generation = tt;
  cpu = tt;
  memory =
      memory-resolved prior.memory (some (memory_model_from_vm v)) (host_memory-resolved v)
        (memory_model_from_vm v) refl;
  hard_disk_drives = All-map DiskResolved (λ h. hard_disk_model h) disk-resolved _;
  network_adapters = All-map AdapterResolved (λ n. network_adapter_model n) adapter-resolved _;
  dvd_drives = All-map DvdResolved (λ d. dvd_drive_model d) dvd-resolved _;
  boot_order =
      boot_order-resolved (to_slice prior.boot_order)
        (map (λ e. boot_order_entry_model e) v.boot_order)
        (All-map EntryResolved (λ e. boot_order_entry_model e) entry-resolved v.boot_order);
  secure_boot = option-IsResolved v.secure_boot_enabled;
  secure_boot_template = nonempty-IsResolved v.secure_boot_template;
  notes = nonempty-IsResolved v.notes;
  state = power-resolved prior.state _ hd (tt, tt, tt);
  ip_addresses = tt;
  path = tt;
  wait_for_guest_ip_timeout = hw;
}
