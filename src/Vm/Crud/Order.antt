-- ===== src/Vm/Crud/Order.antt =====
-- The order of the calls, on a client that records each call and answers it with success.
use terraform_provider_hyper.Vm.Reconcile.{set_boot_order_input_for}
use terraform_provider_hyper.Vm.Slots.{
  attach_dvd_input_for, attach_input_for, attach_nic_input_for, detach_dvd_input_for,
  detach_input_for, detach_nic_input_for,
}
use terraform_provider_hyper.Vm.Model.{
  DvdDriveModel, HardDiskDriveModel, NetworkAdapterModel, BootOrderEntryModel,
}
use terraform_provider_hyper.Vm.Handlers.{
  attach_dvd_drives, attach_hard_disks, attach_network_adapters, detach_dvd_drives,
  detach_hard_disks, detach_network_adapters, transition_or_get, set_boot_order_if,
}
use terraform_provider_hyper.Vm.Effects.{Handler, for_each, Outcome, ◌>>◌, next}
use terraform_provider_hyper.Hyperv.Dto.{
  NewVmInput, Vm, SetVmInput, SetVmStateInput, SetBootOrderInput, AttachHardDiskInput,
  DetachHardDiskInput, AttachNetworkAdapterInput, DetachNetworkAdapterInput, AttachDvdDriveInput,
  DetachDvdDriveInput,
}
use terraform_provider_hyper.Hyperv.Client.{Result, Client, ok}
use terraform_provider_hyper.Common.{
  refl, [], none, some, ◌∷◌, ◌≡◌, true, false, ◌++◌, map, append_assoc, append-nil, List, String,
  ap, sym, ◌∙◌, Bool, Option,
}

pub data Event : Type 0 where
  new_vm_event : NewVmInput → Event
  get_vm_event remove_vm_event : String → Event
  set_vm_event : SetVmInput → Event
  set_vm_state_event : SetVmStateInput → Event
  set_boot_order_event : SetBootOrderInput → Event
  attach_hard_disk_event : AttachHardDiskInput → Event
  detach_hard_disk_event : DetachHardDiskInput → Event
  attach_network_adapter_event : AttachNetworkAdapterInput → Event
  detach_network_adapter_event : DetachNetworkAdapterInput → Event
  attach_dvd_drive_event : AttachDvdDriveInput → Event
  detach_dvd_drive_event : DetachDvdDriveInput → Event

abbrev pub Log : Type 0
Log = List Event

abbrev recorded_as : {A : Type 0} → A → Event → Log → Log × Result A
recorded_as a e h = (h ++ (e ∷ []), ok a)

abbrev pub recorder : Vm → Client Log
recorder v = record {
  new_vm = λ i. recorded_as v (new_vm_event i);
  get_vm = λ n. recorded_as v (get_vm_event n);
  set_vm = λ i. recorded_as v (set_vm_event i);
  remove_vm = λ n. recorded_as tt (remove_vm_event n);
  set_vm_state = λ i. recorded_as v (set_vm_state_event i);
  set_boot_order = λ i. recorded_as tt (set_boot_order_event i);
  attach_hard_disk = λ i. recorded_as tt (attach_hard_disk_event i);
  detach_hard_disk = λ i. recorded_as tt (detach_hard_disk_event i);
  attach_network_adapter = λ i. recorded_as tt (attach_network_adapter_event i);
  detach_network_adapter = λ i. recorded_as tt (detach_network_adapter_event i);
  attach_dvd_drive = λ i. recorded_as tt (attach_dvd_drive_event i);
  detach_dvd_drive = λ i. recorded_as tt (detach_dvd_drive_event i);
}

for_each-map :
    {A : Type 0} (f : A → Handler Log Unit) (ev : A → Event)
    → ((a : A) (h : Log) → f a h ≡ (h ++ (ev a ∷ []), Outcome.done tt))
    → (xs : List A) (h : Log) → for_each f xs h ≡ (h ++ map ev xs, Outcome.done tt)
unfolding for_each
for_each-map f ev hf [] h = ap (λ l. (l, Outcome.done tt)) (sym (append-nil h))
for_each-map f ev hf (x ∷ xs) h =
    ap (next (λ u. for_each f xs)) (hf x h)
    ∙ (for_each-map f ev hf xs (h ++ (ev x ∷ []))
        ∙ ap (λ l. (l, Outcome.done tt)) (append_assoc h (ev x ∷ []) (map ev xs)))

pub then-log :
    {B : Type 0} (m : Handler Log Unit) (k : Handler Log B) (a b : Log) (r : B)
    → ((h : Log) → m h ≡ (h ++ a, Outcome.done tt))
    → ((h : Log) → k h ≡ (h ++ b, Outcome.done r))
    → (h : Log) → (m >> k) h ≡ (h ++ (a ++ b), Outcome.done r)
then-log m k a b r hm hk h =
    ap (next (λ u. k)) (hm h) ∙ (hk (h ++ a) ∙ ap (λ l. (l, Outcome.done r)) (append_assoc h a b))

-- The calls that set the boot order, if it is to be set, and that make the power transition or read the
-- VM.
abbrev pub boot_events : Bool → String → List BootOrderEntryModel → Log
boot_events true n es = set_boot_order_event (set_boot_order_input_for n es) ∷ []
boot_events false n es = []

abbrev pub power_events : Option SetVmStateInput → String → Log
power_events (some i) n = set_vm_state_event i ∷ []
power_events none n = get_vm_event n ∷ []

pub boot-log :
    (v : Vm) (b : Bool) (n : String) (es : List BootOrderEntryModel) (h : Log)
    → set_boot_order_if (recorder v) b n es h ≡ (h ++ boot_events b n es, Outcome.done tt)
boot-log v true n es h = refl
boot-log v false n es h = ap (λ l. (l, Outcome.done tt)) (sym (append-nil h))

pub power-log :
    (v : Vm) (i : Option SetVmStateInput) (n summary : String) (h : Log)
    → transition_or_get (recorder v) i n summary h ≡ (h ++ power_events i n, Outcome.done v)
power-log v (some i) n summary h = refl
power-log v none n summary h = refl

module _ (v : Vm) (n : String) where
  abbrev pub attach_hard_disks_events : List HardDiskDriveModel → Log
  attach_hard_disks_events = map (λ x. attach_hard_disk_event (attach_input_for n x))

  pub attach_hard_disks-log :
      (xs : List HardDiskDriveModel) (h : Log)
      → attach_hard_disks (recorder v) n xs h ≡ (h ++ attach_hard_disks_events xs, Outcome.done tt)
  unfolding attach_hard_disks
  attach_hard_disks-log =
      for_each-map _ (λ x. attach_hard_disk_event (attach_input_for n x)) (λ x h. refl)

  abbrev pub detach_hard_disks_events : List HardDiskDriveModel → Log
  detach_hard_disks_events = map (λ x. detach_hard_disk_event (detach_input_for n x))

  pub detach_hard_disks-log :
      (xs : List HardDiskDriveModel) (h : Log)
      → detach_hard_disks (recorder v) n xs h ≡ (h ++ detach_hard_disks_events xs, Outcome.done tt)
  unfolding detach_hard_disks
  detach_hard_disks-log =
      for_each-map _ (λ x. detach_hard_disk_event (detach_input_for n x)) (λ x h. refl)

  abbrev pub attach_network_adapters_events : List NetworkAdapterModel → Log
  attach_network_adapters_events =
      map (λ x. attach_network_adapter_event (attach_nic_input_for n x))

  pub attach_network_adapters-log :
      (xs : List NetworkAdapterModel) (h : Log)
      → attach_network_adapters (recorder v) n xs h
        ≡ (h ++ attach_network_adapters_events xs, Outcome.done tt)
  unfolding attach_network_adapters
  attach_network_adapters-log =
      for_each-map _ (λ x. attach_network_adapter_event (attach_nic_input_for n x)) (λ x h. refl)

  abbrev pub detach_network_adapters_events : List NetworkAdapterModel → Log
  detach_network_adapters_events =
      map (λ x. detach_network_adapter_event (detach_nic_input_for n x))

  pub detach_network_adapters-log :
      (xs : List NetworkAdapterModel) (h : Log)
      → detach_network_adapters (recorder v) n xs h
        ≡ (h ++ detach_network_adapters_events xs, Outcome.done tt)
  unfolding detach_network_adapters
  detach_network_adapters-log =
      for_each-map _ (λ x. detach_network_adapter_event (detach_nic_input_for n x)) (λ x h. refl)

  abbrev pub attach_dvd_drives_events : List DvdDriveModel → Log
  attach_dvd_drives_events = map (λ x. attach_dvd_drive_event (attach_dvd_input_for n x))

  pub attach_dvd_drives-log :
      (xs : List DvdDriveModel) (h : Log)
      → attach_dvd_drives (recorder v) n xs h ≡ (h ++ attach_dvd_drives_events xs, Outcome.done tt)
  unfolding attach_dvd_drives
  attach_dvd_drives-log =
      for_each-map _ (λ x. attach_dvd_drive_event (attach_dvd_input_for n x)) (λ x h. refl)

  abbrev pub detach_dvd_drives_events : List DvdDriveModel → Log
  detach_dvd_drives_events = map (λ x. detach_dvd_drive_event (detach_dvd_input_for n x))

  pub detach_dvd_drives-log :
      (xs : List DvdDriveModel) (h : Log)
      → detach_dvd_drives (recorder v) n xs h ≡ (h ++ detach_dvd_drives_events xs, Outcome.done tt)
  unfolding detach_dvd_drives
  detach_dvd_drives-log =
      for_each-map _ (λ x. detach_dvd_drive_event (detach_dvd_input_for n x)) (λ x h. refl)
