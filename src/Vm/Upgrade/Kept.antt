-- ===== src/Vm/Upgrade/Kept.antt =====
-- The old state as it stands in the upgraded one.
use terraform_provider_hyper.Vm.Upgrade.{
  expand_prior_memory, expand_prior_nics, expand_prior_nics_v4, expand_prior_state,
  upgrade_v1_to_v2, PriorMemoryModelV1V2, PriorModelV1, PriorModelV2, PriorModelV3, PriorModelV4,
  PriorModelV5, PriorNetworkAdapterModelV1V2V3, PriorNetworkAdapterModelV4, PriorStateModelV1,
  upgrade_v2_to_v3, upgrade_v3_to_v5, upgrade_v4_to_v5, upgrade_v5_to_v6,
}
use terraform_provider_hyper.Vm.Model.{Model, NetworkAdapterModel, MemoryModel, StateModel}
use terraform_provider_hyper.Framework.{Attr, Slice, to_slice, of_slice, elements}
use terraform_provider_hyper.Common.{refl, none, some, [], ◌∷◌, ◌≡◌, List, Option, map, ap, ◌∙◌}

abbrev old_nic : NetworkAdapterModel → PriorNetworkAdapterModelV1V2V3
old_nic n = record { name = n.name; switch_name = n.switch_name }

abbrev old_nic_v4 : NetworkAdapterModel → PriorNetworkAdapterModelV4
old_nic_v4 n = record { name = n.name; switch_name = n.switch_name; ip_addresses = n.ip_addresses }

abbrev old_slice {ℓ} : {A B : Type ℓ} → (A → B) → Attr (List A) → Slice B
old_slice f Attr.null = none
old_slice f Attr.unknown = none
old_slice f (Attr.known xs) = some (map f xs)

abbrev old_memory : Option MemoryModel → Option PriorMemoryModelV1V2
old_memory none = none
old_memory (some m) = some (record { startup_bytes = m.startup_bytes })

abbrev old_state : Option StateModel → Option PriorStateModelV1
old_state none = none
old_state (some s) = some (record { desired = s.desired; current = s.current })

-- The current model cut down to an old version.
abbrev pub forget_v1 : Model → PriorModelV1
forget_v1 m = record {
  id = m.id;
  name = m.name;
  generation = m.generation;
  cpu = m.cpu;
  memory = old_memory m.memory;
  hard_disk_drives = to_slice m.hard_disk_drives;
  network_adapters = old_slice (λ n. old_nic n) m.network_adapters;
  dvd_drives = to_slice m.dvd_drives;
  boot_order = to_slice m.boot_order;
  secure_boot = m.secure_boot;
  notes = m.notes;
  state = old_state m.state;
  ip_addresses = m.ip_addresses;
  path = m.path;
}

abbrev pub forget_v2 : Model → PriorModelV2
forget_v2 m = record {
  id = m.id;
  name = m.name;
  generation = m.generation;
  cpu = m.cpu;
  memory = old_memory m.memory;
  hard_disk_drives = to_slice m.hard_disk_drives;
  network_adapters = old_slice (λ n. old_nic n) m.network_adapters;
  dvd_drives = to_slice m.dvd_drives;
  boot_order = to_slice m.boot_order;
  secure_boot = m.secure_boot;
  notes = m.notes;
  state = m.state;
  ip_addresses = m.ip_addresses;
  path = m.path;
}

abbrev pub forget_v3 : Model → PriorModelV3
forget_v3 m = record {
  id = m.id;
  name = m.name;
  generation = m.generation;
  cpu = m.cpu;
  memory = m.memory;
  hard_disk_drives = to_slice m.hard_disk_drives;
  network_adapters = old_slice (λ n. old_nic n) m.network_adapters;
  dvd_drives = to_slice m.dvd_drives;
  boot_order = to_slice m.boot_order;
  secure_boot = m.secure_boot;
  notes = m.notes;
  state = m.state;
  ip_addresses = m.ip_addresses;
  path = m.path;
}

abbrev pub forget_v4 : Model → PriorModelV4
forget_v4 m = record {
  id = m.id;
  name = m.name;
  generation = m.generation;
  cpu = m.cpu;
  memory = m.memory;
  hard_disk_drives = to_slice m.hard_disk_drives;
  network_adapters = old_slice (λ n. old_nic_v4 n) m.network_adapters;
  dvd_drives = to_slice m.dvd_drives;
  boot_order = to_slice m.boot_order;
  secure_boot = m.secure_boot;
  notes = m.notes;
  state = m.state;
  ip_addresses = m.ip_addresses;
  path = m.path;
}

abbrev pub forget_v5 : Model → PriorModelV5
forget_v5 m = record {
  id = m.id;
  name = m.name;
  generation = m.generation;
  cpu = m.cpu;
  memory = m.memory;
  hard_disk_drives = m.hard_disk_drives;
  network_adapters = m.network_adapters;
  dvd_drives = m.dvd_drives;
  boot_order = m.boot_order;
  secure_boot = m.secure_boot;
  secure_boot_template = m.secure_boot_template;
  notes = m.notes;
  state = m.state;
  ip_addresses = m.ip_addresses;
  path = m.path;
}

to_slice-of_slice {ℓ} : {A : Type ℓ} (xs : Slice A) → to_slice (of_slice xs) ≡ xs
to_slice-of_slice none = λ i. none
to_slice-of_slice (some xs) = λ i. some xs

old_new_memory : (m : Option PriorMemoryModelV1V2) → old_memory (expand_prior_memory m) ≡ m
unfolding expand_prior_memory
old_new_memory none = refl
old_new_memory (some m) = refl

old_new_state : (s : Option PriorStateModelV1) → old_state (expand_prior_state s) ≡ s
unfolding expand_prior_state
old_new_state none = refl
old_new_state (some s) = refl

map-inverse {ℓ} :
    {A B : Type ℓ} (f : A → B) (g : B → A) (h : (a : A) → g (f a) ≡ a) (xs : List A)
    → map g (map f xs) ≡ xs
map-inverse f g h [] = λ i. []
map-inverse f g h (x ∷ xs) =
    ap (λ y. y ∷ map g (map f xs)) (h x) ∙ ap (λ ys. x ∷ ys) (map-inverse f g h xs)

old_new_nics :
    (xs : Slice PriorNetworkAdapterModelV1V2V3)
    → old_slice (λ n. old_nic n) (of_slice (expand_prior_nics xs)) ≡ some (elements xs)
unfolding expand_prior_nics
old_new_nics xs = ap some (map-inverse _ (λ n. old_nic n) (λ n. refl) (elements xs))

old_new_nics_v4 :
    (xs : Slice PriorNetworkAdapterModelV4)
    → old_slice (λ n. old_nic_v4 n) (of_slice (expand_prior_nics_v4 xs)) ≡ some (elements xs)
unfolding expand_prior_nics_v4
old_new_nics_v4 xs = ap some (map-inverse _ (λ n. old_nic_v4 n) (λ n. refl) (elements xs))

-- A state upgraded from any version from 1 to 5 still has everything that the old version recorded: cut
-- down to that version it is the old state, except that a missing list of network adapters of versions 1
-- to 4 has become an empty one.
pub upgrade-keeps_all :
    (p1 : PriorModelV1) (p2 : PriorModelV2) (p3 : PriorModelV3) (p4 : PriorModelV4)
    (p5 : PriorModelV5)
    → (forget_v1 (upgrade_v1_to_v2 p1)
        ≡ record p1 { network_adapters = some (elements p1.network_adapters) })
      × (forget_v2 (upgrade_v2_to_v3 p2)
          ≡ record p2 { network_adapters = some (elements p2.network_adapters) })
      × (forget_v3 (upgrade_v3_to_v5 p3)
          ≡ record p3 { network_adapters = some (elements p3.network_adapters) })
      × (forget_v4 (upgrade_v4_to_v5 p4)
          ≡ record p4 { network_adapters = some (elements p4.network_adapters) })
      × (forget_v5 (upgrade_v5_to_v6 p5) ≡ p5)
unfolding upgrade_v1_to_v2 upgrade_v2_to_v3 upgrade_v3_to_v5 upgrade_v4_to_v5 upgrade_v5_to_v6
upgrade-keeps_all p1 p2 p3 p4 p5 = (
  rw (
    to_slice-of_slice p1.hard_disk_drives,
    to_slice-of_slice p1.dvd_drives,
    to_slice-of_slice p1.boot_order,
    old_new_memory p1.memory,
    old_new_state p1.state,
    old_new_nics p1.network_adapters,
  ),
  rw (
    to_slice-of_slice p2.hard_disk_drives,
    to_slice-of_slice p2.dvd_drives,
    to_slice-of_slice p2.boot_order,
    old_new_memory p2.memory,
    old_new_nics p2.network_adapters,
  ),
  rw (
    to_slice-of_slice p3.hard_disk_drives,
    to_slice-of_slice p3.dvd_drives,
    to_slice-of_slice p3.boot_order,
    old_new_nics p3.network_adapters,
  ),
  rw (
    to_slice-of_slice p4.hard_disk_drives,
    to_slice-of_slice p4.dvd_drives,
    to_slice-of_slice p4.boot_order,
    old_new_nics_v4 p4.network_adapters,
  ),
  refl,
)
