-- ===== src/Vm/Fixtures.antt =====
-- Test data: a host whose state is a clock, and a plan for one VM on it.
use terraform_provider_hyper.Hyperv.Errors.{Sentinel}
use terraform_provider_hyper.Framework.{known, null, unknown}
use terraform_provider_hyper.Common.Int.{pos}
use terraform_provider_hyper.Common.Assoc.{as_listed}
use terraform_provider_hyper.Hyperv.Clock.{Clock}
use terraform_provider_hyper.Vm.Wait.{Text}
use terraform_provider_hyper.Vm.Model.{
  BootOrderEntryModel, CpuModel, DvdDriveModel, HardDiskDriveModel, MemoryModel, Model,
  NetworkAdapterModel,
}
use terraform_provider_hyper.Vm.Crud.{MapOrders}
use terraform_provider_hyper.Hyperv.Dto.{Vm}
use terraform_provider_hyper.Hyperv.Client.{Client, ok, failed}
use terraform_provider_hyper.Common.{none, some, true, false, [], ◌∷◌, arith, ℕ, ◌+◌}

abbrev pub disk_model : HardDiskDriveModel
disk_model = record {
  path = known "C:/vms/disk.vhdx";
  controller_type = known "SCSI";
  controller_number = known (pos 0);
  controller_location = known (pos 0);
}

abbrev pub nic_model : NetworkAdapterModel
nic_model = record {
  name = known "lan";
  switch_name = known "external";
  ip_addresses = null;
  mac_address = null;
  vlan_id = known (pos 7);
}

abbrev pub dvd_model : DvdDriveModel
dvd_model = record {
  iso_path = known "C:/iso/seed.iso";
  controller_type = null;
  controller_number = known (pos 0);
  controller_location = known (pos 1);
}

abbrev pub boot_from_disk : BootOrderEntryModel
boot_from_disk = record {
  type = known "hard_disk_drive";
  controller_type = null;
  controller_number = known (pos 0);
  controller_location = known (pos 0);
  name = null;
}

abbrev pub one_cpu : CpuModel
one_cpu = record { count = known (pos 1) }

abbrev pub static_memory : MemoryModel
static_memory = record {
  startup_bytes = known (pos 1024);
  dynamic = known true;
  min_bytes = null;
  max_bytes = unknown;
}

abbrev pub more_memory : MemoryModel
more_memory = record {
  startup_bytes = known (pos 2048);
  dynamic = known true;
  min_bytes = null;
  max_bytes = unknown;
}

abbrev pub with_memory : MemoryModel → Model
with_memory memory = record {
  id = known "web";
  vm_id = null;
  name = known "web";
  generation = known (pos 2);
  cpu = some one_cpu;
  memory = some memory;
  hard_disk_drives = known (disk_model ∷ []);
  network_adapters = known (nic_model ∷ []);
  dvd_drives = known (dvd_model ∷ []);
  boot_order = known (boot_from_disk ∷ []);
  secure_boot = null;
  secure_boot_template = null;
  notes = null;
  state =
      some (record { desired = known "Running"; current = known "Running"; shutdown_mode = null });
  ip_addresses = null;
  path = known "C:/vms/web";
  wait_for_guest_ip_timeout = known "5s";
}

abbrev pub recorded : Model
recorded = with_memory static_memory

abbrev pub planned : Model
planned = with_memory more_memory

abbrev pub running_vm : Vm
running_vm = record {
  name = "web";
  id = "guid";
  generation = pos 2;
  processor_count = pos 1;
  memory_startup_bytes = pos 1024;
  memory_assigned_bytes = pos 1024;
  memory_dynamic_enabled = true;
  memory_minimum_bytes = some (pos 512);
  memory_maximum_bytes = none;
  state = "Running";
  notes = "";
  path = "C:/vms/web";
  secure_boot_enabled = some true;
  secure_boot_template = "";
  hard_disk_drives = [];
  network_adapters = [];
  dvd_drives = [];
  boot_order =
      record {
        type = "hard_disk_drive";
        controller_type = "SCSI";
        controller_number = pos 0;
        controller_location = pos 0;
        name = "";
      }
      ∷ record {
        type = "network_adapter";
        controller_type = "";
        controller_number = pos 0;
        controller_location = pos 0;
        name = "lan";
      }
      ∷ [];
}

-- Every call takes a nanosecond; a detach finds its device gone, and a delete its VM.
abbrev pub lab : Client ℕ
lab = record {
  new_vm = λ i h. (h + 1, ok running_vm);
  get_vm = λ n h. (h + 1, ok running_vm);
  set_vm = λ i h. (h + 1, ok running_vm);
  remove_vm = λ n h. (h + 1, failed (record { sentinel = some Sentinel.not_found }));
  set_vm_state = λ i h. (h + 1, ok running_vm);
  set_boot_order = λ i h. (h + 1, ok tt);
  attach_hard_disk = λ i h. (h + 1, ok tt);
  detach_hard_disk = λ i h. (h + 1, failed (record { sentinel = some Sentinel.not_found }));
  attach_network_adapter = λ i h. (h + 1, ok tt);
  detach_network_adapter = λ i h. (h + 1, failed (record { sentinel = some Sentinel.not_found }));
  attach_dvd_drive = λ i h. (h + 1, ok tt);
  detach_dvd_drive = λ i h. (h + 1, failed (record { sentinel = some Sentinel.not_found }));
}

abbrev pub lab_clock : Clock ℕ
lab_clock = record {
  now = λ h. h;
  pause = λ w h. (h + w, true);
  pause_lasts = λ w h e. omega arith;
}

abbrev pub lab_text : Text
lab_text = record { parse_duration = λ s. some (pos 3); is_ipv4 = λ s. false }

abbrev pub orders : MapOrders
orders = record {
  hdd_plan = as_listed;
  hdd_state = as_listed;
  nic_plan = as_listed;
  nic_state = as_listed;
  dvd_plan = as_listed;
  dvd_state = as_listed;
}
