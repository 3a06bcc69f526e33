-- ===== src/Hyperv/Tests.antt =====
-- A host on which the connection drops in the first call and times out in the second, and the theorems
-- of internal/hyperv there.
use terraform_provider_hyper.Common.{
  ℕ, zero, suc, ◌+◌, String, List, [], ◌∷◌, true, false, none, some, ◌≡◌, ◌↔◌, refl, arith, nat_eq,
  if◌then◌else◌, All,
}
use terraform_provider_hyper.Common.Int.{pos}
use terraform_provider_hyper.Connection.{session_dropped, timeout}
use terraform_provider_hyper.Hyperv.Client.{ok}
use terraform_provider_hyper.Hyperv.Clock.{Clock}
use terraform_provider_hyper.Hyperv.Session.{Session, Hold}
use terraform_provider_hyper.Hyperv.Vms.{set_payload}
use terraform_provider_hyper.Hyperv.Script.{
  Value, Backend, Ran, Output, load, run_script, run_read_script,
}
use terraform_provider_hyper.Hyperv.Script.Minify.{Spaces, minify_ps, trim_space}
use terraform_provider_hyper.Hyperv.Script.Minify.Shrinks.{
  IsLine, text_of, Shrinks, minify_ps-Shrinks,
}
use terraform_provider_hyper.Hyperv.Verify.{verify}
use terraform_provider_hyper.Hyperv.Disks.{
  Vhd, DiskDecoder, run_new, new_vhd_fixed, recover_vhd_new_on_drop, get_vhd, judge_vhd,
}
use terraform_provider_hyper.Hyperv.Disks.Recovery.{
  NewVhd, create_vhd, payload, expected, Recovers, create_vhd-Recovers,
}
use terraform_provider_hyper.Hyperv.Switches.{
  VmSwitch, SwitchDecoder, NewVmSwitchInput, SetVmSwitchInput, get_vm_switch, new_vm_switch,
  set_vm_switch, remove_vm_switch,
}
use terraform_provider_hyper.Hyperv.Switches.Locks.{Frees, switch_operations-Frees}
use terraform_provider_hyper.Hyperv.Switches.Destroy.{Goes, remove_vm_switch-Goes_iff}

-- The calls made so far, and the time.
abbrev pub Lab : Type 0
Lab = ℕ × ℕ

abbrev pub spaces : Spaces
spaces = record {
  is_space = λ c. if nat_eq c 32 then true else nat_eq c 10;
  equal_fold = λ s t. false;
  newline_space = refl;
}

abbrev answer : Output
answer = record { stdout = 49 ∷ []; stderr = ""; exit_code = pos 0 }

abbrev ran : ℕ → Ran
ran zero = Ran.broken (some session_dropped)
ran (suc zero) = Ran.broken (some timeout)
ran (suc (suc n)) = Ran.exited answer

abbrev pub lab : Backend Lab
lab = record {
  scripts = record { preamble = some []; script = λ folder verb. some (49 ∷ []) };
  runner = record { run_script = λ t text stdin (calls, time). ((calls + 1, time), ran calls) };
  spaces = spaces;
  unmarshal_envelope = λ s. none;
}

instance pub lab_clock : Clock Lab
lab_clock = record {
  now = λ (calls, time). time;
  pause = λ w (calls, time). ((calls, time + w), true);
  pause_lasts = λ w (calls, time) h. omega arith;
}

abbrev pub disk : Vhd
disk = record {
  path = "C:/vhd/a.vhdx";
  vhd_type = "Fixed";
  size_bytes = pos 4096;
  file_size_bytes = pos 4096;
  block_size_bytes = pos 0;
  parent_path = "";
  format = "VHDX";
  attached = false;
}

abbrev pub disks : DiskDecoder
disks = record { vhd = λ out. some disk; vhd_paths = λ out. none }

abbrev pub lan : VmSwitch
lan = record {
  name = "lan";
  switch_type = "NAT";
  allow_management_os = true;
  net_adapter_interface_description = "";
  notes = "";
  id = "1";
  nat_name = "nat";
  nat_internal_address_prefix = "10.0.0.0/24";
  nat_host_address = "10.0.0.1";
}

abbrev pub switches : SwitchDecoder
switches = record { switch = λ out. some lan; switch_names = λ out. none }

abbrev pub idle : Session Lab
idle = record { host = (0, 0); nat = Hold.free; proxy = Hold.free; paths = [] }

abbrev new_disk : NewVhd
new_disk =
    NewVhd.fixed (record { path = "C:/vhd/a.vhdx"; size_bytes = pos 4096; block_size_bytes = none })

-- The create recovers at the second read: the first is unclear.
created :
    create_vhd lab disks new_disk idle ≡ some (record idle { host = (3, 10000000000) }, ok disk)
unfolding new_vhd_fixed recover_vhd_new_on_drop verify get_vhd judge_vhd load run_script
    run_read_script lab_clock trim_space
created = refl

create_vhd-Recovers_example :
    let (h, r) = run_new lab disks (payload new_disk) idle.host in
    Recovers lab disks
      (expected new_disk)
      (record idle { host = h })
      r
      (create_vhd lab disks new_disk idle)
create_vhd-Recovers_example = create_vhd-Recovers lab disks new_disk idle

switch_operations-Frees_example :
    ((name nat_name : String) → Frees idle (get_vm_switch lab switches name nat_name idle))
    × ((i : NewVmSwitchInput) → Frees idle (new_vm_switch lab switches i idle))
    × ((i : SetVmSwitchInput) → Frees idle (set_vm_switch lab switches i idle))
    × ((name nat_name : String) → Frees idle (remove_vm_switch lab switches name nat_name idle))
switch_operations-Frees_example = switch_operations-Frees lab switches idle refl

remove_vm_switch-Goes_iff_example :
    (remove_vm_switch lab switches "lan" "nat" idle ≡ some (idle, ok tt))
    ↔ Goes lab switches "lan" "nat" idle idle
remove_vm_switch-Goes_iff_example = remove_vm_switch-Goes_iff lab switches "lan" "nat" idle idle

-- `a`, a blank line, and a comment.
abbrev small_script : List ℕ
small_script = 32 ∷ 97 ∷ 10 ∷ 32 ∷ 10 ∷ 35 ∷ 97 ∷ []

minify_ps-Shrinks_example :
    (ls : List (List ℕ)) × (small_script ≡ text_of ls)
    × All IsLine ls
    × Shrinks spaces ls (minify_ps spaces small_script)
minify_ps-Shrinks_example = minify_ps-Shrinks spaces small_script

-- A partial update sends only what changes.
partial_update :
    set_payload (record {
      name = "vm";
      generation = pos 2;
      vcpu = some (pos 4);
      memory_bytes = none;
      dynamic_memory = none;
      min_memory_bytes = none;
      max_memory_bytes = none;
      secure_boot = none;
      notes = some "x";
      path = none;
    })
    ≡ ("name", Value.text "vm")
      ∷ ("generation", Value.number (pos 2))
      ∷ ("vcpu", Value.number (pos 4))
      ∷ ("notes", Value.text "x")
      ∷ []
partial_update = refl
