-- ===== src/Vm/Tests.antt =====
-- Concrete runs of the VM resource on the data of Vm/Fixtures.
use terraform_provider_hyper.Vm.Fixtures.{
  boot_from_disk, lab, lab_text, orders, planned, recorded, lab_clock, one_cpu, running_vm,
  more_memory, static_memory,
}
use terraform_provider_hyper.Vm.Handlers.Resolved.{reconciled-ModelResolved}
use terraform_provider_hyper.Vm.Model.Resolved.{ModelResolved}
use terraform_provider_hyper.Vm.Crud.Reported.{update-IsReported}
use terraform_provider_hyper.Vm.Crud.Created.{create-IsReported}
use terraform_provider_hyper.Vm.Crud.Read.{DeleteEnds, ReadEnds, delete-ends, read-ends}
use terraform_provider_hyper.Vm.Crud.Ends.{IsReported, IsWritten}
use terraform_provider_hyper.Types.Path
use terraform_provider_hyper.Vm.Effects.{Outcome}
use terraform_provider_hyper.Hyperv.Errors.{Sentinel}
use terraform_provider_hyper.Vm.Wait.Ends.{EndsWell, wait_for_guest_ipv4-ends}
use terraform_provider_hyper.Vm.Reconcile.BootOrder.{
  BootDevice, boot_device, boot_order_entry_equals-device_iff,
}
use terraform_provider_hyper.Vm.Input.Laws.{
  build_set_input-pins_dynamic, NoScalarChange, no_changes_iff,
}
use terraform_provider_hyper.Vm.Handlers.Refresh.{reconciled_idem}
use terraform_provider_hyper.Vm.Input.{build_set_input, set_input_has_changes, build_new_input}
use terraform_provider_hyper.Types.Runes.{ascii_tables}
use terraform_provider_hyper.Common.Sort.{by_insertion}
use terraform_provider_hyper.Vm.Wait.{Waited, wait_for_guest_ipv4}
use terraform_provider_hyper.Vm.Reconcile.{
  boot_order_entry_equals, should_apply_boot_order, boot_order_semantic_equals,
  state_desired_changed, should_apply_state,
}
use terraform_provider_hyper.Vm.Handlers.{Resource, Response, reconciled, write}
use terraform_provider_hyper.Vm.Crud.NoOp.{NothingToDo, update-reads_only}
use terraform_provider_hyper.Vm.Crud.{
  update, create, delete, read, boot_order_changed, state_changed, furnish,
}
use terraform_provider_hyper.Hyperv.Dto.{SetVmInput, NewVmInput, Vm}
use terraform_provider_hyper.Hyperv.Client.{ok, failed, Result}
use terraform_provider_hyper.Common.{
  refl, some, true, false, [], ◌≡◌, arith, ℕ, String, ◌↔◌, ◌≤◌, inl, inr,
}

lab_reads : (n : String) (h : ℕ) → h ≤ (lab.get_vm n h).0
lab_reads n h = omega arith

abbrev lab_resource : Resource ℕ
lab_resource = record { client = some lab; poll_interval = 2 }

wait_for_guest_ipv4-ends_example :
    (h' : ℕ) × (w : Waited) × (wait_for_guest_ipv4 ⦃t = lab_text⦄ ⦃c = lab_clock⦄ lab 2 "web" 3 10
      ≡ some (h', w))
    × EndsWell ⦃t = lab_text⦄ lab_clock 13 h' w
wait_for_guest_ipv4-ends_example =
    wait_for_guest_ipv4-ends ⦃t = lab_text⦄ ⦃c = lab_clock⦄ lab 2 lab_reads "web" 3 10

boot_order_entry_equals-device_iff_example :
    (boot_order_entry_equals boot_from_disk boot_from_disk ≡ true) ↔ (
      (d : BootDevice) × (boot_device boot_from_disk ≡ some d)
      × (boot_device boot_from_disk ≡ some d))
boot_order_entry_equals-device_iff_example =
    boot_order_entry_equals-device_iff boot_from_disk boot_from_disk

reconciled_idem_example :
    reconciled ⦃s = by_insertion⦄ (reconciled ⦃s = by_insertion⦄ recorded running_vm) running_vm
    ≡ reconciled ⦃s = by_insertion⦄ recorded running_vm
reconciled_idem_example = reconciled_idem ⦃s = by_insertion⦄ recorded running_vm

read-ends_example :
    (r : Response) × (read ⦃u = ascii_tables⦄ ⦃s = by_insertion⦄ lab_resource recorded 10
      ≡ (11, Outcome.done r))
    × ReadEnds ⦃s = by_insertion⦄ recorded (ok running_vm) r
read-ends_example = read-ends ⦃u = ascii_tables⦄ ⦃s = by_insertion⦄ lab 2 recorded 10

delete-ends_example :
    (r : Response) × (delete ⦃u = ascii_tables⦄ ⦃s = by_insertion⦄ lab_resource recorded 10
      ≡ (11, Outcome.done r))
    × DeleteEnds (failed (record { sentinel = some Sentinel.not_found })) r
delete-ends_example = delete-ends ⦃u = ascii_tables⦄ ⦃s = by_insertion⦄ lab 2 recorded 10

create-IsReported_example :
    (r : Response) × ((create ⦃u = ascii_tables⦄ ⦃s = by_insertion⦄ ⦃t = lab_text⦄ ⦃k = lab_clock⦄
        lab_resource planned 10).1
      ≡ Outcome.done r)
    × IsReported r
    × ((i : NewVmInput) (h1 h2 : ℕ) (v0 v : Vm)
        → build_new_input planned ≡ some i
        → lab.new_vm i 10 ≡ (h1, Result.ok v0)
        → furnish ⦃u = ascii_tables⦄ ⦃s = by_insertion⦄ lab planned h1 ≡ (h2, Outcome.done v)
        → IsWritten r)
create-IsReported_example =
    create-IsReported ⦃u = ascii_tables⦄ ⦃s = by_insertion⦄ ⦃t = lab_text⦄ ⦃k = lab_clock⦄ lab 2
      lab_reads planned one_cpu more_memory refl refl 10

update-IsReported_example :
    (r : Response) × ((update ⦃u = ascii_tables⦄ ⦃s = by_insertion⦄ ⦃o = orders⦄ lab_resource
        planned recorded 10).1
      ≡ Outcome.done r)
    × IsReported r
update-IsReported_example =
    update-IsReported ⦃u = ascii_tables⦄ ⦃s = by_insertion⦄ lab ⦃o = orders⦄ 2 planned recorded
      one_cpu one_cpu more_memory static_memory refl refl refl refl 10

build_set_input-pins_dynamic_example :
    (i : SetVmInput) × (build_set_input ⦃u = ascii_tables⦄ planned recorded ≡ some i)
    × (i.dynamic_memory ≡ some true)
build_set_input-pins_dynamic_example =
    build_set_input-pins_dynamic ⦃u = ascii_tables⦄ planned recorded one_cpu one_cpu more_memory
      static_memory refl refl refl refl refl refl

no_changes_iff_example :
    (i : SetVmInput) × (build_set_input ⦃u = ascii_tables⦄ planned recorded ≡ some i)
    × ((set_input_has_changes i ≡ false)
        ↔ NoScalarChange ⦃u = ascii_tables⦄ planned recorded one_cpu one_cpu more_memory
            static_memory)
no_changes_iff_example =
    no_changes_iff ⦃u = ascii_tables⦄ planned recorded one_cpu one_cpu more_memory static_memory
      refl refl refl refl

nothing_to_do :
    NothingToDo ⦃u = ascii_tables⦄ recorded recorded one_cpu one_cpu static_memory static_memory
unfolding terraform_provider_hyper.Types.Path.string_semantic_equals
nothing_to_do = record {
  hard_disk_drives = refl;
  network_adapters = refl;
  dvd_drives = refl;
  boot_order = unfold boot_order_changed should_apply_boot_order boot_order_semantic_equals in refl;
  power = unfold state_changed should_apply_state state_desired_changed in refl;
  scalars = record {
    cpu_count = refl;
    startup_bytes = refl;
    dynamic = inl refl;
    min_bytes = inl refl;
    max_bytes = inl refl;
    secure_boot = inl refl;
    notes = inl refl;
    path = inr (refl, refl);
  };
}

update-reads_only_example :
    update ⦃u = ascii_tables⦄ ⦃s = by_insertion⦄ ⦃o = orders⦄ lab_resource recorded recorded 10
    ≡ (11, Outcome.done (write ⦃s = by_insertion⦄ recorded [] running_vm))
update-reads_only_example =
    update-reads_only ⦃u = ascii_tables⦄ ⦃s = by_insertion⦄ ⦃o = orders⦄ lab 2 recorded recorded
      one_cpu one_cpu static_memory static_memory refl refl refl refl nothing_to_do 10

reconciled-ModelResolved_example : ModelResolved (reconciled ⦃s = by_insertion⦄ planned running_vm)
reconciled-ModelResolved_example =
    reconciled-ModelResolved ⦃s = by_insertion⦄ planned running_vm tt tt
