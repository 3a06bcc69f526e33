-- ===== src/Hyperv/Client.antt =====
-- The operations of internal/hyperv's client that the VM resource calls, as an interface over an
-- abstract state of the world: the host, its clock and the transport. What the scripts do on the host
-- is PowerShell and not part of it.
use terraform_provider_hyper.Common.{refl, inl, inr, ◌⊎◌, String, ◌≡◌, ◌⊎◌, inl, inr}
use terraform_provider_hyper.Hyperv.Errors.{ClientError}
use terraform_provider_hyper.Hyperv.Dto.{
  Vm, NewVmInput, SetVmInput, SetVmStateInput, SetBootOrderInput, AttachHardDiskInput,
  DetachHardDiskInput, AttachNetworkAdapterInput, DetachNetworkAdapterInput, AttachDvdDriveInput,
  DetachDvdDriveInput,
}

pub data Result (A : Type 0) : Type 0 where
  ok : A → Result A
  failed : ClientError → Result A

pub Result-cases :
    {A : Type 0} (r : Result A) → ((a : A) × (r ≡ ok a)) ⊎ ((e : ClientError) × (r ≡ failed e))
Result-cases (ok a) = inl (a, refl)
Result-cases (failed e) = inr (e, refl)

module _ {ℓ} (H : Type ℓ) where
  -- A call: the world after it, and its answer.
  abbrev pub Call : Type 0 → Type ℓ
  Call A = H → H × Result A

  pub record Client : Type ℓ where
    pub new_vm : NewVmInput → Call Vm
    pub get_vm : String → Call Vm
    pub set_vm : SetVmInput → Call Vm
    pub remove_vm : String → Call Unit
    pub set_vm_state : SetVmStateInput → Call Vm
    pub set_boot_order : SetBootOrderInput → Call Unit
    pub attach_hard_disk : AttachHardDiskInput → Call Unit
    pub detach_hard_disk : DetachHardDiskInput → Call Unit
    pub attach_network_adapter : AttachNetworkAdapterInput → Call Unit
    pub detach_network_adapter : DetachNetworkAdapterInput → Call Unit
    pub attach_dvd_drive : AttachDvdDriveInput → Call Unit
    pub detach_dvd_drive : DetachDvdDriveInput → Call Unit
