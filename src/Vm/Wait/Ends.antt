-- ===== src/Vm/Wait/Ends.antt =====
-- How the wait for a guest address ends.
use terraform_provider_hyper.Hyperv.Errors.{ClientError}
use terraform_provider_hyper.Common.{
  String, ℕ, zero, suc, ◌+◌, ◌-◌, ◌≤◌, ◌<◌, ◌≡◌, min, true, false, some, arith, nat_eq, inr, inl,
  Bool-cases, ◌∙◌, if◌then◌else◌,
}
use terraform_provider_hyper.Hyperv.Dto.{Vm}
use terraform_provider_hyper.Hyperv.Client.{Client, Call, ok, failed, Result-cases}
use terraform_provider_hyper.Hyperv.Clock.{Clock}
use terraform_provider_hyper.Vm.Wait.{
  Text, Waited, has_ipv4, poll, poll_interval, wait_for_guest_ipv4,
}

-- What each end of the wait says of the last read and of the clock.
abbrev pub EndsWell {ℓ} : {H : Type ℓ} → ⦃t : Text⦄ → Clock H → ℕ → H → Waited → Type 0
EndsWell c deadline h (Waited.found v) = has_ipv4 v.network_adapters ≡ true
EndsWell c deadline h (Waited.timed_out v) =
    (has_ipv4 v.network_adapters ≡ false) × (deadline ≤ c.now h)
EndsWell c deadline h (Waited.cancelled v) = has_ipv4 v.network_adapters ≡ false
EndsWell c deadline h (Waited.broken e) = Unit

module _ {ℓ} {H : Type ℓ} ⦃t : Text⦄ ⦃c : Clock H⦄ (get : Call H Vm) (interval deadline : ℕ)
    (hi : 0 < interval) (hget : (h : H) → c.now h ≤ c.now (get h).0) where
  abbrev read : H → H
  read h = (get h).0

  abbrev left : H → ℕ
  left h = min interval (deadline - c.now (read h))

  abbrev waited : H → H
  waited h = (c.pause (left h) (read h)).0

  poll_broken :
      (fuel : ℕ) (h : H) (e : ClientError)
      → (get h).1 ≡ failed e
      → poll get interval deadline (suc fuel) h ≡ some (read h, Waited.broken e)
  unfolding poll
  poll_broken fuel h e q = rw (q, poll)

  poll-read :
      (fuel : ℕ) (h : H) (v : Vm)
      → (get h).1 ≡ ok v
      → poll get interval deadline (suc fuel) h ≡ (
          if has_ipv4 v.network_adapters
          then some (read h, Waited.found v)
          else if nat_eq (left h) 0
          then some (read h, Waited.timed_out v)
          else if (c.pause (left h) (read h)).1
          then poll get interval deadline fuel (waited h)
          else some (waited h, Waited.cancelled v))
  unfolding poll
  poll-read fuel h v q = rw (q, poll)

  closer :
      (fuel : ℕ) (h : H)
      → deadline - c.now h < suc fuel
      → nat_eq (left h) 0 ≡ false
      → (c.pause (left h) (read h)).1 ≡ true
      → deadline - c.now (waited h) < fuel
  closer fuel h hf hw hp = ground (arith, hget h, c.pause_lasts (left h) (read h) hp)

  poll_total :
      (fuel : ℕ) (h : H)
      → deadline - c.now h < fuel
      → (h' : H) × (w : Waited) × (poll get interval deadline fuel h ≡ some (h', w))
        × EndsWell c deadline h' w
  poll_total zero h hf = absurd (omega (arith, hf))
  poll_total (suc fuel) h hf = elim (Result-cases (get h).1) [
    | inr (e, q) ↦ (read h, Waited.broken e, poll_broken fuel h e q, tt)
    | inl (v, q) ↦
        let step = poll-read fuel h v q in
        elim (Bool-cases (has_ipv4 v.network_adapters)) [
          | inl h4 ↦ (read h, Waited.found v, step ∙ rw h4, h4)
          | inr h4 ↦ elim (Bool-cases (nat_eq (left h) 0)) [
            | inl hw ↦ (read h, Waited.timed_out v, step ∙ rw (h4, hw), (h4, ground arith))
            | inr hw ↦ elim (Bool-cases (c.pause (left h) (read h)).1) [
              | inl hp ↦
                  let (h', w, e, g) = poll_total fuel (waited h) (closer fuel h hf hw hp) in
                  (h', w, step ∙ rw (h4, hw, hp) e, g)
              | inr hp ↦ (waited h, Waited.cancelled v, step ∙ rw (h4, hw, hp), h4)
            ]
          ]
        ]
  ]

module _ {ℓ} {H : Type ℓ} ⦃t : Text⦄ ⦃c : Clock H⦄ (client : Client H) (configured : ℕ)
    (hget : (n : String) (h : H) → c.now h ≤ c.now (client.get_vm n h).0) where
  -- If reading the VM never sets the clock back, the wait for a guest address always ends, with any
  -- timeout: it reports an address only if the last read has an IPv4 address, a timeout only if the last
  -- read has none and the deadline has come, and a cancellation only if the last read has none.
  pub wait_for_guest_ipv4-ends :
      (n : String) (timeout : ℕ) (h : H)
      → (h' : H) × (w : Waited) × (wait_for_guest_ipv4 client configured n timeout h ≡ some (h', w))
        × EndsWell c (c.now h + timeout) h' w
  unfolding wait_for_guest_ipv4
  wait_for_guest_ipv4-ends n timeout h =
      poll_total (client.get_vm n) (poll_interval configured) (c.now h + timeout) (ground arith)
        (hget n) (suc timeout) h (omega arith)
