-- ===== src/Vm/Wait.antt =====
-- internal/resources/vm/wait.go: the opt-in wait for a guest address after a create. Go's
-- `time.ParseDuration` and `net.ParseIP(s).To4() != nil`, and the clock and the cancellation of the
-- context, are the parameters. Times are nanoseconds.
pub mod Ends
use terraform_provider_hyper.Common.{
  String, ℕ, zero, suc, ◌+◌, ◌-◌, ◌≤◌, min, Bool, true, false, ◌||◌, Option, none, some, List, [],
  ◌∷◌, arith, ◌==◌, if◌then◌else◌, nat_eq, ◌≡◌, ltb,
}
use terraform_provider_hyper.Common.Int.{ℤ, pos, negsuc}
use terraform_provider_hyper.Framework.{
  PathStep, Attr, null, unknown, known, Diagnostic, Diagnostics, attribute_error, plain_error, name,
}
use terraform_provider_hyper.Hyperv.Dto.{Vm, NetworkAdapter}
use terraform_provider_hyper.Hyperv.Client.{Client, Call, Result, ok, failed}
use terraform_provider_hyper.Hyperv.Errors.{ClientError}
use terraform_provider_hyper.Hyperv.Clock.{Clock}

pub record Text : Type 0 where
  pub parse_duration : String → Option ℤ
  pub is_ipv4 : String → Bool

-- `none` is the parse error.
unfoldable pub guest_ip_timeout : ⦃t : Text⦄ → Attr String → Option ℤ
guest_ip_timeout null = some (pos 0)
guest_ip_timeout unknown = some (pos 0)
guest_ip_timeout ⦃t⦄ (known s) = t.parse_duration s

any_ipv4 : ⦃t : Text⦄ → List String → Bool
any_ipv4 [] = false
any_ipv4 ⦃t⦄ (ip ∷ ips) = t.is_ipv4 ip || any_ipv4 ips

unfoldable pub has_ipv4 : ⦃t : Text⦄ → List NetworkAdapter → Bool
unfolding any_ipv4
has_ipv4 [] = false
has_ipv4 (n ∷ ns) = any_ipv4 n.ip_addresses || has_ipv4 ns

-- How the wait ends: an error of a read carries no VM, the two others the last read.
pub data Waited : Type 0 where
  found timed_out cancelled : Vm → Waited
  broken : ClientError → Waited

module _ {ℓ} {H : Type ℓ} ⦃t : Text⦄ ⦃c : Clock H⦄ (get : Call H Vm) (interval deadline : ℕ) where
  -- The loop on fuel; `none` is fuel run out.
  unfoldable pub poll : ℕ → H → Option (H × Waited)
  poll zero h = none
  poll (suc fuel) h =
      let (h1, r) = get h in
      elim r [
        | failed e ↦ some (h1, Waited.broken e)
        | ok v ↦
            let wait = min interval (deadline - c.now h1) in
            let (h2, elapsed) = c.pause wait h1 in
            let rest = poll fuel h2 in
            if has_ipv4 v.network_adapters
            then some (h1, Waited.found v)
            else if nat_eq wait 0
            then some (h1, Waited.timed_out v)
            else if elapsed
            then rest
            else some (h2, Waited.cancelled v)
      ]

-- guestIPPollInterval's fallback.
abbrev pub default_guest_ip_poll_interval : ℕ
default_guest_ip_poll_interval = 5000000000

abbrev pub poll_interval : ℕ → ℕ
poll_interval configured = if ltb 0 configured then configured else default_guest_ip_poll_interval

module _ {ℓ} {H : Type ℓ} ⦃t : Text⦄ ⦃c : Clock H⦄ (client : Client H) (configured : ℕ) where
  -- The deadline is taken from the clock when the wait starts.
  unfoldable pub wait_for_guest_ipv4 : String → ℕ → H → Option (H × Waited)
  wait_for_guest_ipv4 vm_name timeout h =
      poll (client.get_vm vm_name) (poll_interval configured) (c.now h + timeout) (suc timeout) h

  -- What the outcome of the wait records and reports: the VM for the state, and the diagnostics.
  unfoldable pub after_wait : Vm → Waited → Vm × Diagnostics
  after_wait v (Waited.found last) = (last, [])
  after_wait v (Waited.timed_out last) =
      (last, plain_error "Timed out waiting for a guest IPv4 address" ∷ [])
  after_wait v (Waited.cancelled last) =
      (last, plain_error "Waiting for a guest IPv4 address failed" ∷ [])
  after_wait v (Waited.broken e) = (v, plain_error "Waiting for a guest IPv4 address failed" ∷ [])

  abbrev pub with_outcome : Vm → Option (H × Waited) → Option (H × (Vm × Diagnostics))
  with_outcome v none = none
  with_outcome v (some (h, w)) = some (h, after_wait v w)

  -- The wait, unless it is not asked for or its timeout cannot be read.
  unfoldable pub wait_unless_zero : String → Option ℤ → Vm → H → Option (H × (Vm × Diagnostics))
  unfolding wait_for_guest_ipv4 after_wait
  wait_unless_zero vm_name none v h = some (
    h,
    (
      v,
      attribute_error (PathStep.name "wait_for_guest_ip_timeout" ∷ [])
            "Invalid wait_for_guest_ip_timeout"
          ∷ [],
    ),
  )
  wait_unless_zero vm_name (some (negsuc n)) v h = some (h, (v, []))
  wait_unless_zero vm_name (some (pos zero)) v h = some (h, (v, []))
  wait_unless_zero vm_name (some (pos (suc n))) v h =
      with_outcome v (wait_for_guest_ipv4 vm_name (suc n) h)

  unfoldable pub wait_for_guest_ip_after_create :
      String → Attr String → Vm → H → Option (H × (Vm × Diagnostics))
  unfolding guest_ip_timeout wait_unless_zero
  wait_for_guest_ip_after_create vm_name timeout v h =
      wait_unless_zero vm_name (guest_ip_timeout timeout) v h
