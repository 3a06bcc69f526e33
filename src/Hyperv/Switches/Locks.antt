-- ===== src/Hyperv/Switches/Locks.antt =====
-- The lock of the NAT state around the switch operations.
use terraform_provider_hyper.Common.{
  ℕ, String, List, ◌≡◌, Option, some, refl, Bool-cases, Option-cases, inl, inr, ◌==◌, if◌then◌else◌,
}
use terraform_provider_hyper.Hyperv.Client.{Result, ok, failed, Call}
use terraform_provider_hyper.Hyperv.Errors.{ClientError, is_not_found, is_session_dropped}
use terraform_provider_hyper.Hyperv.Clock.{Clock}
use terraform_provider_hyper.Hyperv.Script.{Backend, plain}
use terraform_provider_hyper.Hyperv.Session.{
  Session, Op, Hold, lift, return, ◌>>=◌, holding_nat, holding_nat_if, with_nat_lock,
}
use terraform_provider_hyper.Hyperv.Verify.{Verdict, verify, verify_attempts}
use terraform_provider_hyper.Hyperv.Verify.Laws.{verify_total}
use terraform_provider_hyper.Hyperv.Switches.{
  VmSwitch, NewVmSwitchInput, SetVmSwitchInput, SwitchDecoder, get_vm_switch, set_vm_switch,
  run_new, run_remove, load_first, recover_vm_switch_new_on_drop, recover_vm_switch_remove_on_drop,
  verify_vm_switch_allow_management_os_disabled, new_vm_switch,
  prepare_vm_switch_external_for_remove, removal, remove_found, remove_vm_switch, unless_dropped,
  prepared, disable_input, is_shared_external, if_prepared, judge_new, judge_removed,
  judge_disabled,
}

module _ {ℓ} {H : Type ℓ} where
  -- The NAT lock is free, and the other locks are as in s.
  abbrev pub Freed : Session H → Session H → Type 0
  Freed s t = (t.nat ≡ Hold.free) × (t.proxy ≡ s.proxy) × (t.paths ≡ s.paths)

  -- The operation does not wait for a lock of its own, and leaves the locks as `Freed` says.
  abbrev pub Frees : {A : Type 0} → Session H → Option (Session H × Result A) → Type ℓ
  Frees {A} s out = (t : Session H) × (r : Result A) × (out ≡ some (t, r)) × Freed s t

  module _ (s0 : Session H) where
    abbrev Safe : {A : Type 0} → Op H A → Type ℓ
    Safe op = (s : Session H) → Freed s0 s → Frees s0 (op s)

    Safe-return : {A : Type 0} (r : Result A) → Safe (return r)
    Safe-return r s f = (s, r, refl, f)

    Safe-lift : {A : Type 0} (c : Call H A) → Safe (lift c)
    Safe-lift c s f = let a = c s.host in (record s { host = a.0 }, a.1, refl, f)

    Safe-holding : {A : Type 0} (hold : Hold) (c : Call H A) → Safe (holding_nat hold (lift c))
    unfolding holding_nat
    Safe-holding hold c s (n, p, q) =
        let a = c s.host in (record s { host = a.0; nat = Hold.free }, a.1, rw n refl, (refl, p, q))

    Safe-holding_nat_if :
        {A : Type 0} (hold : Hold) (name : String) (c : Call H A)
        → Safe (holding_nat_if hold name (lift c))
    unfolding holding_nat_if
    Safe-holding_nat_if hold name c s f = elim (Bool-cases (name == "")) [
      | inl e ↦ rw e (Safe-lift c s f)
      | inr e ↦ rw e (Safe-holding hold c s f)
    ]

    Safe-bind :
        {A B : Type 0} (m : Op H A) (f : Result A → Op H B)
        → Safe m
        → ((r : Result A) → Safe (f r))
        → Safe (m >>= f)
    Safe-bind m f sm sf s h =
        let (t, r, e, ft) = sm s h in
        let (u, r', e', fu) = sf r t ft in (u, r', rw (e, ◌>>=◌) e', fu)

    module _ (b : Backend H) (d : SwitchDecoder) where
      Safe-load_first :
          {A : Type 0} (verb : String) (k : List ℕ → Op H A)
          → ((body : List ℕ) → Safe (k body))
          → Safe (load_first b d verb k)
      unfolding load_first
      Safe-load_first verb k sk s f = elim (Option-cases (b.scripts.script "vswitch" verb)) [
        | inl e ↦ rw (e, load_first) (s, failed plain, refl, f)
        | inr (body, e) ↦ rw (e, load_first) (sk body s f)
      ]

      Safe-get : (name nat_name : String) → Safe (get_vm_switch b d name nat_name)
      unfolding get_vm_switch
      Safe-get name nat_name = Safe-holding_nat_if Hold.reading nat_name _

      Safe-set : (i : SetVmSwitchInput) → Safe (set_vm_switch b d i)
      unfolding set_vm_switch
      Safe-set i = Safe-holding_nat_if Hold.writing i.nat_name _

      Safe-run_new : (i : NewVmSwitchInput) → Safe (run_new b d i)
      unfolding run_new with_nat_lock
      Safe-run_new i =
          Safe-load_first "new" _ (λ body. Safe-holding_nat_if Hold.writing i.nat_name _)

      Safe-run_remove : (name nat_name : String) → Safe (run_remove b d name nat_name)
      unfolding run_remove with_nat_lock
      Safe-run_remove name nat_name =
          Safe-load_first "remove" _ (λ body. Safe-holding_nat_if Hold.writing nat_name _)

      module _ ⦃c : Clock H⦄ where
        Safe-verify :
            {A : Type 0} (name nat_name : String) (judge : Result VmSwitch → Verdict A)
            (x : ClientError)
            → Safe (verify (get_vm_switch b d name nat_name) judge x verify_attempts)
        Safe-verify name nat_name judge x s f =
            verify_total (get_vm_switch b d name nat_name) judge x (Freed s0)
              (Safe-get name nat_name) (λ s' f'. f') verify_attempts s f

        Safe-unless_dropped :
            {A : Type 0} (recover : ClientError → Op H A)
            → ((e : ClientError) → Safe (recover e))
            → (r : Result A) → Safe (unless_dropped b d recover r)
        Safe-unless_dropped recover sr (ok a) s f = (s, ok a, refl, f)
        Safe-unless_dropped recover sr (failed e) s f = elim (Bool-cases (is_session_dropped e)) [
          | inl q ↦ rw q (sr e s f)
          | inr q ↦ rw q (s, failed e, refl, f)
        ]

        Safe-new : (i : NewVmSwitchInput) → Safe (new_vm_switch b d i)
        unfolding new_vm_switch recover_vm_switch_new_on_drop
        Safe-new i =
            Safe-bind (run_new b d i) _ (Safe-run_new i)
              (Safe-unless_dropped _ (λ e. Safe-verify i.name i.nat_name judge_new e))

        Safe-prepared : (name : String) (r : Result VmSwitch) → Safe (prepared b d name r)
        unfolding verify_vm_switch_allow_management_os_disabled
        Safe-prepared name (ok sw) s f = (s, ok tt, refl, f)
        Safe-prepared name (failed e) s f = elim (Bool-cases (is_session_dropped e)) [
          | inl q ↦ rw q (Safe-verify name "" judge_disabled e s f)
          | inr q ↦ rw q (s, failed e, refl, f)
        ]

        Safe-prepare : (name : String) → Safe (prepare_vm_switch_external_for_remove b d name)
        unfolding prepare_vm_switch_external_for_remove
        Safe-prepare name =
            Safe-bind (set_vm_switch b d (disable_input b d name)) _
              (Safe-set (disable_input b d name)) (Safe-prepared name)

        Safe-removal : (name nat_name : String) → Safe (removal b d name nat_name)
        unfolding removal recover_vm_switch_remove_on_drop
        Safe-removal name nat_name =
            Safe-bind (run_remove b d name nat_name) _ (Safe-run_remove name nat_name)
              (Safe-unless_dropped _ (λ e. Safe-verify name nat_name judge_removed e))

        Safe-if_prepared :
            (next : Op H Unit) → Safe next → (r : Result Unit) → Safe (if_prepared b d next r)
        Safe-if_prepared next sn (ok u) = sn
        Safe-if_prepared next sn (failed e) = Safe-return (failed e)

        Safe-found :
            (name nat_name : String) (r : Result VmSwitch) → Safe (remove_found b d name nat_name r)
        unfolding remove_found
        Safe-found name nat_name (failed e) s f =
            Safe-return (if is_not_found e then ok tt else failed e) s f
        Safe-found name nat_name (ok sw) s f = elim (Bool-cases (is_shared_external b d sw)) [
          | inl q ↦ rw q (
              Safe-bind (prepare_vm_switch_external_for_remove b d name) _ (Safe-prepare name)
                (Safe-if_prepared (removal b d name nat_name) (Safe-removal name nat_name)) s f)
          | inr q ↦ rw q (Safe-removal name nat_name s f)
        ]

        Safe-remove : (name nat_name : String) → Safe (remove_vm_switch b d name nat_name)
        unfolding remove_vm_switch
        Safe-remove name nat_name =
            Safe-bind (get_vm_switch b d name nat_name) _ (Safe-get name nat_name)
              (Safe-found name nat_name)

module _ {ℓ} {H : Type ℓ} ⦃c : Clock H⦄ (b : Backend H) (d : SwitchDecoder) (s : Session H)
    (f : s.nat ≡ Hold.free) where
  -- If the NAT lock is free when they start, reading, creating, changing and removing a switch, with or
  -- without a NAT, never wait for a lock that they hold themselves: each ends, the NAT lock is free
  -- again, and the other locks are as they were.
  pub switch_operations-Frees :
      ((name nat_name : String) → Frees s (get_vm_switch b d name nat_name s))
      × ((i : NewVmSwitchInput) → Frees s (new_vm_switch b d i s))
      × ((i : SetVmSwitchInput) → Frees s (set_vm_switch b d i s))
      × ((name nat_name : String) → Frees s (remove_vm_switch b d name nat_name s))
  switch_operations-Frees = (
    λ name nat_name. Safe-get s b d name nat_name s (f, refl, refl),
    λ i. Safe-new s b d i s (f, refl, refl),
    λ i. Safe-set s b d i s (f, refl, refl),
    λ name nat_name. Safe-remove s b d name nat_name s (f, refl, refl),
  )
