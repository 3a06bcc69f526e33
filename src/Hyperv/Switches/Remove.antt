-- ===== src/Hyperv/Switches/Remove.antt =====
-- When the removal of a switch succeeds.
use terraform_provider_hyper.Common.{
  ℕ, String, ◌<◌, ◌≡◌, ◌↔◌, ◌⊎◌, inl, inr, true, false, none, some, refl, arith, Bool-cases,
  Option-cases, ◌∙◌, sym, if◌then◌else◌,
}
use terraform_provider_hyper.Hyperv.Client.{Result, ok, failed}
use terraform_provider_hyper.Hyperv.Errors.{ClientError, is_not_found, is_session_dropped}
use terraform_provider_hyper.Hyperv.Clock.{Clock}
use terraform_provider_hyper.Hyperv.Script.{Backend}
use terraform_provider_hyper.Hyperv.Session.{Session, Op, ◌>>=◌}
use terraform_provider_hyper.Hyperv.Verify.{
  Verdict, confirmed, verify, verify_attempts, wait, verify_delay,
}
use terraform_provider_hyper.Hyperv.Verify.Laws.{Tried, verify-ConfirmedWithin_iff}
use terraform_provider_hyper.Hyperv.Switches.{
  VmSwitch, SwitchDecoder, get_vm_switch, set_vm_switch, run_remove,
  recover_vm_switch_remove_on_drop, verify_vm_switch_allow_management_os_disabled,
  prepare_vm_switch_external_for_remove, removal, unless_dropped, prepared, disable_input,
  judge_removed, judge_disabled,
}

-- An answer that the switch does not exist.
abbrev pub IsGone : Result VmSwitch → Type 0
IsGone (ok sw) = ⊥
IsGone (failed e) = is_not_found e ≡ true

-- An answer that the host's own system is off the switch, or that the switch does not exist.
abbrev pub IsOff : Result VmSwitch → Type 0
IsOff (ok sw) = sw.allow_management_os ≡ false
IsOff (failed e) = is_not_found e ≡ true

judge_removed_iff : (r : Result VmSwitch) → (judge_removed r ≡ confirmed tt) ↔ IsGone r
unfolding judge_removed
judge_removed_iff (ok sw) = ground arith
judge_removed_iff (failed e) = elim (Bool-cases (is_not_found e)) [
  | inl q ↦ rw q ((λ h. refl), (λ h. refl))
  | inr q ↦ rw q ((λ h. absurd (cc)), (λ h. absurd (cc)))
]

judge_disabled_iff : (r : Result VmSwitch) → (judge_disabled r ≡ confirmed tt) ↔ IsOff r
unfolding judge_disabled
judge_disabled_iff (ok sw) = ground arith
judge_disabled_iff (failed e) = elim (Bool-cases (is_not_found e)) [
  | inl q ↦ rw q ((λ h. refl), (λ h. refl))
  | inr q ↦ rw q ((λ h. absurd (cc)), (λ h. absurd (cc)))
]

module _ {ℓ} {H : Type ℓ} {A B : Type 0} (m : Op H A) (f : Result A → Op H B) (s : Session H) where
  bind_none : m s ≡ none → (m >>= f) s ≡ none
  bind_none q = rw (q, ◌>>=◌) refl

  pub bind_some : (u : Session H) (a : Result A) → m s ≡ some (u, a) → (m >>= f) s ≡ f a u
  bind_some u a q = rw (q, ◌>>=◌) refl

  abbrev pub Binds : Session H → Result B → Type ℓ
  Binds t r = (u : Session H) × (a : Result A) × (m s ≡ some (u, a)) × (f a u ≡ some (t, r))

  pub bind_iff : (t : Session H) (r : Result B) → ((m >>= f) s ≡ some (t, r)) ↔ Binds t r
  bind_iff t r = elim (Option-cases (m s)) [
    | inl q ↦ ((λ h. absurd (cc (bind_none q))), (λ (u, a, g, k). absurd (cc)))
    | inr ((u, a), q) ↦
        ((λ h. (u, a, q, sym (bind_some u a q) ∙ h)), (λ (v, e, g, k). bind_some v e g ∙ k))
  ]

module _ {ℓ} {H : Type ℓ} ⦃c : Clock H⦄ (b : Backend H) (d : SwitchDecoder) where
  -- After at most n - 1 unclear reads, a read's answer has the property and leaves the session t.
  abbrev pub ReadsWithin :
      ℕ
      → (Result VmSwitch → Verdict Unit)
      → (Result VmSwitch → Type 0)
      → String
      → String
      → Session H
      → Session H
      → Type ℓ
  ReadsWithin n judge P name nat_name s t =
      (k : ℕ) × (u : Session H) × (k < n)
      × Tried (get_vm_switch b d name nat_name) judge k s u
      × ((wait verify_delay u).1 ≡ true)
      × (r : Result VmSwitch) × (get_vm_switch b d name nat_name (wait verify_delay u).0
          ≡ some (t, r))
      × P r

  module _ (judge : Result VmSwitch → Verdict Unit) (P : Result VmSwitch → Type 0)
      (judged : (r : Result VmSwitch) → (judge r ≡ confirmed tt) ↔ P r) where
    reads_iff :
        (name nat_name : String) (x : ClientError) (s t : Session H)
        → (verify (get_vm_switch b d name nat_name) judge x verify_attempts s ≡ some (t, ok tt))
          ↔ ReadsWithin verify_attempts judge P name nat_name s t
    reads_iff name nat_name x s t =
        let both =
          verify-ConfirmedWithin_iff (get_vm_switch b d name nat_name) judge x verify_attempts s t
            tt in
        (
          (λ h.
              let (k, u, lt, w, (p, r, g, j)) = both.0 h in (k, u, lt, w, p, r, g, (judged r).0 j)),
          (λ (k, u, lt, w, p, r, g, j). both.1 (k, u, lt, w, (p, r, g, (judged r).1 j))),
        )

  -- The command answers without an error, or the connection drops in it and the recovery succeeds.
  abbrev pub Succeeds :
      {A : Type 0} → Op H A → (Session H → Session H → Type ℓ) → Session H → Session H → Type ℓ
  Succeeds {A} run recovered s t =
      ((a : A) × (run s ≡ some (t, ok a)))
      ⊎ ((u : Session H) × (e : ClientError) × (run s ≡ some (u, failed e))
          × (is_session_dropped e ≡ true)
          × recovered u t)

  module _ {A : Type 0} (m : Op H A) (f : Result A → Op H Unit) (recover : ClientError → Op H Unit)
      (f-ok : (a : A) (u : Session H) → f (ok a) u ≡ some (u, ok tt))
      (f-failed : (e : ClientError) (u : Session H)
        → f (failed e) u ≡ (if is_session_dropped e then recover e u else some (u, failed e)))
      (R : Session H → Session H → Type ℓ)
      (recover_iff : (e : ClientError) (u t : Session H)
        → (recover e u ≡ some (t, ok tt)) ↔ R u t) where
    answered :
        (a : Result A) (u t : Session H)
        → f a u ≡ some (t, ok tt)
        → ((x : A) × (a ≡ ok x) × (u ≡ t))
          ⊎ ((e : ClientError) × (a ≡ failed e) × (is_session_dropped e ≡ true) × R u t)
    answered (ok x) u t h = let k = f-ok x u in inl (x, refl, cc)
    answered (failed e) u t h = elim (Bool-cases (is_session_dropped e)) [
      | inl y ↦
          let k = rw y at (f-failed e u) in inr (e, refl, y, (recover_iff e u t).0 (sym k ∙ h))
      | inr y ↦ let k = rw y at (f-failed e u) in absurd (cc)
    ]

    to_success : (s t : Session H) → (m >>= f) s ≡ some (t, ok tt) → Succeeds m R s t
    to_success s t h =
        let (u, a, g, k) = (bind_iff m f s t (ok tt)).0 h in
        elim (answered a u t k) [
          | inl (x, q, v) ↦ inl (x, cc)
          | inr (e, q, y, r) ↦ inr (u, e, cc, y, r)
        ]

    from_success : (s t : Session H) → Succeeds m R s t → (m >>= f) s ≡ some (t, ok tt)
    from_success s t (inl (a, g)) = bind_some m f s t (ok a) g ∙ f-ok a t
    from_success s t (inr (u, e, g, y, r)) =
        bind_some m f s u (failed e) g ∙ f-failed e u ∙ rw y ((recover_iff e u t).1 r)

  -- The host's own system was taken off the switch: the set script answered, or the connection dropped
  -- in it and a read finds it off.
  abbrev pub Prepared : String → Session H → Session H → Type ℓ
  Prepared name =
      Succeeds (set_vm_switch b d (disable_input b d name))
        (ReadsWithin verify_attempts judge_disabled IsOff name "")

  -- The removal script answered, or the connection dropped in it and a read finds the switch gone.
  abbrev pub Removed : String → String → Session H → Session H → Type ℓ
  Removed name nat_name =
      Succeeds (run_remove b d name nat_name)
        (ReadsWithin verify_attempts judge_removed IsGone name nat_name)

  pub prepare_iff :
      (name : String) (s t : Session H)
      → (prepare_vm_switch_external_for_remove b d name s ≡ some (t, ok tt)) ↔ Prepared name s t
  unfolding prepare_vm_switch_external_for_remove verify_vm_switch_allow_management_os_disabled
  prepare_iff name s t =
      let m = set_vm_switch b d (disable_input b d name) in
      let recover = verify_vm_switch_allow_management_os_disabled b d name in
      let R = ReadsWithin verify_attempts judge_disabled IsOff name "" in
      let r = reads_iff judge_disabled IsOff judge_disabled_iff name "" in
      (
        to_success m (prepared b d name) recover (λ a u. refl) (λ e u. refl) R r s t,
        from_success m (prepared b d name) recover (λ a u. refl) (λ e u. refl) R r s t,
      )

  pub removal_iff :
      (name nat_name : String) (s t : Session H)
      → (removal b d name nat_name s ≡ some (t, ok tt)) ↔ Removed name nat_name s t
  unfolding removal recover_vm_switch_remove_on_drop
  removal_iff name nat_name s t =
      let m = run_remove b d name nat_name in
      let recover = recover_vm_switch_remove_on_drop b d name nat_name in
      let f : Result Unit → Op H Unit = unless_dropped b d recover in
      let R = ReadsWithin verify_attempts judge_removed IsGone name nat_name in
      let r = reads_iff judge_removed IsGone judge_removed_iff name nat_name in
      (
        to_success m f recover (λ a u. refl) (λ e u. refl) R r s t,
        from_success m f recover (λ a u. refl) (λ e u. refl) R r s t,
      )
