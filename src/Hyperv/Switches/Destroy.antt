-- ===== src/Hyperv/Switches/Destroy.antt =====
-- The whole removal of a switch: the first read, the step before an External switch, the script.
use terraform_provider_hyper.Common.{
  String, ◌≡◌, ◌↔◌, ◌⊎◌, inl, inr, true, false, some, refl, Bool-cases, ◌∙◌,
}
use terraform_provider_hyper.Hyperv.Client.{Result, ok, failed, Result-cases}
use terraform_provider_hyper.Hyperv.Errors.{ClientError, is_not_found}
use terraform_provider_hyper.Hyperv.Clock.{Clock}
use terraform_provider_hyper.Hyperv.Script.{Backend}
use terraform_provider_hyper.Hyperv.Session.{Session, Op, ◌>>=◌}
use terraform_provider_hyper.Hyperv.Switches.{
  VmSwitch, SwitchDecoder, get_vm_switch, prepare_vm_switch_external_for_remove, removal,
  remove_found, remove_vm_switch, is_shared_external, if_prepared,
}
use terraform_provider_hyper.Hyperv.Switches.Remove.{
  Prepared, Removed, bind_iff, bind_some, prepare_iff, removal_iff,
}

module _ {ℓ} {H : Type ℓ} ⦃c : Clock H⦄ (b : Backend H) (d : SwitchDecoder)
    (name nat_name : String) where
  -- From a session in which a read has found the switch.
  abbrev pub Destroyed : VmSwitch → Session H → Session H → Type ℓ
  Destroyed sw u t =
      ((is_shared_external b d sw ≡ false) × Removed b d name nat_name u t)
      ⊎ ((is_shared_external b d sw ≡ true)
          × (v : Session H) × Prepared b d name u v
          × Removed b d name nat_name v t)

  abbrev prepared_removal : Op H Unit
  prepared_removal =
      prepare_vm_switch_external_for_remove b d name >>= if_prepared b d (removal b d name nat_name)

  external_iff :
      (s t : Session H)
      → (prepared_removal s ≡ some (t, ok tt))
        ↔ ((v : Session H) × Prepared b d name s v × Removed b d name nat_name v t)
  external_iff s t =
      let m = prepare_vm_switch_external_for_remove b d name in
      let f : Result Unit → Op H Unit = if_prepared b d (removal b d name nat_name) in
      (
        (λ h.
            let (v, a, g, k) = (bind_iff m f s t (ok tt)).0 h in
            elim (Result-cases a) [
              | inl (x, q) ↦ (
                v,
                (prepare_iff b d name s v).0 (cc),
                (removal_iff b d name nat_name v t).0 (rw q at k),
              )
              | inr (e, q) ↦ let k' = rw q at k in absurd (cc)
            ]),
        (λ (v, p, r).
            bind_some m f s v (ok tt) ((prepare_iff b d name s v).1 p)
            ∙ (removal_iff b d name nat_name v t).1 r),
      )

  found_iff :
      (sw : VmSwitch) (s t : Session H)
      → (remove_found b d name nat_name (ok sw) s ≡ some (t, ok tt)) ↔ Destroyed sw s t
  unfolding remove_found
  found_iff sw s t = elim (Bool-cases (is_shared_external b d sw)) [
    | inl q ↦ (
      (λ h. let (v, p, r) = (external_iff s t).0 (rw q at h) in inr (q, v, p, r)),
      (λ x. elim x [
        | inl (n, r) ↦ absurd (cc)
        | inr (y, v, p, r) ↦ rw q ((external_iff s t).1 (v, p, r))
      ]),
    )
    | inr q ↦ (
      (λ h. inl (q, (removal_iff b d name nat_name s t).0 (rw q at h))),
      (λ x. elim x [
        | inl (n, r) ↦ rw q ((removal_iff b d name nat_name s t).1 r)
        | inr (y, v, p, r) ↦ absurd (cc)
      ]),
    )
  ]

  gone :
      (e : ClientError) (s t : Session H)
      → (remove_found b d name nat_name (failed e) s ≡ some (t, ok tt))
        ↔ ((is_not_found e ≡ true) × (s ≡ t))
  unfolding remove_found
  gone e s t = elim (Bool-cases (is_not_found e)) [
    | inl q ↦ ((λ h. let k = rw q at h in (q, cc)), (λ (n, w). rw (q, w) refl))
    | inr q ↦ ((λ h. let k = rw q at h in absurd (cc)), (λ (n, w). absurd (cc)))
  ]

  -- The first read says that the switch does not exist, or finds it and it is removed.
  abbrev pub Goes : Session H → Session H → Type ℓ
  Goes s t =
      ((e : ClientError) × (get_vm_switch b d name nat_name s ≡ some (t, failed e))
        × (is_not_found e ≡ true))
      ⊎ ((u : Session H) × (sw : VmSwitch) × (get_vm_switch b d name nat_name s ≡ some (u, ok sw))
          × Destroyed sw u t)

  -- Removing a switch succeeds exactly if the first read says that it does not exist, or it finds the
  -- switch and the switch is removed: the removal script succeeds, or the connection drops in it and one
  -- of at most five reads says that the switch does not exist. A switch of type External that the
  -- host's own system shares has that sharing ended first: the set script succeeds, or the connection
  -- drops in it and one of at most five reads finds it ended, or the switch gone.
  pub remove_vm_switch-Goes_iff :
      (s t : Session H) → (remove_vm_switch b d name nat_name s ≡ some (t, ok tt)) ↔ Goes s t
  unfolding remove_vm_switch
  remove_vm_switch-Goes_iff s t =
      let m = get_vm_switch b d name nat_name in
      let f = remove_found b d name nat_name in
      (
        (λ h.
            let (u, a, g, k) = (bind_iff m f s t (ok tt)).0 h in
            elim (Result-cases a) [
              | inl (sw, q) ↦ inr (u, sw, cc, (found_iff sw u t).0 (rw q at k))
              | inr (e, q) ↦ let (n, w) = (gone e u t).0 (rw q at k) in inl (e, cc, n)
            ]),
        (λ x. elim x [
          | inl (e, g, n) ↦ bind_some m f s t (failed e) g ∙ (gone e t t).1 (n, refl)
          | inr (u, sw, g, r) ↦ bind_some m f s u (ok sw) g ∙ (found_iff sw u t).1 r
        ]),
      )
