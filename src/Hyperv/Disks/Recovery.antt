-- ===== src/Hyperv/Disks/Recovery.antt =====
-- What the create operations answer when the connection drops before the script's exit status comes.
use terraform_provider_hyper.Common.{
  ℕ, ◌≡◌, ◌↔◌, true, false, Option, some, refl, arith, eq_iff, ◌<◌,
}
use terraform_provider_hyper.Common.Int.{pos, eq_ℤ_iff, ltb_ℤ_iff, ◌<ℤ◌}
use terraform_provider_hyper.Hyperv.Client.{Result, ok, failed}
use terraform_provider_hyper.Hyperv.Errors.{ClientError, is_session_dropped}
use terraform_provider_hyper.Hyperv.Clock.{Clock}
use terraform_provider_hyper.Hyperv.Script.{Backend, Payload}
use terraform_provider_hyper.Hyperv.Session.{Session, Op, lift}
use terraform_provider_hyper.Hyperv.Verify.{verify_attempts, Verdict, wait, verify_delay}
use terraform_provider_hyper.Hyperv.Verify.Laws.{
  verify-ConfirmedWithin_iff, verify-failed, verify_total, Tried,
}
use terraform_provider_hyper.Hyperv.Disks.{
  Vhd, ExpectedVhd, NewVhdFixedInput, NewVhdDynamicInput, NewVhdDifferencingInput, DiskDecoder,
  judge_vhd, get_vhd, recover_vhd_new_on_drop, run_new, fixed_payload, dynamic_payload,
  differencing_payload, new_vhd_fixed, new_vhd_dynamic, new_vhd_differencing, unless_dropped,
}

-- The disk is of the kind that was asked for, and of the size, if one was.
abbrev pub AsExpected : ExpectedVhd → Vhd → Type 0
AsExpected e v = (v.vhd_type ≡ e.vhd_type) × (pos 0 <ℤ e.size_bytes → v.size_bytes ≡ e.size_bytes)

judge_vhd-confirmed :
    (e : ExpectedVhd) (r : Result Vhd) (v : Vhd)
    → (judge_vhd e r ≡ Verdict.confirmed v) ↔ ((r ≡ ok v) × AsExpected e v)
unfolding judge_vhd
judge_vhd-confirmed e (ok w) v = ground (
  arith,
  eq_iff w.vhd_type e.vhd_type,
  eq_ℤ_iff w.size_bytes e.size_bytes,
  ltb_ℤ_iff (pos 0) e.size_bytes,
)
judge_vhd-confirmed e (failed x) v = ground arith

-- A disk to create, of one of the three kinds.
pub data NewVhd : Type 0 where
  fixed : NewVhdFixedInput → NewVhd
  dynamic : NewVhdDynamicInput → NewVhd
  differencing : NewVhdDifferencingInput → NewVhd

abbrev pub payload : NewVhd → Payload
payload (fixed i) = fixed_payload i
payload (dynamic i) = dynamic_payload i
payload (differencing i) = differencing_payload i

-- A differencing disk takes its size from its parent.
abbrev pub expected : NewVhd → ExpectedVhd
expected (fixed i) = record { path = i.path; vhd_type = "Fixed"; size_bytes = i.size_bytes }
expected (dynamic i) = record { path = i.path; vhd_type = "Dynamic"; size_bytes = i.size_bytes }
expected (differencing i) = record { path = i.path; vhd_type = "Differencing"; size_bytes = pos 0 }

module _ {ℓ} {H : Type ℓ} ⦃c : Clock H⦄ (b : Backend H) (d : DiskDecoder) where
  abbrev pub create_vhd : NewVhd → Op H Vhd
  create_vhd (fixed i) = new_vhd_fixed b d i
  create_vhd (dynamic i) = new_vhd_dynamic b d i
  create_vhd (differencing i) = new_vhd_differencing b d i

  abbrev pub reading : ExpectedVhd → Op H Vhd
  reading e = lift (get_vhd b d e.path)

  -- After at most n - 1 unclear reads, a read finds the disk as expected and leaves the session t.
  abbrev pub FoundWithin : ℕ → ExpectedVhd → Session H → Session H → Vhd → Type ℓ
  FoundWithin n e s t v =
      (k : ℕ) × (u : Session H) × (k < n)
      × Tried (reading e) (judge_vhd e) k s u
      × ((wait verify_delay u).1 ≡ true)
      × (reading e (wait verify_delay u).0 ≡ some (t, ok v))
      × AsExpected e v

  -- What comes out when the script of a create fails with the error x in the session s.
  abbrev pub AfterDrop :
      ExpectedVhd → Session H → ClientError → Option (Session H × Result Vhd) → Type ℓ
  AfterDrop e s x out =
      (t : Session H) × (r : Result Vhd) × (out ≡ some (t, r))
      × ((y : ClientError) → r ≡ failed y → y ≡ x)
      × ((v : Vhd) → (r ≡ ok v) ↔ FoundWithin verify_attempts e s t v)

  abbrev pub Recovers :
      ExpectedVhd → Session H → Result Vhd → Option (Session H × Result Vhd) → Type ℓ
  Recovers e s (ok v) out = out ≡ some (s, ok v)
  Recovers e s (failed x) out =
      (is_session_dropped x ≡ false → out ≡ some (s, failed x))
      × (is_session_dropped x ≡ true → AfterDrop e s x out)

  found_iff :
      (e : ExpectedVhd) (x : ClientError) (s t : Session H) (v : Vhd)
      → (recover_vhd_new_on_drop b d e x s ≡ some (t, ok v)) ↔ FoundWithin verify_attempts e s t v
  unfolding recover_vhd_new_on_drop
  found_iff e x s t v =
      let both = verify-ConfirmedWithin_iff (reading e) (judge_vhd e) x verify_attempts s t v in
      (
        (λ h.
            let (k, u, lt, w, (p, r, g, j)) = both.0 h in
            let (q, m) = (judge_vhd-confirmed e r v).0 j in (k, u, lt, w, p, cc, m)),
        (λ (k, u, lt, w, p, g, m).
            both.1 (k, u, lt, w, (p, ok v, g, (judge_vhd-confirmed e (ok v) v).1 (refl, m)))),
      )

  recover_vhd_new_on_drop-AfterDrop :
      (e : ExpectedVhd) (x : ClientError) (s : Session H)
      → AfterDrop e s x (recover_vhd_new_on_drop b d e x s)
  unfolding recover_vhd_new_on_drop
  recover_vhd_new_on_drop-AfterDrop e x s =
      let (t, r, q, u) =
        verify_total (reading e) (judge_vhd e) x (λ s'. Unit {0})
          (λ s' p. let a = get_vhd b d e.path s'.host in (record s' { host = a.0 }, a.1, refl, tt))
          (λ s' p. tt) verify_attempts s tt in
      (
        t,
        r,
        q,
        (λ y h. verify-failed (reading e) (judge_vhd e) x verify_attempts s t y (cc)),
        (λ v.
            ((λ h. (found_iff e x s t v).0 (cc)), (λ f. let g = (found_iff e x s t v).1 f in cc))),
      )

  of_drop :
      (e : ExpectedVhd) (s : Session H) (r : Result Vhd) → Recovers e s r (unless_dropped b d e r s)
  of_drop e s (ok v) = refl
  of_drop e s (failed x) = ((λ h. rw h refl), (λ h. rw h (recover_vhd_new_on_drop-AfterDrop e x s)))

  -- Creating a disk of any of the three kinds answers as the script did, unless that failed because the
  -- connection dropped. Then it comes to an end, a failure is the error of the drop, and it succeeds with
  -- a disk exactly when one of at most five reads, each after a full wait and all before it unclear,
  -- finds that disk with the kind that was asked for, and with the size if a positive one was.
  pub create_vhd-Recovers :
      (n : NewVhd) (s : Session H)
      → let (h, r) = run_new b d (payload n) s.host in
        Recovers (expected n) (record s { host = h }) r (create_vhd n s)
  unfolding new_vhd_fixed new_vhd_dynamic new_vhd_differencing
  create_vhd-Recovers (fixed i) s =
      let a = run_new b d (payload (fixed i)) s.host in
      of_drop (expected (fixed i)) (record s { host = a.0 }) a.1
  create_vhd-Recovers (dynamic i) s =
      let a = run_new b d (payload (dynamic i)) s.host in
      of_drop (expected (dynamic i)) (record s { host = a.0 }) a.1
  create_vhd-Recovers (differencing i) s =
      let a = run_new b d (payload (differencing i)) s.host in
      of_drop (expected (differencing i)) (record s { host = a.0 }) a.1
