-- ===== src/Hyperv/Verify/Laws.antt =====
-- What the loop after a dropped connection finds out.
use terraform_provider_hyper.Common.{
  ℕ, zero, suc, ◌<◌, ◌≡◌, ◌↔◌, ◌⊎◌, inl, inr, Bool, true, false, none, some, refl, arith,
  Bool-cases, Option-cases, ◌∙◌, sym,
}
use terraform_provider_hyper.Hyperv.Client.{Result, ok, failed}
use terraform_provider_hyper.Hyperv.Errors.{ClientError}
use terraform_provider_hyper.Hyperv.Clock.{Clock}
use terraform_provider_hyper.Hyperv.Session.{Session, Op}
use terraform_provider_hyper.Hyperv.Verify.{
  Verdict, confirmed, refuted, unclear, verify, verify_delay, wait,
}

pub Verdict-cases :
    {A : Type 0} (v : Verdict A) → ((a : A) × (v ≡ confirmed a)) ⊎ (v ≡ refuted) ⊎ (v ≡ unclear)
Verdict-cases (confirmed a) = inl (a, refl)
Verdict-cases refuted = inr (inl refl)
Verdict-cases unclear = inr (inr refl)

module _ {ℓ} {H : Type ℓ} ⦃c : Clock H⦄ {A B : Type 0} (get : Op H B)
    (judge : Result B → Verdict A) where
  abbrev after : Session H → Session H
  after s = (wait verify_delay s).0

  abbrev elapses : Session H → Bool
  elapses s = (wait verify_delay s).1

  -- After k full waits, each followed by a read that was unclear.
  abbrev pub Tried : ℕ → Session H → Session H → Type ℓ
  Tried zero s t = s ≡ t
  Tried (suc k) s t =
      (elapses s ≡ true)
      × (u : Session H) × (r : Result B) × (get (after s) ≡ some (u, r))
      × (judge r ≡ unclear)
      × Tried k u t

  -- After a full wait, a read confirms the value and leaves the session t.
  abbrev pub ConfirmedBy : Session H → Session H → A → Type ℓ
  ConfirmedBy s t a =
      (elapses s ≡ true) × (r : Result B) × (get (after s) ≡ some (t, r)) × (judge r ≡ confirmed a)

  -- Among the first n reads.
  abbrev pub ConfirmedWithin : ℕ → Session H → Session H → A → Type ℓ
  ConfirmedWithin n s t a = (k : ℕ) × (u : Session H) × (k < n) × Tried k s u × ConfirmedBy u t a

  module _ (original : ClientError) where
    abbrev loop : ℕ → Op H A
    loop = verify get judge original

    verify_none : (s : Session H) → loop zero s ≡ some (s, failed original)
    unfolding verify
    verify_none s = refl

    verify_cut :
        (n : ℕ) (s : Session H)
        → elapses s ≡ false
        → loop (suc n) s ≡ some (after s, failed original)
    unfolding verify
    verify_cut n s p = rw p refl

    verify_stuck :
        (n : ℕ) (s : Session H) → elapses s ≡ true → get (after s) ≡ none → loop (suc n) s ≡ none
    unfolding verify
    verify_stuck n s p g = rw (p, g) refl

    module _ (n : ℕ) (s u : Session H) (r : Result B) (p : elapses s ≡ true)
        (g : get (after s) ≡ some (u, r)) where
      verify_confirmed : (a : A) → judge r ≡ confirmed a → loop (suc n) s ≡ some (u, ok a)
      unfolding verify
      verify_confirmed a j = rw (p, g, j) refl

      verify_refuted : judge r ≡ refuted → loop (suc n) s ≡ some (u, failed original)
      unfolding verify
      verify_refuted j = rw (p, g, j) refl

      verify_again : judge r ≡ unclear → loop (suc n) s ≡ loop n u
      unfolding verify
      verify_again j = rw (p, g, j) refl

    confirmed-verify :
        (k n : ℕ) (s u t : Session H) (a : A)
        → k < n
        → Tried k s u
        → ConfirmedBy u t a
        → loop n s ≡ some (t, ok a)
    confirmed-verify k zero s u t a h w e = absurd (omega (arith, h))
    confirmed-verify zero (suc n) s u t a h w (p, r, g, j) = rw w (verify_confirmed n u t r p g a j)
    confirmed-verify (suc k) (suc n) s u t a h (p, v, r, g, j, w) e =
        verify_again n s v r p g j ∙ confirmed-verify k n v u t a (omega (arith, h)) w e

    verify-confirmed :
        (n : ℕ) (s t : Session H) (a : A) → loop n s ≡ some (t, ok a) → ConfirmedWithin n s t a
    verify-confirmed zero s t a h = let q = verify_none s in absurd (cc)
    verify-confirmed (suc n) s t a h = elim (Bool-cases (elapses s)) [
      | inr p ↦ let q = verify_cut n s p in absurd (cc)
      | inl p ↦ elim (Option-cases (get (after s))) [
        | inl g ↦ let q = verify_stuck n s p g in absurd (cc)
        | inr ((u, r), g) ↦ elim (Verdict-cases (judge r)) [
          | inl (b, j) ↦
              let q = sym (verify_confirmed n s u r p g b j) ∙ h in
              (0, s, omega arith, refl, (p, r, cc, cc))
          | inr (inl j) ↦ let q = verify_refuted n s u r p g j in absurd (cc)
          | inr (inr j) ↦
              let (k, v, lt, w, e) =
                verify-confirmed n u t a (sym (verify_again n s u r p g j) ∙ h) in
              (suc k, v, omega (arith, lt), (p, u, r, g, j, w), e)
        ]
      ]
    ]

    -- The loop succeeds exactly with what one of the first n reads confirms.
    pub verify-ConfirmedWithin_iff :
        (n : ℕ) (s t : Session H) (a : A) → (loop n s ≡ some (t, ok a)) ↔ ConfirmedWithin n s t a
    verify-ConfirmedWithin_iff n s t a =
        (verify-confirmed n s t a, (λ (k, u, lt, w, e). confirmed-verify k n s u t a lt w e))

    -- Its failures are the error of the drop.
    pub verify-failed :
        (n : ℕ) (s t : Session H) (e : ClientError) → loop n s ≡ some (t, failed e) → e ≡ original
    verify-failed zero s t e h = let q = verify_none s in cc
    verify-failed (suc n) s t e h = elim (Bool-cases (elapses s)) [
      | inr p ↦ let q = verify_cut n s p in cc
      | inl p ↦ elim (Option-cases (get (after s))) [
        | inl g ↦ let q = verify_stuck n s p g in absurd (cc)
        | inr ((u, r), g) ↦ elim (Verdict-cases (judge r)) [
          | inl (b, j) ↦ let q = verify_confirmed n s u r p g b j in absurd (cc)
          | inr (inl j) ↦ let q = verify_refuted n s u r p g j in cc
          | inr (inr j) ↦ verify-failed n u t e (sym (verify_again n s u r p g j) ∙ h)
        ]
      ]
    ]

    -- If no read waits for ever and each keeps a property of the session that the waits keep too, the
    -- loop ends in a session that has it.
    module _ {κ} (P : Session H → Type κ)
        (get-P : (s : Session H)
          → P s
          → (t : Session H) × (r : Result B) × (get s ≡ some (t, r)) × P t)
        (after-P : (s : Session H) → P s → P (after s)) where
      pub verify_total :
          (n : ℕ) (s : Session H)
          → P s
          → (t : Session H) × (r : Result A) × (loop n s ≡ some (t, r)) × P t
      verify_total zero s ps = (s, failed original, verify_none s, ps)
      verify_total (suc n) s ps =
          let (u, r, g, pu) = get-P (after s) (after-P s ps) in
          elim (Bool-cases (elapses s)) [
            | inr p ↦ (after s, failed original, verify_cut n s p, after-P s ps)
            | inl p ↦ elim (Verdict-cases (judge r)) [
              | inl (b, j) ↦ (u, ok b, verify_confirmed n s u r p g b j, pu)
              | inr (inl j) ↦ (u, failed original, verify_refuted n s u r p g j, pu)
              | inr (inr j) ↦
                  let (t, r', e, pt) = verify_total n u pu in
                  (t, r', verify_again n s u r p g j ∙ e, pt)
            ]
          ]
