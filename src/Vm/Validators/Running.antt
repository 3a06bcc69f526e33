-- ===== src/Vm/Validators/Running.antt =====
-- What the validator of wait_for_guest_ip_timeout accepts.
use terraform_provider_hyper.Vm.Model.{Model, StateModel}
use terraform_provider_hyper.Vm.Wait.{Text, guest_ip_timeout}
use terraform_provider_hyper.Common.Int.{ℤ, ◌≤ℤ◌, ltb_ℤ_iff, pos, ltb_ℤ}
use terraform_provider_hyper.Vm.Validators.{validate_wait_requires_running, runs_after, desired_of}
use terraform_provider_hyper.Framework.{Attr, value_string}
use terraform_provider_hyper.Common.{
  refl, [], none, some, ◌≡◌, true, inl, inr, arith, ◌⊎◌, ◌==◌, eq_iff, Option, String, ap, ◌↔◌,
  Bool-cases, Option-cases, sym,
}

-- No wait follows: the timeout cannot be read, or is not positive.
abbrev pub NoWait : Option ℤ → Type 0
NoWait none = Unit
NoWait (some t) = t ≤ℤ pos 0

running_lem : (d : Attr String) → (value_string d == "Running") ≡ true → d ≡ Attr.known "Running"
running_lem (Attr.known s) h = ap Attr.known ((eq_iff s "Running").0 h)
running_lem Attr.null h = ground arith
running_lem Attr.unknown h = ground arith

runs_after-of :
    (o : Option ℤ) (d : Attr String)
    → runs_after o d ≡ []
    → NoWait o ⊎ ((d ≡ Attr.unknown) ⊎ (d ≡ Attr.known "Running"))
runs_after-of none d h = inl tt
runs_after-of (some t) Attr.unknown h = inr (inl refl)
runs_after-of (some t) Attr.null h = inl (ground (arith, ltb_ℤ_iff (pos 0) t))
runs_after-of (some t) (Attr.known s) h = elim (Bool-cases (ltb_ℤ (pos 0) t)) [
  | inr p ↦ inl (ground (arith, ltb_ℤ_iff (pos 0) t))
  | inl p ↦ elim (Bool-cases (s == "Running")) [
    | inl q ↦ inr (inr (running_lem (Attr.known s) q))
    | inr q ↦ absurd (ground arith)
  ]
]

runs_after-to :
    (o : Option ℤ) (d : Attr String)
    → NoWait o ⊎ ((d ≡ Attr.unknown) ⊎ (d ≡ Attr.known "Running"))
    → runs_after o d ≡ []
runs_after-to none d h = refl
runs_after-to (some t) Attr.unknown h = ground arith
runs_after-to (some t) Attr.null h = ground (arith, ltb_ℤ_iff (pos 0) t)
runs_after-to (some t) (Attr.known s) h = ground (arith, ltb_ℤ_iff (pos 0) t, eq_iff s "Running")

-- The attribute is not set, is not known yet, cannot be read as a duration, or is not positive.
abbrev pub NoTimeout : ⦃t : Text⦄ → Attr String → Type 0
NoTimeout ⦃t⦄ a =
    (a ≡ Attr.null)
    ⊎ (a ≡ Attr.unknown)
    ⊎ ((s : String) × (a ≡ Attr.known s) × (t.parse_duration s ≡ none))
    ⊎ ((s : String) × (n : ℤ) × (a ≡ Attr.known s) × (t.parse_duration s ≡ some n) × (n ≤ℤ pos 0))

-- There is a power state, and it is `Running` or not known yet.
abbrev pub RunsOrDeferred : Option StateModel → Type 0
RunsOrDeferred st =
    (s : StateModel) × (st ≡ some s)
    × ((s.desired ≡ Attr.unknown) ⊎ (s.desired ≡ Attr.known "Running"))

read_timeout_iff : ⦃t : Text⦄ (s : String) → NoWait (t.parse_duration s) ↔ NoTimeout (Attr.known s)
read_timeout_iff ⦃t⦄ s = elim (Option-cases (t.parse_duration s)) [
  | inl q ↦ rw q ((λ h. inr (inr (inl (s, refl, q)))), (λ h. tt))
  | inr (n, q) ↦ (
    (λ h. inr (inr (inr (s, n, refl, q, rw q at h)))),
    (λ h. elim h [
      | inl p ↦ absurd (cc)
      | inr (inl p) ↦ absurd (cc)
      | inr (inr (inl (s', p, e))) ↦ absurd (cc)
      | inr (inr (inr (s', m, p, e, le))) ↦ let k : m ≡ n = cc in rw (q, sym k) le
    ]),
  )
]

timeout_iff : ⦃t : Text⦄ (a : Attr String) → NoWait (guest_ip_timeout a) ↔ NoTimeout a
unfolding guest_ip_timeout
timeout_iff Attr.null = ((λ h. inl refl), (λ h. ground arith))
timeout_iff Attr.unknown = ((λ h. inr (inl refl)), (λ h. ground arith))
timeout_iff (Attr.known s) = read_timeout_iff s

desired_iff :
    (st : Option StateModel)
    → ((desired_of st ≡ Attr.unknown) ⊎ (desired_of st ≡ Attr.known "Running")) ↔ RunsOrDeferred st
desired_iff none =
    ((λ h. elim h [ inl p ↦ absurd (cc) | inr p ↦ absurd (cc) ]), (λ (s, p, d). absurd (cc)))
desired_iff (some s) = ((λ h. (s, refl, h)), (λ (s', p, d). let k : s' ≡ s = cc in rw k at d))

-- The validator of the wait reports nothing exactly when no wait would follow a create, because the
-- timeout is not set, not known yet, not readable as a duration or not positive, or when there is a
-- power state that is not known yet or is `Running`.
pub validate_wait-NoWait_iff :
    ⦃t : Text⦄
    → (config : Model)
    → (validate_wait_requires_running config ≡ [])
      ↔ (NoTimeout config.wait_for_guest_ip_timeout ⊎ RunsOrDeferred config.state)
unfolding validate_wait_requires_running
validate_wait-NoWait_iff config = (
  (λ h.
      elim (runs_after-of (guest_ip_timeout config.wait_for_guest_ip_timeout)
        (desired_of config.state) h) [
          | inl p ↦ inl ((timeout_iff config.wait_for_guest_ip_timeout).0 p)
          | inr p ↦ inr ((desired_iff config.state).0 p)
        ]),
  (λ h.
      runs_after-to (guest_ip_timeout config.wait_for_guest_ip_timeout) (desired_of config.state)
        (elim h [
          | inl p ↦ inl ((timeout_iff config.wait_for_guest_ip_timeout).1 p)
          | inr p ↦ inr ((desired_iff config.state).1 p)
        ])),
)
