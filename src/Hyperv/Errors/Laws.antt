-- ===== src/Hyperv/Errors/Laws.antt =====
-- Which failures of a script say that the object does not exist.
use terraform_provider_hyper.Hyperv.Errors.{
  map_category, ErrorEnvelope, is_not_found, parse_error_envelope,
}
use terraform_provider_hyper.Common.{
  refl, ◌≡◌, ◌≢◌, true, false, none, some, inl, inr, arith, ◌==◌, eq_iff, String, Option,
  Bool-cases, ◌↔◌, Option-cases, ◌∙◌, sym,
}

category_iff :
    (env : ErrorEnvelope)
    → (is_not_found (record { sentinel = some (map_category env) }) ≡ true)
      ↔ (env.category ≡ "ObjectNotFound")
unfolding map_category
category_iff env = ground (arith, eq_iff env.category "ObjectNotFound")

module _ (unmarshal : String → Option ErrorEnvelope) (stderr : String) where
  parse_empty : (stderr == "") ≡ true → is_not_found (parse_error_envelope unmarshal stderr) ≡ false
  unfolding parse_error_envelope
  parse_empty q = rw q refl

  parse_none :
      (stderr == "") ≡ false
      → unmarshal stderr ≡ none
      → is_not_found (parse_error_envelope unmarshal stderr) ≡ false
  unfolding parse_error_envelope
  parse_none q h = rw (q, h) refl

  parse_some :
      (env : ErrorEnvelope)
      → (stderr == "") ≡ false
      → unmarshal stderr ≡ some env
      → is_not_found (parse_error_envelope unmarshal stderr)
        ≡ is_not_found (record { sentinel = some (map_category env) })
  unfolding parse_error_envelope
  parse_some env q h = rw (q, h) refl

  abbrev FromEnvelope : Type 0
  FromEnvelope =
      (env : ErrorEnvelope) × (stderr ≢ "")
      × (unmarshal stderr ≡ some env)
      × (env.category ≡ "ObjectNotFound")

  to_envelope : is_not_found (parse_error_envelope unmarshal stderr) ≡ true → FromEnvelope
  to_envelope h = elim (Bool-cases (stderr == "")) [
    | inl q ↦ let e = parse_empty q in absurd (ground (arith, e, h))
    | inr q ↦ elim (Option-cases (unmarshal stderr)) [
      | inl n ↦ let e = parse_none q n in absurd (ground (arith, e, h))
      | inr (env, u) ↦ (
        env,
        (λ z. absurd (ground (arith, q, (eq_iff stderr "").1 z))),
        u,
        (category_iff env).0 (sym (parse_some env q u) ∙ h),
      )
    ]
  ]

  of_envelope : FromEnvelope → is_not_found (parse_error_envelope unmarshal stderr) ≡ true
  of_envelope (env, ne, u, c) = elim (Bool-cases (stderr == "")) [
    | inl q ↦ absurd (ne ((eq_iff stderr "").0 q))
    | inr q ↦ parse_some env q u ∙ (category_iff env).1 c
  ]

  -- A failed script counts as `not found` exactly when its error output is not empty and decodes to an
  -- envelope of the category ObjectNotFound.
  pub parse_error_envelope-not_found_iff :
      (is_not_found (parse_error_envelope unmarshal stderr) ≡ true) ↔ (
        (env : ErrorEnvelope) × (stderr ≢ "")
        × (unmarshal stderr ≡ some env)
        × (env.category ≡ "ObjectNotFound"))
  parse_error_envelope-not_found_iff = (to_envelope, of_envelope)
