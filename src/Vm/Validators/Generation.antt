-- ===== src/Vm/Validators/Generation.antt =====
-- What the three validators of generation 1 accept.
use terraform_provider_hyper.Vm.Model.{Model, BootOrderEntryModel}
use terraform_provider_hyper.Common.Int.{ℤ, pos, eq_ℤ_iff}
use terraform_provider_hyper.Vm.Validators.{
  validate_secure_boot, validate_secure_boot_template, validate_boot_order, rejected_for_gen1,
  is_empty,
}
use terraform_provider_hyper.Framework.{Attr, Diagnostic, is_unknown, is_known, is_null}
use terraform_provider_hyper.Common.{
  refl, [], ◌≡◌, true, false, arith, ◌⊎◌, Bool, if◌then◌else◌, ◌↔◌, ◌||◌, List, inl, inr, ◌∷◌,
}

-- A virtual machine of generation 2, or one whose generation is not known yet.
abbrev pub Gen2OrDeferred : Attr ℤ → Type 0
Gen2OrDeferred g = (g ≡ Attr.unknown) ⊎ (g ≡ Attr.known (pos 2))

rejected_iff :
    (g : Attr ℤ) (unset : Bool) (d : Diagnostic)
    → (rejected_for_gen1 g unset d ≡ []) ↔ (Gen2OrDeferred g ⊎ (unset ≡ true))
rejected_iff Attr.null unset d = ground arith
rejected_iff Attr.unknown unset d = ground arith
rejected_iff (Attr.known n) unset d = ground (arith, eq_ℤ_iff n (pos 2))

guarded_iff :
    {A : Type 0} (g : Attr ℤ) (a : Attr A) (d : Diagnostic)
    → ((if is_unknown g || is_unknown a then [] else rejected_for_gen1 g (is_null a) d) ≡ [])
      ↔ (Gen2OrDeferred g ⊎ (is_known a ≡ false))
guarded_iff Attr.null Attr.null d = ground arith
guarded_iff Attr.null Attr.unknown d = ground arith
guarded_iff Attr.null (Attr.known a) d = ground arith
guarded_iff Attr.unknown a d = ground arith
guarded_iff (Attr.known n) Attr.null d = ground (arith, eq_ℤ_iff n (pos 2))
guarded_iff (Attr.known n) Attr.unknown d = ground arith
guarded_iff (Attr.known n) (Attr.known a) d = ground (arith, eq_ℤ_iff n (pos 2))

-- No boot order, or one that is not known yet.
abbrev pub NoBootOrder : Attr (List BootOrderEntryModel) → Type 0
NoBootOrder a = (a ≡ Attr.null) ⊎ (a ≡ Attr.unknown) ⊎ (a ≡ Attr.known [])

is_empty_iff : (a : Attr (List BootOrderEntryModel)) → (is_empty a ≡ true) ↔ NoBootOrder a
is_empty_iff Attr.null = ((λ h. inl refl), (λ h. refl))
is_empty_iff Attr.unknown = ((λ h. inr (inl refl)), (λ h. refl))
is_empty_iff (Attr.known []) = ((λ h. inr (inr refl)), (λ h. refl))
is_empty_iff (Attr.known (e ∷ es)) = (
  (λ h. absurd (cc)),
  (λ h. elim h [ inl p ↦ absurd (cc) | inr (inl p) ↦ absurd (cc) | inr (inr p) ↦ absurd (cc) ]),
)

order_iff :
    (g : Attr ℤ) (a : Attr (List BootOrderEntryModel)) (d : Diagnostic)
    → (rejected_for_gen1 g (is_empty a) d ≡ []) ↔ (Gen2OrDeferred g ⊎ NoBootOrder a)
order_iff g a d = (
  (λ h. elim ((rejected_iff g (is_empty a) d).0 h) [
    | inl p ↦ inl p
    | inr p ↦ inr ((is_empty_iff a).0 p)
  ]),
  (λ h. elim h [
    | inl p ↦ (rejected_iff g (is_empty a) d).1 (inl p)
    | inr p ↦ (rejected_iff g (is_empty a) d).1 (inr ((is_empty_iff a).1 p))
  ]),
)

-- Each of the three validators of generation 1 reports nothing exactly when the generation is 2 or not
-- known yet, or its own attribute is not set: secure boot and its template null or unknown, the boot
-- order null, unknown or empty.
pub gen1_validators_iff :
    (config : Model)
    → ((validate_secure_boot config ≡ [])
        ↔ (Gen2OrDeferred config.generation ⊎ (is_known config.secure_boot ≡ false)))
      × ((validate_secure_boot_template config ≡ [])
          ↔ (Gen2OrDeferred config.generation ⊎ (is_known config.secure_boot_template ≡ false)))
      × ((validate_boot_order config ≡ [])
          ↔ (Gen2OrDeferred config.generation ⊎ NoBootOrder config.boot_order))
unfolding validate_secure_boot validate_secure_boot_template validate_boot_order
gen1_validators_iff config = (
  guarded_iff config.generation config.secure_boot _,
  guarded_iff config.generation config.secure_boot_template _,
  order_iff config.generation config.boot_order _,
)
