-- ===== src/Vswitch/Validators/Fits.antt =====
-- What the create script may rely on, once the configuration is accepted.
use terraform_provider_hyper.Common.{
  String, List, [], ◌∷◌, ◌++◌, Bool, true, false, none, ◌≡◌, ◌≢◌, refl, inl, inr, Bool-cases, ◌==◌,
  eq_iff, not, if◌then◌else◌,
}
use terraform_provider_hyper.Framework.{
  Attr, null, unknown, known, Diagnostic, is_null, is_known, is_unknown, value_string,
}
use terraform_provider_hyper.Hyperv.Switches.{NewVmSwitchInput}
use terraform_provider_hyper.Vswitch.Model.{Model, build_new_input, pointer, names_of}
use terraform_provider_hyper.Vswitch.Network.{Net}
use terraform_provider_hyper.Vswitch.Validators.{
  validate, validate_private_allow_management_os, validate_external_adapter_names,
  validate_nat_required, validate_nat_rejects, validate_nat_only, validate_nat_prefix,
  validate_nat_host_address, validate_force_migration, report_if, adapter_names,
}

append_nil {ℓ} : {A : Type ℓ} (xs ys : List A) → xs ++ ys ≡ [] → (xs ≡ []) × (ys ≡ [])
append_nil [] ys h = (refl, h)
append_nil (x ∷ xs) ys h = absurd (cc)

unreported : (b : Bool) (d : Diagnostic) → report_if b d ≡ [] → b ≡ false
unreported true d h = absurd (cc)
unreported false d h = refl

-- Of a NAT switch: no adapters, no sharing with the host, and the NAT attributes are given and sent.
abbrev pub FitsNat : Model → NewVmSwitchInput → Type 0
FitsNat m i =
    (i.net_adapter_names ≡ [])
    × (i.allow_management_os ≡ none)
    × (is_null m.nat_name ≡ false)
    × (is_null m.nat_internal_address_prefix ≡ false)
    × (is_null m.nat_host_address ≡ false)
    × (i.nat_name ≡ value_string m.nat_name)
    × (i.nat_internal_address_prefix ≡ value_string m.nat_internal_address_prefix)
    × (i.nat_host_address ≡ value_string m.nat_host_address)

-- Of any other switch: no NAT.
abbrev pub FitsPlain : NewVmSwitchInput → Type 0
FitsPlain i = (i.nat_name ≡ "") × (i.nat_internal_address_prefix ≡ "") × (i.nat_host_address ≡ "")

abbrev pub FitsScript : Model → String → NewVmSwitchInput → Type 0
FitsScript m t i =
    (t ≡ "NAT" → FitsNat m i)
    × (t ≢ "NAT" → FitsPlain i)
    × (t ≡ "Private" → i.allow_management_os ≡ none)
    × (t ≡ "External" → is_unknown m.net_adapter_names ≡ false → i.net_adapter_names ≢ [])

unknown_pointer : {A : Type 0} (a : Attr A) → is_known a ≡ false → pointer a ≡ none
unknown_pointer null h = refl
unknown_pointer unknown h = refl
unknown_pointer (known a) h = absurd (cc)

unknown_names : (a : Attr (List String)) → is_known a ≡ false → names_of a ≡ []
unknown_names null h = refl
unknown_names unknown h = refl
unknown_names (known a) h = absurd (cc)

unknown_text : (a : Attr String) → is_known a ≡ false → value_string a ≡ ""
unknown_text null h = refl
unknown_text unknown h = refl
unknown_text (known a) h = absurd (cc)

some_names :
    (a : Attr (List String)) → adapter_names a ≡ [] → is_unknown a ≡ false → names_of a ≢ []
some_names null h u e = cc
some_names unknown h u e = cc
some_names (known []) h u e = cc
some_names (known (n ∷ ns)) h u e = cc

private_pointer :
    (a : Attr Bool) (d : Diagnostic)
    → (if is_unknown a then [] else report_if (not (is_null a)) d) ≡ []
    → pointer a ≡ none
private_pointer null d h = refl
private_pointer unknown d h = refl
private_pointer (known a) d h = absurd (cc)

none_known :
    (a b c : Attr String) (d e f : Diagnostic)
    → report_if (is_known a) d ++ report_if (is_known b) e ++ report_if (is_known c) f ≡ []
    → (value_string a ≡ "") × (value_string b ≡ "") × (value_string c ≡ "")
none_known a b c d e f h =
    let (xy, z) = append_nil (report_if (is_known a) d ++ report_if (is_known b) e) _ h in
    let (x, y) = append_nil (report_if (is_known a) d) _ xy in
    (
      unknown_text a (unreported (is_known a) d x),
      unknown_text b (unreported (is_known b) e y),
      unknown_text c (unreported (is_known c) f z),
    )

none_null :
    (a b c : Attr String) (d e f : Diagnostic)
    → report_if (is_null a) d ++ report_if (is_null b) e ++ report_if (is_null c) f ≡ []
    → (is_null a ≡ false) × (is_null b ≡ false) × (is_null c ≡ false)
none_null a b c d e f h =
    let (xy, z) = append_nil (report_if (is_null a) d ++ report_if (is_null b) e) _ h in
    let (x, y) = append_nil (report_if (is_null a) d) _ xy in
    (unreported (is_null a) d x, unreported (is_null b) e y, unreported (is_null c) f z)

module _ (m : Model) (t : String) (k : m.switch_type ≡ known t) where
  private_part :
      validate_private_allow_management_os m ≡ []
      → t ≡ "Private"
      → pointer m.allow_management_os ≡ none
  unfolding validate_private_allow_management_os
  private_part h e = private_pointer m.allow_management_os _ (rw (k, e) at h)

  external_part :
      validate_external_adapter_names m ≡ []
      → t ≡ "External"
      → is_unknown m.net_adapter_names ≡ false
      → names_of m.net_adapter_names ≢ []
  unfolding validate_external_adapter_names
  external_part h e u = some_names m.net_adapter_names (rw (k, e, u) at h) u

  required_part :
      validate_nat_required m ≡ []
      → t ≡ "NAT"
      → (is_null m.nat_name ≡ false)
        × (is_null m.nat_internal_address_prefix ≡ false)
        × (is_null m.nat_host_address ≡ false)
  unfolding validate_nat_required
  required_part h e =
      none_null m.nat_name m.nat_internal_address_prefix m.nat_host_address _ _ _ (rw (k, e) at h)

  rejects_part :
      validate_nat_rejects m ≡ []
      → t ≡ "NAT"
      → (names_of m.net_adapter_names ≡ []) × (pointer m.allow_management_os ≡ none)
  unfolding validate_nat_rejects
  rejects_part h e =
      let (x, y) = append_nil (report_if (is_known m.net_adapter_names) _) _ (rw (k, e) at h) in
      (
        unknown_names m.net_adapter_names (unreported (is_known m.net_adapter_names) _ x),
        unknown_pointer m.allow_management_os (unreported (is_known m.allow_management_os) _ y),
      )

  only_part :
      validate_nat_only m ≡ []
      → (t == "NAT") ≡ false
      → (value_string m.nat_name ≡ "")
        × (value_string m.nat_internal_address_prefix ≡ "")
        × (value_string m.nat_host_address ≡ "")
  unfolding validate_nat_only
  only_part h e =
      none_known m.nat_name m.nat_internal_address_prefix m.nat_host_address _ _ _ (rw (k, e) at h)

  -- If the validators report nothing on a configuration with a known switch type, then the input of the
  -- create script built from it fits that type: for NAT it has no adapters and no flag of sharing, the
  -- three NAT attributes are not null, and its NAT fields are what they say; for any other type its NAT fields are empty; for Private it
  -- has no flag of sharing; for External it has an adapter, unless the list is unknown.
  pub build_new_input-FitsScript :
      ⦃net : Net⦄ → validate m ≡ [] → FitsScript m t (build_new_input m)
  unfolding validate build_new_input
  build_new_input-FitsScript h =
      let (h7, r8) = append_nil _ (validate_force_migration m) h in
      let (h6, r7) = append_nil _ (validate_nat_host_address m) h7 in
      let (h5, r6) = append_nil _ (validate_nat_prefix m) h6 in
      let (h4, r5) = append_nil _ (validate_nat_only m) h5 in
      let (h3, r4) = append_nil _ (validate_nat_rejects m) h4 in
      let (h2, r3) = append_nil _ (validate_nat_required m) h3 in
      let (r1, r2) = append_nil _ (validate_external_adapter_names m) h2 in
      (
        (λ e.
            let (names, allow) = rejects_part r4 e in
            let (a, b, c) = required_part r3 e in (names, allow, a, b, c, refl, refl, refl)),
        (λ ne. elim (Bool-cases (t == "NAT")) [
          | inl e ↦ absurd (ne ((eq_iff t "NAT").0 e))
          | inr e ↦ only_part r5 e
        ]),
        private_part r1,
        external_part r2,
      )
