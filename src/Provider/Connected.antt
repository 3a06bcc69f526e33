-- ===== src/Provider/Connected.antt =====
-- When the configuration yields a connection.
use terraform_provider_hyper.Common.{
  String, Bool, true, false, ◌||◌, [], ◌∷◌, ◌++◌, Option, none, some, ◌≡◌, ◌↔◌, refl, inl, inr,
  Option-cases, ◌==◌, if◌then◌else◌, ◌∙◌, sym, ap,
}
use terraform_provider_hyper.Framework.{
  has_error, Diagnostic, Diagnostics, Severity, error, warning,
}
use terraform_provider_hyper.Connection.{Machine}
use terraform_provider_hyper.Provider.{ProviderModel, resolve_string}
use terraform_provider_hyper.Provider.Checked.{Checked, or_refuse, guard, warn_if, ◌>>=◌}
use terraform_provider_hyper.Provider.Backends.{
  Connection, ssh_options, winrm_options, check_kerberos, new_ssh_connection, new_winrm_connection,
  new_local_connection, new_connection,
}

abbrev pub is_none : {A : Type 0} → Option A → Bool
is_none none = true
is_none (some a) = false

-- There is no value exactly if an error is reported.
abbrev IsSound : {A : Type 0} → Checked A → Type 0
IsSound c = has_error c.diagnostics ≡ is_none c.value

severe :
    (s : Severity) (a b c : Bool)
    → a ≡ (b || c)
    → (elim s [ error ↦ true | warning ↦ a ]) ≡ ((elim s [ error ↦ true | warning ↦ b ]) || c)
severe error a b c h = refl
severe warning a b c h = h

has_error-append : (xs ys : Diagnostics) → has_error (xs ++ ys) ≡ (has_error xs || has_error ys)
has_error-append [] ys = refl
has_error-append (d ∷ xs) ys = severe d.severity _ _ _ (has_error-append xs ys)

IsSound->>= :
    {A B : Type 0} (m : Checked A) (f : A → Checked B)
    → IsSound m
    → ((a : A) → IsSound (f a))
    → IsSound (m >>= f)
IsSound->>= m f sm sf = elim (Option-cases m.value) [
  | inl q ↦ rw q (sm ∙ ap is_none q)
  | inr (a, q) ↦ rw q (
      has_error-append m.diagnostics (f a).diagnostics
      ∙ ap (λ x. x || has_error (f a).diagnostics) (sm ∙ ap is_none q)
      ∙ sf a)
]

IsSound-guard : (b : Bool) (d : Diagnostic) → d.severity ≡ error → IsSound (guard b d)
IsSound-guard true d h = refl
IsSound-guard false d h = rw h refl

IsSound-or_refuse :
    {A : Type 0} (d : Diagnostic) (o : Option A) → d.severity ≡ error → IsSound (or_refuse d o)
IsSound-or_refuse d none h = rw h refl
IsSound-or_refuse d (some a) h = refl

IsSound-warn_if : (b : Bool) (d : Diagnostic) → d.severity ≡ warning → IsSound (warn_if b d)
IsSound-warn_if true d h = rw h refl
IsSound-warn_if false d h = refl

module _ ⦃k : Machine⦄ where
  ssh_options-IsSound : (m : ProviderModel) → IsSound (ssh_options m)
  unfolding ssh_options
  ssh_options-IsSound m = search (IsSound->>=, IsSound-guard, IsSound-or_refuse) depth 30 fits 3000

  new_ssh_connection-IsSound : (m : ProviderModel) → IsSound (new_ssh_connection m)
  unfolding new_ssh_connection
  new_ssh_connection-IsSound m =
      search (IsSound->>=, IsSound-or_refuse, ssh_options-IsSound) depth 30 fits 3000

  check_kerberos-IsSound :
      (host realm password ccache_path : String)
      → IsSound (check_kerberos host realm password ccache_path)
  unfolding check_kerberos
  check_kerberos-IsSound host realm password ccache_path =
      search (IsSound->>=, IsSound-guard, IsSound-warn_if) depth 30 fits 3000

  if-IsSound :
      (b : Bool) (c d : Checked Unit) → IsSound c → IsSound d → IsSound (if b then c else d)
  if-IsSound true c d x y = x
  if-IsSound false c d x y = y

  winrm_options-IsSound : (m : ProviderModel) → IsSound (winrm_options m)
  unfolding winrm_options
  winrm_options-IsSound m =
      search
        (
          IsSound->>=, IsSound-guard, IsSound-or_refuse, IsSound-warn_if, if-IsSound,
          check_kerberos-IsSound,
        )
        depth 60 fits 6000

  new_winrm_connection-IsSound : (m : ProviderModel) → IsSound (new_winrm_connection m)
  unfolding new_winrm_connection
  new_winrm_connection-IsSound m =
      search (IsSound->>=, IsSound-or_refuse, winrm_options-IsSound) depth 30 fits 3000

  new_local_connection-IsSound : (m : ProviderModel) → IsSound (new_local_connection m)
  unfolding new_local_connection
  new_local_connection-IsSound m = search (IsSound->>=, IsSound-or_refuse) depth 30 fits 3000

  if_connection :
      (b : Bool) (c d : Checked Connection) → IsSound c → IsSound d → IsSound (if b then c else d)
  if_connection true c d x y = x
  if_connection false c d x y = y

  new_connection-IsSound : (m : ProviderModel) → IsSound (new_connection m)
  unfolding new_connection
  new_connection-IsSound m =
      let backend = resolve_string m.backend "HYPERV_BACKEND" "local" in
      if_connection (backend == "local") _ _ (new_local_connection-IsSound m) (
        if_connection (backend == "ssh") _ _ (new_ssh_connection-IsSound m)
          (if_connection (backend == "winrm") _ _ (new_winrm_connection-IsSound m) refl))

  -- The configuration of the provider yields a connection exactly if it reports no error, whatever its
  -- warnings: with any backend, attributes and environment.
  pub new_connection-connected_iff :
      (m : ProviderModel)
      → ((c : Connection) × ((new_connection m).value ≡ some c))
        ↔ (has_error (new_connection m).diagnostics ≡ false)
  new_connection-connected_iff m =
      let sound = new_connection-IsSound m in
      (
        (λ (c, q). sound ∙ ap is_none q),
        (λ h. elim (Option-cases (new_connection m).value) [
          | inl q ↦ let k = sym (sound ∙ ap is_none q) ∙ h in absurd (cc)
          | inr w ↦ w
        ]),
      )
