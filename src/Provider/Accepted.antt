-- ===== src/Provider/Accepted.antt =====
-- The checks of the configuration against those of the WinRM backend.
use terraform_provider_hyper.Common.{
  String, Bool, true, false, ◌||◌, Option, none, some, ◌≡◌, ◌≢◌, ◌↔◌, ◌⊎◌, refl, inl, inr,
  Bool-cases, ◌==◌, eq_iff, if◌then◌else◌, arith,
}
use terraform_provider_hyper.Common.Int.{ℤ, pos, ltb_ℤ, ◌≤ℤ◌}
use terraform_provider_hyper.Connection.{Machine}
use terraform_provider_hyper.Connection.Ssh.{SshOptions}
use terraform_provider_hyper.Connection.Winrm.{
  WinRmOptions, new_winrm, credentials_ok, or_text, or_int, with_defaults,
}
use terraform_provider_hyper.Provider.{ProviderModel}
use terraform_provider_hyper.Provider.Backends.{ssh_options, winrm_options}
use terraform_provider_hyper.Provider.Options.{
  Yields, IsPort, WinRmValid, ssh_options-Yields, winrm_options-Yields,
}

-- The ways of authentication that NewWinRM knows.
abbrev pub IsKnownAuth : String → Type 0
IsKnownAuth a = (a ≡ "ntlm") ⊎ (a ≡ "basic") ⊎ (a ≡ "kerberos")

ne_eq : (s t : String) → s ≢ t → (s == t) ≡ false
ne_eq s t h = elim (Bool-cases (s == t)) [ inl e ↦ absurd (h ((eq_iff s t).0 e)) | inr e ↦ e ]

auth_ok :
    (a : String) (o : WinRmOptions)
    → (a ≢ "kerberos" → o.password ≢ "")
    → (a ≡ "kerberos" → o.krb_realm ≢ "")
    → (a ≡ "kerberos"
        → ((o.password ≢ "") × (o.krb_ccache_path ≡ ""))
          ⊎ ((o.password ≡ "") × (o.krb_ccache_path ≢ "")))
    → IsKnownAuth a
    → credentials_ok a o ≡ true
unfolding credentials_ok
auth_ok a o p r c (inl e) = rw (e, ne_eq o.password "" (p (λ k. absurd (cc)))) refl
auth_ok a o p r c (inr (inl e)) = rw (e, ne_eq o.password "" (p (λ k. absurd (cc)))) refl
auth_ok a o p r c (inr (inr e)) = elim (c e) [
  | inl (x, y) ↦ rw (e, ne_eq o.krb_realm "" (r e), ne_eq o.password "" x, y) refl
  | inr (x, y) ↦ rw (e, ne_eq o.krb_realm "" (r e), x, ne_eq o.krb_ccache_path "" y) refl
]

ok_auth : (a : String) (o : WinRmOptions) → credentials_ok a o ≡ true → IsKnownAuth a
unfolding credentials_ok
ok_auth a o h = ground (arith, eq_iff a "ntlm", eq_iff a "basic", eq_iff a "kerberos", h)

in_bounds : (n : ℤ) → IsPort n → (ltb_ℤ n (pos 1) || ltb_ℤ (pos 65535) n) ≡ false
in_bounds n h = ground (arith, h)

not_negative : (n : ℤ) → pos 0 ≤ℤ n → ltb_ℤ n (pos 0) ≡ false
not_negative n h = ground (arith, h)

if_none : {A : Type 0} (b : Bool) (x : Option A) → x ≡ none → (if b then none else x) ≡ none
if_none true x e = refl
if_none false x e = e

shells : (n : ℤ) → pos 0 ≤ℤ n → pos 1 ≤ℤ or_int n (pos 3)
shells n h = ground (arith, h)

module _ ⦃k : Machine⦄ (o : WinRmOptions) where
  abbrev effective_auth : String
  effective_auth = or_text o.auth "ntlm"

  abbrev effective_port : ℤ
  effective_port = or_int o.port (if o.use_https then pos 5986 else pos 5985)

  port_kept : IsPort o.port → effective_port ≡ o.port
  port_kept h = ground (arith, h)

  accepted :
      (o.host == "") ≡ false
      → (o.username == "") ≡ false
      → credentials_ok effective_auth o ≡ true
      → IsPort o.port
      → pos 0 ≤ℤ o.max_shells
      → new_winrm o ≡ some (with_defaults effective_auth o.port o)
  unfolding new_winrm
  accepted h u c p n =
      rw (h, u, c, port_kept p, in_bounds o.port p, not_negative o.max_shells n) refl

  rejected : credentials_ok effective_auth o ≡ false → new_winrm o ≡ none
  unfolding new_winrm
  rejected c = if_none (o.host == "") _ (if_none (o.username == "") _ (rw c refl))

  -- The credentials pass exactly for a known way of authentication.
  known_auth : WinRmValid o → (credentials_ok effective_auth o ≡ true) ↔ IsKnownAuth effective_auth
  known_auth v = elim (Bool-cases (o.auth == "")) [
    | inl e ↦
        let blank = (eq_iff o.auth "").0 e in
        rw e (
          ok_auth "ntlm" o,
          auth_ok "ntlm" o (λ ne. v.password (λ z. absurd (cc))) (λ z. absurd (cc))
              (λ z. absurd (cc)),
        )
    | inr e ↦ rw e (ok_auth o.auth o, auth_ok o.auth o v.password v.realm v.one_credential)
  ]

-- If the configuration yields options for the WinRM backend, then the backend accepts them exactly when
-- their way of authentication, ntlm if it is empty, is ntlm, basic or kerberos; what it then keeps has
-- the port of the options, which is between 1 and 65535, and at least one shell.
pub winrm_options-accepted_iff :
    ⦃k : Machine⦄ (m : ProviderModel) (o : WinRmOptions)
    → (winrm_options m).value ≡ some o
    → ((kept : WinRmOptions) × (new_winrm o ≡ some kept)
        × (kept.port ≡ o.port)
        × IsPort kept.port
        × (pos 1 ≤ℤ kept.max_shells))
      ↔ IsKnownAuth (or_text o.auth "ntlm")
unfolding Yields
winrm_options-accepted_iff m o q =
    let v = winrm_options-Yields m o q in
    let known = known_auth o v in
    (
      (λ (kept, a, p, r, n). known.0 (elim (Bool-cases (credentials_ok (or_text o.auth "ntlm") o)) [
        | inl c ↦ c
        | inr c ↦ let r = rejected o c in absurd (cc)
      ])),
      (λ w.
          let a =
            accepted o (ne_eq o.host "" v.host) (ne_eq o.username "" v.username) (known.1 w) v.port
              v.max_shells in
          (
            with_defaults (or_text o.auth "ntlm") o.port o,
            a,
            refl,
            v.port,
            shells o.max_shells v.max_shells,
          )),
    )

-- Options that the configuration yields for the SSH backend have a host and a user, and a port between 1
-- and 65535.
pub ssh_options_bounds :
    ⦃k : Machine⦄ (m : ProviderModel) (o : SshOptions)
    → (ssh_options m).value ≡ some o
    → (o.host ≢ "") × (o.username ≢ "") × IsPort o.port
unfolding Yields
ssh_options_bounds m o q = let v = ssh_options-Yields m o q in (v.host, v.username, v.port)
