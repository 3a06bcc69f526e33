-- ===== src/Provider/Options.antt =====
-- What holds of the options that the configuration hands to a backend.
use terraform_provider_hyper.Common.{
  String, Bool, true, false, not, ◌&&◌, ◌||◌, Option, none, some, ◌≡◌, ◌≢◌, ◌⊎◌, refl, inl, inr,
  Bool-cases, ◌==◌, eq_iff, if◌then◌else◌, arith, subst,
}
use terraform_provider_hyper.Common.Int.{ℤ, pos, ltb_ℤ, ◌≤ℤ◌}
use terraform_provider_hyper.Framework.{Diagnostic}
use terraform_provider_hyper.Connection.{Machine}
use terraform_provider_hyper.Connection.Ssh.{SshOptions}
use terraform_provider_hyper.Connection.Winrm.{WinRmOptions}
use terraform_provider_hyper.Provider.{ProviderModel}
use terraform_provider_hyper.Provider.Checked.{
  Checked, pass, or_refuse, guard, warn_if, ◌>>=◌, ◌>>◌,
}
use terraform_provider_hyper.Provider.Backends.{
  ssh_options, winrm_options, check_kerberos, in_range, has_dot,
}

-- Every value of the step has the property.
unfoldable pub Yields : {A : Type 0} → (A → Type 0) → Checked A → Type 0
Yields {A} P c = (a : A) → c.value ≡ some a → P a

module _ {B : Type 0} (P : B → Type 0) where
  guard-Yields :
      (b : Bool) (d : Diagnostic) (f : Unit → Checked B)
      → (b ≡ true → Yields P (f tt))
      → Yields P (guard b d >>= f)
  unfolding Yields
  guard-Yields true d f h b q = h refl b q
  guard-Yields false d f h b q = absurd (cc)

  warn_if-Yields :
      (b : Bool) (d : Diagnostic) (f : Unit → Checked B)
      → Yields P (f tt)
      → Yields P (warn_if b d >>= f)
  unfolding Yields
  warn_if-Yields true d f h = h
  warn_if-Yields false d f h = h

  or_refuse-Yields :
      {A : Type 0} (d : Diagnostic) (o : Option A) (f : A → Checked B)
      → ((a : A) → Yields P (f a))
      → Yields P (or_refuse d o >>= f)
  unfolding Yields
  or_refuse-Yields d none f h b q = absurd (cc)
  or_refuse-Yields d (some a) f h b q = h a b q

  pass-Yields : (b : B) → P b → Yields P (pass b)
  unfolding Yields
  pass-Yields b p a q = let e : b ≡ a = cc in subst P e p

  pass_tt-Yields : (f : Unit → Checked B) → Yields P (f tt) → Yields P (pass tt >>= f)
  unfolding Yields
  pass_tt-Yields f h = h

  if-Yields :
      (b : Bool) (c d : Checked Unit) (f : Unit → Checked B)
      → (b ≡ true → Yields P (c >>= f))
      → (b ≡ false → Yields P (d >>= f))
      → Yields P ((if b then c else d) >>= f)
  if-Yields true c d f x y = x refl
  if-Yields false c d f x y = y refl

  three_guards :
      (x y z w : Bool) (dx dy dz dw : Diagnostic) (f : Unit → Checked B)
      → (x ≡ true → y ≡ true → z ≡ true → Yields P (f tt))
      → Yields P ((guard x dx >> (guard y dy >> (guard z dz >> warn_if w dw))) >>= f)
  unfolding Yields
  three_guards false y z w dx dy dz dw f h b q = absurd (cc)
  three_guards true false z w dx dy dz dw f h b q = absurd (cc)
  three_guards true true false w dx dy dz dw f h b q = absurd (cc)
  three_guards true true true false dx dy dz dw f h b q = h refl refl refl b q
  three_guards true true true true dx dy dz dw f h b q = h refl refl refl b q

  check_kerberos-Yields :
      ⦃k : Machine⦄ (host realm password ccache : String) (f : Unit → Checked B)
      → (not (realm == "") ≡ true
          → not (not (password == "") && not (ccache == "")) ≡ true
          → (not (password == "") || not (ccache == "")) ≡ true
          → Yields P (f tt))
      → Yields P (check_kerberos host realm password ccache >>= f)
  unfolding check_kerberos
  check_kerberos-Yields ⦃k⦄ host realm password ccache f h =
      three_guards (not (realm == "")) (not (not (password == "") && not (ccache == "")))
        (not (password == "") || not (ccache == "")) (not (has_dot host) || k.is_ip host) _ _ _ _ f
        h

abbrev pub IsPort : ℤ → Type 0
IsPort n = (pos 1 ≤ℤ n) × (n ≤ℤ pos 65535)

in_range-IsPort : (n : ℤ) → in_range n ≡ true → IsPort n
in_range-IsPort n h = ground arith

-- A host, a user and a port.
pub record SshValid (o : SshOptions) : Type 0 where
  pub host : o.host ≢ ""
  pub username : o.username ≢ ""
  pub port : IsPort o.port

not_empty : (s : String) → not (s == "") ≡ true → s ≢ ""
not_empty s h e = ground (arith, h, (eq_iff s "").1 e)

valid_ssh :
    (o : SshOptions)
    → not (o.host == "") ≡ true
    → not (o.username == "") ≡ true
    → in_range o.port ≡ true
    → SshValid o
valid_ssh o h u p = record {
  host = not_empty o.host h;
  username = not_empty o.username u;
  port = in_range-IsPort o.port p;
}

module _ ⦃k : Machine⦄ where
  pub ssh_options-Yields : (m : ProviderModel) → Yields SshValid (ssh_options m)
  unfolding ssh_options
  ssh_options-Yields m =
      search (guard-Yields, or_refuse-Yields, pass-Yields, valid_ssh) depth 30 fits 3000

-- A host, a user, a port, and credentials that fit the way of authentication: for Kerberos a realm and
-- either a password or a credential cache, else a password.
pub record WinRmValid (o : WinRmOptions) : Type 0 where
  pub host : o.host ≢ ""
  pub username : o.username ≢ ""
  pub port : IsPort o.port
  pub max_shells : pos 0 ≤ℤ o.max_shells
  pub password : o.auth ≢ "kerberos" → o.password ≢ ""
  pub realm : o.auth ≡ "kerberos" → o.krb_realm ≢ ""
  pub one_credential :
      o.auth ≡ "kerberos"
      → ((o.password ≢ "") × (o.krb_ccache_path ≡ ""))
        ⊎ ((o.password ≡ "") × (o.krb_ccache_path ≢ ""))

one_of :
    (p c : String)
    → not (not (p == "") && not (c == "")) ≡ true
    → (not (p == "") || not (c == "")) ≡ true
    → ((p ≢ "") × (c ≡ "")) ⊎ ((p ≡ "") × (c ≢ ""))
one_of p c x y = elim (Bool-cases (p == "")) [
  | inl e ↦ inr ((eq_iff p "").0 e, not_empty c (rw e at y))
  | inr e ↦ inl (
    (λ k. ground (arith, e, (eq_iff p "").1 k)),
    (eq_iff c "").0
        (elim (Bool-cases (c == "")) [ inl k ↦ k | inr k ↦ let z = rw (e, k) at x in absurd (cc) ]),
  )
]

valid_kerberos :
    (o : WinRmOptions)
    → (o.auth == "kerberos") ≡ true
    → not (o.host == "") ≡ true
    → not (o.username == "") ≡ true
    → in_range o.port ≡ true
    → not (ltb_ℤ o.max_shells (pos 0)) ≡ true
    → not (o.krb_realm == "") ≡ true
    → not (not (o.password == "") && not (o.krb_ccache_path == "")) ≡ true
    → (not (o.password == "") || not (o.krb_ccache_path == "")) ≡ true
    → WinRmValid o
valid_kerberos o a h u p n r x y = record {
  host = not_empty o.host h;
  username = not_empty o.username u;
  port = in_range-IsPort o.port p;
  max_shells = ground arith;
  password = λ ne. absurd (ne ((eq_iff o.auth "kerberos").0 a));
  realm = λ e. not_empty o.krb_realm r;
  one_credential = λ e. one_of o.password o.krb_ccache_path x y;
}

valid_password :
    (o : WinRmOptions)
    → (o.auth == "kerberos") ≡ false
    → not (o.host == "") ≡ true
    → not (o.username == "") ≡ true
    → in_range o.port ≡ true
    → not (ltb_ℤ o.max_shells (pos 0)) ≡ true
    → not ((o.password == "") && not (o.auth == "kerberos")) ≡ true
    → WinRmValid o
valid_password o a h u p n w = record {
  host = not_empty o.host h;
  username = not_empty o.username u;
  port = in_range-IsPort o.port p;
  max_shells = ground arith;
  password = λ ne e. ground (arith, a, w, (eq_iff o.password "").1 e);
  realm = λ e. ground (arith, a, (eq_iff o.auth "kerberos").1 e);
  one_credential = λ e. absurd (ground (arith, a, (eq_iff o.auth "kerberos").1 e));
}

module _ ⦃k : Machine⦄ where
  pub winrm_options-Yields : (m : ProviderModel) → Yields WinRmValid (winrm_options m)
  unfolding winrm_options
  winrm_options-Yields m =
      search
        (
          guard-Yields, or_refuse-Yields, warn_if-Yields, if-Yields, pass_tt-Yields,
          check_kerberos-Yields, pass-Yields, valid_kerberos, valid_password,
        )
        depth 60 fits 9000
