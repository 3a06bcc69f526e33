-- ===== src/Hyperv/Verify.antt =====
-- internal/hyperv/vhd.go and vswitch.go: the loop that polls the host after a connection dropped in
-- the middle of a command, to see whether the command took effect. The four loops differ in what they
-- read and in how they judge the read.
pub mod Laws
use terraform_provider_hyper.Common.{
  ℕ, zero, suc, Bool, true, false, Option, none, some, if◌then◌else◌,
}
use terraform_provider_hyper.Hyperv.Client.{Result, ok, failed}
use terraform_provider_hyper.Hyperv.Errors.{ClientError}
use terraform_provider_hyper.Hyperv.Clock.{Clock}
use terraform_provider_hyper.Hyperv.Session.{Session, Op}

-- What a read says: the command took effect, it did not, or the read has to be tried again.
pub data Verdict (A : Type 0) : Type 0 where
  confirmed : A → Verdict A
  refuted : Verdict A
  unclear : Verdict A

-- Five attempts, five seconds apart, for disks and switches alike.
abbrev pub verify_attempts : ℕ
verify_attempts = 5

abbrev pub verify_delay : ℕ
verify_delay = 5000000000

module _ {ℓ} {H : Type ℓ} ⦃c : Clock H⦄ where
  -- A wait, which the context may end.
  abbrev pub wait : ℕ → Session H → Session H × Bool
  wait delay s = let (h, elapsed) = c.pause delay s.host in (record s { host = h }, elapsed)

  module _ {A B : Type 0} (get : Op H B) (judge : Result B → Verdict A)
      (original : ClientError) where
    -- Every failure wraps the error of the drop.
    unfoldable pub verify : ℕ → Op H A
    verify zero s = some (s, failed original)
    verify (suc attempts) s =
        let (s1, elapsed) = wait verify_delay s in
        if elapsed
        then elim (get s1) [
          | none ↦ none
          | some (s2, r) ↦
              let rest = verify attempts s2 in
              elim (judge r) [
                | confirmed a ↦ some (s2, ok a)
                | refuted ↦ some (s2, failed original)
                | unclear ↦ rest
              ]
        ]
        else some (s1, failed original)
