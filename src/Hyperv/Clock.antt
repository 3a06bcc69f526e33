-- ===== src/Hyperv/Clock.antt =====
-- The clock and the cancellable waits of the loops that poll the host. Times are nanoseconds.
use terraform_provider_hyper.Common.{ℕ, ◌+◌, ◌≤◌, Bool, true, ◌≡◌}

-- The clock and the context: `pause w` waits for w nanoseconds, or answers false when the context is
-- done first. Time does not run backwards, and a full pause lasts as long as it says.
pub record Clock {ℓ} (H : Type ℓ) : Type ℓ where
  pub now : H → ℕ
  pub pause : ℕ → H → H × Bool
  pub pause_lasts : (w : ℕ) (h : H) → (pause w h).1 ≡ true → now h + w ≤ now (pause w h).0
