-- ===== src/Vm/Diff.antt =====
-- The shape that diffHardDiskDrives, diffNetworkAdapters and diffDvdDrives of
-- internal/resources/vm/resource.go share: the planned and the recorded devices are put in a map by
-- their key, and each key is attached, detached, both or neither. The three functions themselves are
-- in Vm/Slots, as instances.
pub mod Lookup
pub mod Select
pub mod Table
use terraform_provider_hyper.Common.{
  ◌≡◌, Bool, true, false, Option, none, some, List, [], ◌∷◌, ◌++◌, if◌then◌else◌,
}
use terraform_provider_hyper.Common.Eq.{Eq}
use terraform_provider_hyper.Common.Assoc.{lookup, insert, Visit}

module _ {ℓ} {V : Type ℓ} (same : V → V → Bool) where
  -- What the loop over the plan does with the planned `p`, given the recorded device at its key.
  unfoldable pub plan_step : Option V → V → List V × List V → List V × List V
  plan_step none p (attach, detach) = (p ∷ attach, detach)
  plan_step (some s) p (attach, detach) =
      if same p s then (attach, detach) else (p ∷ attach, s ∷ detach)

module _ {ℓ κ} {K : Type ℓ} {V : Type κ} ⦃e' : Eq K⦄ where
  -- `for k, p := range planBySlot`
  unfoldable pub plan_loop : (V → V → Bool) → List (K × V) → List (K × V) → List V × List V
  unfolding plan_step
  plan_loop same by_state [] = ([], [])
  plan_loop same by_state ((k, p) ∷ m) =
      plan_step same (lookup k by_state) p (plan_loop same by_state m)

  -- `for k, s := range stateBySlot`: what the plan does not have is detached.
  unfoldable pub state_loop : List (K × V) → List (K × V) → List V
  state_loop by_plan [] = []
  state_loop by_plan ((k, s) ∷ m) =
      let rest = state_loop by_plan m in elim (lookup k by_plan) [ none ↦ s ∷ rest | some p ↦ rest ]

module _ {ℓ κ} {K : Type ℓ} {V : Type κ} ⦃e' : Eq K⦄ (key : V → K) where
  index_from : List (K × V) → List V → List (K × V)
  index_from m [] = m
  index_from m (v ∷ vs) = index_from (insert (key v) v m) vs

  -- `for _, h := range xs { bySlot[key(h)] = h }`
  unfoldable pub index : List V → List (K × V)
  unfolding index_from
  index vs = index_from [] vs

  module _ (same : V → V → Bool) (plan_order state_order : Visit (K × V)) where
    -- The devices to attach and those to detach.
    unfoldable pub diff : List V → List V → List V × List V
    unfolding index plan_loop state_loop
    diff plan state =
        let by_plan = index plan in
        let by_state = index state in
        let (attach, detach) = plan_loop same by_state (plan_order.visit by_plan) in
        (attach, detach ++ state_loop by_plan (state_order.visit by_state))
