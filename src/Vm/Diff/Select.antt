-- ===== src/Vm/Diff/Select.antt =====
-- Which devices `diff` of Vm/Diff attaches and detaches, key by key, whatever order the maps are
-- visited in.
use terraform_provider_hyper.Vm.Diff.Lookup.{
  find, Keyed, attached, or_else, find-plan_loop_attach, last_at, swapped, index-Keyed, orphaned,
  find-append, find-plan_loop_detach, index-Distinct, find-state_loop, lookup-index,
}
use terraform_provider_hyper.Vm.Diff.{plan_loop, diff, index}
use terraform_provider_hyper.Common.Assoc.{
  Visit, Distinct, visit-All, lookup-absent, visit-Distinct, lookup-visit,
}
use terraform_provider_hyper.Common.{◌≡◌, ◌∙◌, Bool, none, List, [], ◌∷◌, arith}
use terraform_provider_hyper.Common.Eq.{Eq}

module _ {ℓ κ} {K : Type ℓ} {V : Type κ} ⦃e' : Eq K⦄ (key : V → K) where
  -- No key stands twice in a list of devices.
  abbrev pub Unique : List V → Type κ
  Unique [] = Unit
  Unique (v ∷ vs) = (find key (key v) vs ≡ none) × Unique vs

module _ {ℓ κ} {K : Type ℓ} {V : Type κ} ⦃e' : Eq K⦄ (key : V → K) (same : V → V → Bool) where
  pub plan_loop_attach-Unique :
      (S m : List (K × V)) → Keyed key m → Distinct m → Unique key (plan_loop same S m).0
  unfolding plan_loop
  plan_loop_attach-Unique S [] hk hd = tt
  plan_loop_attach-Unique S ((j, p) ∷ m) (hj, hk) (hn, hd) = ground (
    arith,
    plan_loop_attach-Unique S m hk hd,
    find-plan_loop_attach key same S m j hk hd,
    lookup-absent j m hn,
  )

  module _ (plan_order state_order : Visit (K × V)) (plan state : List V) where
    abbrev result : List V × List V
    result = diff key same plan_order state_order plan state

    -- At each key the attachments hold the last planned device of that key, unless the last recorded
    -- device of the key is the same.
    pub find-diff_attach :
        (k : K) → find key k result.0 ≡ attached same (last_at key k plan) (last_at key k state)
    unfolding diff
    find-diff_attach k =
        find-plan_loop_attach key same (index key state) (plan_order.visit (index key plan)) k
          (visit-All plan_order _ _ (index-Keyed key plan))
          (visit-Distinct plan_order _ (index-Distinct key plan))
        ∙ cc (
          lookup-visit plan_order k (index key plan) (index-Distinct key plan),
          lookup-index key k plan,
          lookup-index key k state,
        )

    -- At each key the detachments hold the last recorded device, if the plan has another one there, or
    -- none.
    pub find-diff_detach :
        (k : K)
        → find key k result.1
          ≡ or_else
              (swapped same (last_at key k plan) (last_at key k state))
              (orphaned (last_at key k plan) (last_at key k state))
    unfolding diff
    find-diff_detach k = rw find-append (
        cc (
          find-plan_loop_detach key same (index key state) (plan_order.visit (index key plan)) k
              (visit-All plan_order _ _ (index-Keyed key plan)) (index-Keyed key state)
              (visit-Distinct plan_order _ (index-Distinct key plan)),
          find-state_loop key same (index key plan) (state_order.visit (index key state)) k
              (visit-All state_order _ _ (index-Keyed key state))
              (visit-Distinct state_order _ (index-Distinct key state)),
          lookup-visit plan_order k (index key plan) (index-Distinct key plan),
          lookup-visit state_order k (index key state) (index-Distinct key state),
          lookup-index key k plan,
          lookup-index key k state,
        ))

    pub diff_attach-Unique : Unique key result.0
    unfolding diff
    diff_attach-Unique =
        plan_loop_attach-Unique (index key state) (plan_order.visit (index key plan))
          (visit-All plan_order _ _ (index-Keyed key plan))
          (visit-Distinct plan_order _ (index-Distinct key plan))
