-- ===== src/Vm/Reconcile/Blocks.antt =====
-- The memory and state blocks that go to state.
use terraform_provider_hyper.Vm.Model.{MemoryModel, StateModel}
use terraform_provider_hyper.Vm.Reconcile.{
  reconcile_memory_block, reconcile_state_block, null_wins, unknown_to_null,
}
use terraform_provider_hyper.Framework.{Attr}
use terraform_provider_hyper.Common.{◌≡◌, refl, Option, none, some, arith}

null_wins_idem {ℓ} : {A : Type ℓ} (p h : Attr A) → null_wins (null_wins p h) h ≡ null_wins p h
null_wins_idem Attr.null h = refl
null_wins_idem Attr.unknown h = ground arith
null_wins_idem (Attr.known a) h = ground arith

unknown_to_null_idem {ℓ} :
    {A : Type ℓ} (p : Attr A) → unknown_to_null (unknown_to_null p) ≡ unknown_to_null p
unknown_to_null_idem Attr.null = refl
unknown_to_null_idem Attr.unknown = refl
unknown_to_null_idem (Attr.known a) = refl

null_wins_self {ℓ} : {A : Type ℓ} (h : Attr A) → null_wins h h ≡ h
null_wins_self Attr.null = refl
null_wins_self Attr.unknown = refl
null_wins_self (Attr.known a) = refl

pub reconcile_memory_block_idem :
    (plan host : Option MemoryModel)
    → reconcile_memory_block (reconcile_memory_block plan host) host
      ≡ reconcile_memory_block plan host
unfolding reconcile_memory_block
reconcile_memory_block_idem plan none = refl
reconcile_memory_block_idem none (some h) =
    rw (null_wins_self h.dynamic, null_wins_self h.min_bytes, null_wins_self h.max_bytes)
reconcile_memory_block_idem (some p) (some h) = rw (
  null_wins_idem p.dynamic h.dynamic,
  null_wins_idem p.min_bytes h.min_bytes,
  null_wins_idem p.max_bytes h.max_bytes,
)

pub reconcile_state_block_idem :
    (plan host : Option StateModel)
    → reconcile_state_block (reconcile_state_block plan host) host ≡ reconcile_state_block plan host
unfolding reconcile_state_block
reconcile_state_block_idem none host = refl
reconcile_state_block_idem (some p) none = rw (unknown_to_null_idem p.shutdown_mode)
reconcile_state_block_idem (some p) (some h) = rw (unknown_to_null_idem p.shutdown_mode)
