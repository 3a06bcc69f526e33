-- ===== src/Vm/Diff/Table.antt =====
-- The devices of a VM as a table from keys to devices, and what the calls of an update do to it: the
-- abstract view of an attachment reconciliation. The detachments run first.
use terraform_provider_hyper.Common.{
  ◌≡◌, ◌⊎◌, ◌∙◌, Bool, true, Option, none, some, List, [], ◌∷◌, arith, if◌then◌else◌, inl, inr,
  refl, Bool-cases,
}
use terraform_provider_hyper.Common.Eq.{Eq, beq_refl}
use terraform_provider_hyper.Common.Assoc.{Visit}
use terraform_provider_hyper.Vm.Diff.{diff}
use terraform_provider_hyper.Vm.Diff.Lookup.{last_at, find, or_else, attached, swapped, orphaned}
use terraform_provider_hyper.Vm.Diff.Select.{
  Unique, find-diff_attach, find-diff_detach, diff_attach-Unique,
}

abbrev pub Table {ℓ κ} : Type ℓ → Type κ → Type (ℓ ⊔ κ)
Table K V = K → Option V

module _ {ℓ κ} {K : Type ℓ} {V : Type κ} ⦃e' : Eq K⦄ (key : V → K) where
  abbrev pub free : K → Table K V → Table K V
  free k t j = if e'.beq k j then none else t j

  abbrev pub put : V → Table K V → Table K V
  put v t j = if e'.beq (key v) j then some v else t j

  -- Detaching from an empty slot is no fault.
  unfoldable pub detach_all : List V → Table K V → Table K V
  detach_all [] t = t
  detach_all (v ∷ vs) t = detach_all vs (free (key v) t)

  -- Attaching to an occupied slot is a fault: `none`.
  unfoldable pub attach_all : List V → Table K V → Option (Table K V)
  attach_all [] t = some t
  attach_all (v ∷ vs) t = elim (t (key v)) [ some w ↦ none | none ↦ attach_all vs (put v t) ]

  detach_all-find :
      (vs : List V) (t : Table K V) (k : K)
      → detach_all vs t k ≡ elim (find key k vs) [ none ↦ t k | some v ↦ none ]
  unfolding detach_all
  detach_all-find [] t k = refl
  detach_all-find (v ∷ vs) t k =
      ground (arith, e'.beq_iff (key v) k, detach_all-find vs (free (key v) t) k)

  attach_all-find :
      (vs : List V) (t : Table K V)
      → Unique key vs
      → ((k : K) → (find key k vs ≡ none) ⊎ (t k ≡ none))
      → (t' : Table K V) × (attach_all vs t ≡ some t')
        × ((k : K) → t' k ≡ or_else (find key k vs) (t k))
  unfolding attach_all
  attach_all-find [] t u h = (t, refl, λ k. refl)
  attach_all-find (v ∷ vs) t (hv, u) h =
      let empty : t (key v) ≡ none = ground (arith, beq_refl (key v), h (key v)) in
      let (t', e, g) =
        attach_all-find vs (put v t) u (λ k. ground (arith, h k, e'.beq_iff (key v) k, hv)) in
      (t', rw (empty, attach_all) e, λ k. ground (arith, g k, e'.beq_iff (key v) k, hv))

-- What stands at a key once the plan is reached: nothing where nothing is planned, and else the
-- planned device, or one that fits it.
abbrev pub AsPlanned {ℓ} : {V : Type ℓ} → (V → V → Type ℓ) → Option V → Option V → Type ℓ
AsPlanned Fits none o = o ≡ none
AsPlanned {V} Fits (some p) o = (d : V) × (o ≡ some d) × ((d ≡ p) ⊎ Fits p d)

module _ {ℓ} {V : Type ℓ} (same : V → V → Bool) where
  -- What the detachments leave at a key where the plan has `P` and the record has `S`.
  abbrev cleared : Option V → Option V → Option V
  cleared P S = elim (or_else (swapped same P S) (orphaned P S)) [ none ↦ S | some v ↦ none ]

  attached-or-cleared-none : (P S : Option V) → (attached same P S ≡ none) ⊎ (cleared P S ≡ none)
  attached-or-cleared-none none S = inl refl
  attached-or-cleared-none (some p) none = inr refl
  attached-or-cleared-none (some p) (some s) = ground arith

  attached_self : ((v : V) → same v v ≡ true) → (o : Option V) → attached same o o ≡ none
  attached_self self none = refl
  attached_self self (some v) = rw (self v)

  swapped_self :
      ((v : V) → same v v ≡ true)
      → (o : Option V) → or_else (swapped same o o) (orphaned o o) ≡ none
  swapped_self self none = refl
  swapped_self self (some v) = ground (arith, self v)

  AsPlanned-attached :
      {Fits : V → V → Type ℓ}
      → ((p d : V) → same p d ≡ true → Fits p d)
      → (P S : Option V) → AsPlanned Fits P (or_else (attached same P S) (cleared P S))
  AsPlanned-attached fits none none = refl
  AsPlanned-attached fits none (some s) = refl
  AsPlanned-attached fits (some p) none = (p, refl, inl refl)
  AsPlanned-attached fits (some p) (some s) = elim (Bool-cases (same p s)) [
    | inl y ↦ (s, ground arith, inr (fits p s y))
    | inr n ↦ (p, ground arith, inl refl)
  ]

module _ {ℓ κ} {K : Type ℓ} {V : Type κ} ⦃e' : Eq K⦄ (key : V → K) (same : V → V → Bool)
    (plan_order state_order : Visit (K × V)) (plan state : List V) where
  abbrev pub result : List V × List V
  result = diff key same plan_order state_order plan state

  detach_all-cleared :
      (t : Table K V) (k : K)
      → t k ≡ last_at key k state
      → detach_all key result.1 t k ≡ cleared same (last_at key k plan) (last_at key k state)
  detach_all-cleared t k h =
      detach_all-find key result.1 t k
      ∙ cc (find-diff_detach key same plan_order state_order plan state k, h)

  -- If the table holds at every key what is recorded, then after the detachments no attachment meets
  -- an occupied slot, and at the end every key holds the planned device, or a recorded one that
  -- fits it, and nothing where nothing is planned. The maps may be visited in any order.
  pub diff-AsPlanned :
      (t : Table K V)
      → ((k : K) → t k ≡ last_at key k state)
      → {Fits : V → V → Type κ} → ((p d : V) → same p d ≡ true → Fits p d)
      → (t' : Table K V) × (attach_all key result.0 (detach_all key result.1 t) ≡ some t')
        × ((k : K) → AsPlanned Fits (last_at key k plan) (t' k))
  diff-AsPlanned t h fits =
      let attaches = λ (k : K). find-diff_attach key same plan_order state_order plan state k in
      let (t', e, g) =
        attach_all-find key result.0 (detach_all key result.1 t)
          (diff_attach-Unique key same plan_order state_order plan state)
          (λ k.
            rw (attaches k, detach_all-cleared t k (h k))
              (attached-or-cleared-none same (last_at key k plan) (last_at key k state))) in
      (
        t',
        e,
        λ k.
            rw (g k, attaches k, detach_all-cleared t k (h k))
              (AsPlanned-attached same fits (last_at key k plan) (last_at key k state)),
      )

  find-none : (xs : List V) → ((k : K) → find key k xs ≡ none) → xs ≡ []
  find-none [] h = refl
  find-none (x ∷ xs) h = ground (arith, beq_refl (key x), h (key x))

  -- Where the last planned and the last recorded device of every key are one, and every device is the
  -- same as itself, there is nothing to attach and nothing to detach.
  pub diff_no_calls :
      ((v : V) → same v v ≡ true)
      → ((k : K) → last_at key k plan ≡ last_at key k state)
      → result ≡ ([], [])
  diff_no_calls self h =
      let none_attached : result.0 ≡ [] = find-none result.0 (λ k.
        find-diff_attach key same plan_order state_order plan state k
        ∙ rw (h k) (attached_self same self (last_at key k state))) in
      let none_detached : result.1 ≡ [] = find-none result.1 (λ k.
        find-diff_detach key same plan_order state_order plan state k
        ∙ rw (h k) (swapped_self same self (last_at key k state))) in
      cc (none_attached, none_detached)
