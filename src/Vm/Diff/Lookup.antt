-- ===== src/Vm/Diff/Lookup.antt =====
-- What the maps of Vm/Diff hold, and which devices its two loops select, key by key.
use terraform_provider_hyper.Common.{
  ◌≡◌, refl, Bool, Option, none, some, List, [], ◌∷◌, ◌++◌, arith, if◌then◌else◌, inl, inr,
  Option-cases, All,
}
use terraform_provider_hyper.Common.Eq.{Eq}
use terraform_provider_hyper.Common.Assoc.{
  lookup, insert, lookup-insert, insert-Distinct, All-insert, lookup-absent, Distinct,
}
use terraform_provider_hyper.Vm.Diff.{index_from, index, plan_loop, state_loop}

abbrev pub or_else {ℓ} : {A : Type ℓ} → Option A → Option A → Option A
or_else none o = o
or_else (some a) o = some a

module _ {ℓ κ} {K : Type ℓ} {V : Type κ} ⦃e' : Eq K⦄ (key : V → K) where
  -- The last device of the list at a key: a later one overwrites an earlier one in the map.
  abbrev pub last_at : K → List V → Option V
  last_at k [] = none
  last_at k (v ∷ vs) = or_else (last_at k vs) (if e'.beq (key v) k then some v else none)

  -- The first device of the list at a key.
  abbrev pub find : K → List V → Option V
  find k [] = none
  find k (v ∷ vs) = if e'.beq (key v) k then some v else find k vs

  abbrev pub Keyed : List (K × V) → Type ℓ
  Keyed = All (λ (e : K × V). e.0 ≡ key e.1)

  lookup-index_from :
      (k : K) (vs : List V) (m : List (K × V))
      → lookup k (index_from key m vs) ≡ or_else (last_at k vs) (lookup k m)
  unfolding index_from
  lookup-index_from k [] m = refl
  lookup-index_from k (v ∷ vs) m = ground (
    arith,
    lookup-index_from k vs (insert (key v) v m),
    lookup-insert (key v) k v m,
    e'.beq_iff (key v) k,
  )

  pub lookup-index : (k : K) (vs : List V) → lookup k (index key vs) ≡ last_at k vs
  unfolding index lookup
  lookup-index k vs = ground (arith, lookup-index_from k vs [])

  index_from-Distinct :
      (vs : List V) (m : List (K × V)) → Distinct m → Distinct (index_from key m vs)
  unfolding index_from
  index_from-Distinct [] m h = h
  index_from-Distinct (v ∷ vs) m h =
      index_from-Distinct vs (insert (key v) v m) (insert-Distinct (key v) v m h)

  pub index-Distinct : (vs : List V) → Distinct (index key vs)
  unfolding index
  index-Distinct vs = index_from-Distinct vs [] tt

  index_from-Keyed : (vs : List V) (m : List (K × V)) → Keyed m → Keyed (index_from key m vs)
  unfolding index_from
  index_from-Keyed [] m h = h
  index_from-Keyed (v ∷ vs) m h =
      index_from-Keyed vs (insert (key v) v m) (All-insert (λ x. x.0 ≡ key x.1) (key v) v m refl h)

  pub index-Keyed : (vs : List V) → Keyed (index key vs)
  unfolding index
  index-Keyed vs = index_from-Keyed vs [] tt

module _ {ℓ} {V : Type ℓ} (same : V → V → Bool) where
  -- The attachment that the loop over the plan makes at a key: the planned device, unless the
  -- recorded one is the same.
  abbrev pub attached : Option V → Option V → Option V
  attached none s = none
  attached (some p) none = some p
  attached (some p) (some s) = if same p s then none else some p

  -- The detachment that it makes at a key.
  abbrev pub swapped : Option V → Option V → Option V
  swapped none s = none
  swapped (some p) none = none
  swapped (some p) (some s) = if same p s then none else some s

-- A recorded device whose key the plan lacks.
abbrev pub orphaned {ℓ} : {V : Type ℓ} → Option V → Option V → Option V
orphaned none s = s
orphaned (some p) s = none

module _ {ℓ κ} {K : Type ℓ} {V : Type κ} ⦃e' : Eq K⦄ (key : V → K) (same : V → V → Bool) where
  pub find-plan_loop_attach :
      (S m : List (K × V)) (k : K)
      → Keyed key m
      → Distinct m
      → find key k (plan_loop same S m).0 ≡ attached same (lookup k m) (lookup k S)
  unfolding plan_loop lookup
  find-plan_loop_attach S [] k hk hd = refl
  find-plan_loop_attach S ((j, p) ∷ m) k (hj, hk) (hn, hd) = ground (
    arith,
    e'.beq_iff j k,
    e'.beq_iff (key p) k,
    find-plan_loop_attach S m k hk hd,
    lookup-absent j m hn,
  )

  pub lookup-Keyed :
      (j : K) (m : List (K × V)) {s : V} → Keyed key m → lookup j m ≡ some s → j ≡ key s
  unfolding lookup
  lookup-Keyed j [] hk h = cc
  lookup-Keyed j ((i, v) ∷ m) {s} (hi, hk) h =
      ground (arith, e'.beq_iff i j, lookup-Keyed j m {s = s} hk)

  pub find-plan_loop_detach :
      (S m : List (K × V)) (k : K)
      → Keyed key m
      → Keyed key S
      → Distinct m
      → find key k (plan_loop same S m).1 ≡ swapped same (lookup k m) (lookup k S)
  unfolding plan_loop lookup
  find-plan_loop_detach S [] k hk hs hd = refl
  find-plan_loop_detach S ((j, p) ∷ m) k (hj, hk) hs (hn, hd) = elim (Option-cases (lookup j S)) [
    | inl e ↦
        rw e (
          ground
            (arith, e'.beq_iff j k, find-plan_loop_detach S m k hk hs hd, lookup-absent j m hn))
    | inr (s, e) ↦ ground (
      arith,
      e'.beq_iff j k,
      e'.beq_iff (key s) k,
      find-plan_loop_detach S m k hk hs hd,
      lookup-absent j m hn,
      lookup-Keyed j S hs e,
    )
  ]

  -- What the plan lacks.
  pub find-state_loop :
      (P m : List (K × V)) (k : K)
      → Keyed key m
      → Distinct m
      → find key k (state_loop P m) ≡ orphaned (lookup k P) (lookup k m)
  unfolding state_loop lookup
  find-state_loop P [] k hk hd = ground arith
  find-state_loop P ((j, s) ∷ m) k (hj, hk) (hn, hd) = ground (
    arith,
    e'.beq_iff j k,
    e'.beq_iff (key s) k,
    find-state_loop P m k hk hd,
    lookup-absent j m hn,
  )

  pub find-append :
      (k : K) (xs ys : List V) → find key k (xs ++ ys) ≡ or_else (find key k xs) (find key k ys)
  find-append k [] ys = refl
  find-append k (x ∷ xs) ys = ground (arith, find-append k xs ys)
