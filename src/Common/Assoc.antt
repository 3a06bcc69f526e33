-- ===== src/Common/Assoc.antt =====
-- Go maps as association lists: a write replaces the entry of its key, and a `range` visits the
-- entries in an order that the language leaves open, which is the parameter `Visit`.
use mathlib.Core.List.{Permᴰ}
use mathlib.Core.Path.{◌≡◌, refl, sym, ◌∙◌, subst}
use mathlib.Core.Logic.{◌≢◌, inl, inr}
use mathlib.Core.Option.{Option, none, some}
use mathlib.Core.List.{List, [], ◌∷◌}
use native.Mathlib.Omega.{arith}
use terraform_provider_hyper.Common.Tests.{if◌then◌else◌, Bool-cases}
use terraform_provider_hyper.Common.Lists.{All}
use terraform_provider_hyper.Common.Eq.{Eq, beq_refl}

module _ {ℓ κ} {K : Type ℓ} {V : Type κ} where
  -- No key stands twice.
  abbrev pub Distinct : List (K × V) → Type (ℓ ⊔ κ)
  Distinct [] = Unit
  Distinct ((k, v) ∷ m) = All (λ (e : K × V). e.0 ≢ k) m × Distinct m

  All-Permᴰ {μ} : (P : K × V → Type μ) {xs ys : List (K × V)} → Permᴰ xs ys → All P xs → All P ys
  All-Permᴰ P Permᴰ.nil h = tt
  All-Permᴰ P (Permᴰ.cons e p) (ha, h) = (subst P e ha, All-Permᴰ P p h)
  All-Permᴰ P (Permᴰ.swap e f) (ha, (hb, h)) = (subst P f hb, (subst P e ha, h))
  All-Permᴰ P (Permᴰ.trans p q) h = All-Permᴰ P q (All-Permᴰ P p h)

  Distinct-Permᴰ : {xs ys : List (K × V)} → Permᴰ xs ys → Distinct xs → Distinct ys
  Distinct-Permᴰ Permᴰ.nil h = tt
  Distinct-Permᴰ (Permᴰ.cons {a} {b} e p) (ha, h) =
      (All-Permᴰ (λ x. x.0 ≢ b.0) p (rw e at ha), Distinct-Permᴰ p h)
  Distinct-Permᴰ (Permᴰ.swap {a} {b} {a'} {b'} {l} e f) ((hab, ha), (hb, h)) =
      subst (λ y. Distinct (a' ∷ y ∷ l)) e
        (subst (λ x. Distinct (x ∷ a ∷ l)) f ((λ q. hab (sym q), hb), (ha, h)))
  Distinct-Permᴰ (Permᴰ.trans p q) h = Distinct-Permᴰ q (Distinct-Permᴰ p h)

module _ {ℓ κ} {K : Type ℓ} {V : Type κ} ⦃e' : Eq K⦄ where
  unfoldable pub lookup : K → List (K × V) → Option V
  lookup k [] = none
  lookup k ((j, v) ∷ m) = if e'.beq j k then some v else lookup k m

  unfoldable pub insert : K → V → List (K × V) → List (K × V)
  insert k v [] = (k, v) ∷ []
  insert k v ((j, w) ∷ m) = if e'.beq j k then (k, v) ∷ m else (j, w) ∷ insert k v m

  pub lookup-insert :
      (k j : K) (v : V) (m : List (K × V))
      → lookup j (insert k v m) ≡ (if e'.beq k j then some v else lookup j m)
  unfolding lookup insert
  lookup-insert k j v [] = refl
  lookup-insert k j v ((i, w) ∷ m) =
      ground (arith, e'.beq_iff k j, e'.beq_iff i k, e'.beq_iff i j, lookup-insert k j v m)

  pub lookup-absent :
      (k : K) (m : List (K × V)) → All (λ (x : K × V). x.0 ≢ k) m → lookup k m ≡ none
  unfolding lookup
  lookup-absent k [] h = refl
  lookup-absent k ((j, v) ∷ m) (hj, h) = ground (arith, e'.beq_iff j k, hj, lookup-absent k m h)

  pub All-insert {μ} :
      (P : K × V → Type μ) (k : K) (v : V) (m : List (K × V))
      → P (k, v)
      → All P m
      → All P (insert k v m)
  unfolding insert
  All-insert P k v [] p h = (p, tt)
  All-insert P k v ((j, w) ∷ m) p (hj, h) = elim (Bool-cases (e'.beq j k)) [
    | inl y ↦ rw y (p, h)
    | inr n ↦ rw n (hj, All-insert P k v m p h)
  ]

  pub insert-Distinct : (k : K) (v : V) (m : List (K × V)) → Distinct m → Distinct (insert k v m)
  unfolding insert
  insert-Distinct k v [] h = (tt, tt)
  insert-Distinct k v ((j, w) ∷ m) (hj, h) = elim (Bool-cases (e'.beq j k)) [
    | inl y ↦ rw y (rw ((e'.beq_iff j k).0 y) at hj, h)
    | inr n ↦ rw n (
      All-insert (λ (x : K × V). x.0 ≢ j) k v m (λ q. cc (n, beq_refl j, q)) hj,
      insert-Distinct k v m h,
    )
  ]

  lookup-Permᴰ :
      (k : K) {xs ys : List (K × V)} → Permᴰ xs ys → Distinct xs → lookup k xs ≡ lookup k ys
  unfolding lookup
  lookup-Permᴰ k Permᴰ.nil h = refl
  lookup-Permᴰ k (Permᴰ.cons e p) (ha, h) = rw (← e, lookup-Permᴰ k p h)
  lookup-Permᴰ k (Permᴰ.swap {a} {b} e f) h =
      rw (← e, ← f) (ground (arith, e'.beq_iff a.0 k, e'.beq_iff b.0 k, h.0.0))
  lookup-Permᴰ k (Permᴰ.trans p q) h = lookup-Permᴰ k p h ∙ lookup-Permᴰ k q (Distinct-Permᴰ p h)

-- The order in which a `range` over a map visits the entries: any arrangement of them.
pub record Visit {ℓ} (A : Type ℓ) : Type ℓ where
  pub visit : List A → List A
  pub visit_all : (xs : List A) → Permᴰ xs (visit xs)

module _ {ℓ κ} {K : Type ℓ} {V : Type κ} ⦃e' : Eq K⦄ (order : Visit (K × V)) where
  pub lookup-visit : (k : K) (m : List (K × V)) → Distinct m → lookup k (order.visit m) ≡ lookup k m
  lookup-visit k m h = sym (lookup-Permᴰ k (order.visit_all m) h)

  pub visit-Distinct : (m : List (K × V)) → Distinct m → Distinct (order.visit m)
  visit-Distinct m h = Distinct-Permᴰ (order.visit_all m) h

  pub visit-All {μ} : (P : K × V → Type μ) (m : List (K × V)) → All P m → All P (order.visit m)
  visit-All P m h = All-Permᴰ P (order.visit_all m) h

pub Permᴰ_refl {ℓ} : {A : Type ℓ} (xs : List A) → Permᴰ xs xs
Permᴰ_refl [] = Permᴰ.nil
Permᴰ_refl (x ∷ xs) = Permᴰ.cons refl (Permᴰ_refl xs)

-- The entries in their order of first insertion.
abbrev pub as_listed {ℓ} : {A : Type ℓ} → Visit A
as_listed = record { visit = λ xs. xs; visit_all = λ xs. Permᴰ_refl xs }
