-- ===== src/Vm/Validators/Names.antt =====
-- What the validator of the adapters' names accepts.
use terraform_provider_hyper.Vm.Validators.{first_duplicate, validate_unique_names}
use terraform_provider_hyper.Common.Assoc.{lookup, insert, lookup-insert}
use terraform_provider_hyper.Framework.{is_known, value_string, elements}
use terraform_provider_hyper.Common.Assoc.{insert, lookup, lookup-insert}
use terraform_provider_hyper.Vm.Model.{NetworkAdapterModel, Model, network_adapter_models}
use terraform_provider_hyper.Common.{
  refl, [], none, some, ◌≡◌, true, false, inl, inr, arith, ◌≢◌, List, String, ℕ, ◌∷◌, All,
  if◌then◌else◌, none, ◌↔◌, Bool-cases, suc, subst, sym, Option-cases, ◌∙◌,
}
use terraform_provider_hyper.Common.Eq.{string_eq}

-- The names that are known.
abbrev pub known_names : List NetworkAdapterModel → List String
known_names [] = []
known_names (n ∷ ns) =
    if is_known n.name then value_string n.name ∷ known_names ns else known_names ns

abbrev pub NoRepeat : List String → Type 0
NoRepeat [] = Unit
NoRepeat (x ∷ xs) = All (λ y. y ≢ x) xs × NoRepeat xs

abbrev Unseen : List (String × ℕ) → List String → Type 0
Unseen seen = All (λ x. lookup x seen ≡ none)

insert_iff :
    (k x : String) (i : ℕ) (seen : List (String × ℕ))
    → (lookup x (insert k i seen) ≡ none) ↔ ((x ≢ k) × (lookup x seen ≡ none))
insert_iff k x i seen = ground (arith, lookup-insert k x i seen, string_eq.beq_iff k x)

Unseen-insert :
    (k : String) (i : ℕ) (seen : List (String × ℕ)) (xs : List String)
    → Unseen (insert k i seen) xs
    → All (λ y. y ≢ k) xs × Unseen seen xs
Unseen-insert k i seen [] h = (tt, tt)
Unseen-insert k i seen (x ∷ xs) (hx, h) =
    let (p, q) = Unseen-insert k i seen xs h in
    let (a, b) = (insert_iff k x i seen).0 hx in ((a, p), (b, q))

insert-Unseen :
    (k : String) (i : ℕ) (seen : List (String × ℕ)) (xs : List String)
    → All (λ y. y ≢ k) xs
    → Unseen seen xs
    → Unseen (insert k i seen) xs
insert-Unseen k i seen [] h g = tt
insert-Unseen k i seen (x ∷ xs) (hx, h) (gx, g) =
    ((insert_iff k x i seen).1 (hx, gx), insert-Unseen k i seen xs h g)

step_unknown :
    (seen : List (String × ℕ)) (i : ℕ) (n : NetworkAdapterModel) (ns : List NetworkAdapterModel)
    → is_known n.name ≡ false
    → first_duplicate seen i (n ∷ ns) ≡ first_duplicate seen (suc i) ns
unfolding first_duplicate
step_unknown seen i n ns h = rw h

step_seen :
    (seen : List (String × ℕ)) (i j : ℕ) (n : NetworkAdapterModel) (ns : List NetworkAdapterModel)
    → is_known n.name ≡ true
    → lookup (value_string n.name) seen ≡ some j
    → first_duplicate seen i (n ∷ ns) ≡ some i
unfolding first_duplicate
step_seen seen i j n ns h l = rw (h, l)

step_new :
    (seen : List (String × ℕ)) (i : ℕ) (n : NetworkAdapterModel) (ns : List NetworkAdapterModel)
    → is_known n.name ≡ true
    → lookup (value_string n.name) seen ≡ none
    → first_duplicate seen i (n ∷ ns)
      ≡ first_duplicate (insert (value_string n.name) i seen) (suc i) ns
unfolding first_duplicate
step_new seen i n ns h l = rw (h, l)

abbrev Fresh : List (String × ℕ) → List String → Type 0
Fresh seen xs = Unseen seen xs × NoRepeat xs

Fresh-cons_iff :
    (k : String) (i : ℕ) (seen : List (String × ℕ)) (xs : List String)
    → lookup k seen ≡ none
    → Fresh (insert k i seen) xs ↔ Fresh seen (k ∷ xs)
Fresh-cons_iff k i seen xs l = (
  λ (h, r). let (p, q) = Unseen-insert k i seen xs h in ((l, q), (p, r)),
  λ ((lk, q), (p, r)). (insert-Unseen k i seen xs p q, r),
)

names_of_known :
    (n : NetworkAdapterModel) (ns : List NetworkAdapterModel)
    → is_known n.name ≡ true
    → known_names (n ∷ ns) ≡ value_string n.name ∷ known_names ns
names_of_known n ns h = rw h

names_of_unknown :
    (n : NetworkAdapterModel) (ns : List NetworkAdapterModel)
    → is_known n.name ≡ false
    → known_names (n ∷ ns) ≡ known_names ns
names_of_unknown n ns h = rw h

no_duplicate_iff :
    (seen : List (String × ℕ)) (i : ℕ) (ns : List NetworkAdapterModel)
    → (first_duplicate seen i ns ≡ none) ↔ Fresh seen (known_names ns)
no_duplicate_iff seen i [] = (λ h. (tt, tt), λ h. (unfold first_duplicate in refl))
no_duplicate_iff seen i (n ∷ ns) = elim (Bool-cases (is_known n.name)) [
  | inr h ↦
      let (f, g) = no_duplicate_iff seen (suc i) ns in
      let e = step_unknown seen i n ns h in
      let x = names_of_unknown n ns h in
      (λ d. subst (Fresh seen) (sym x) (f (sym e ∙ d)), λ d. e ∙ g (subst (Fresh seen) x d))
  | inl h ↦
      let x = names_of_known n ns h in
      elim (Option-cases (lookup (value_string n.name) seen)) [
        | inl l ↦
            let (f, g) = no_duplicate_iff (insert (value_string n.name) i seen) (suc i) ns in
            let e = step_new seen i n ns h l in
            let (up, down) = Fresh-cons_iff (value_string n.name) i seen (known_names ns) l in
            (
              λ d. subst (Fresh seen) (sym x) (up (f (sym e ∙ d))),
              λ d. e ∙ g (down (subst (Fresh seen) x d)),
            )
        | inr (j, l) ↦
            let e = step_seen seen i j n ns h l in
            (
              λ d. absurd (ground (arith, e, d)),
              λ d. let ((u, v), w) = subst (Fresh seen) x d in absurd (ground (arith, l, u)),
            )
      ]
]

all-Unseen : (xs : List String) → Unseen [] xs
all-Unseen [] = tt
all-Unseen (x ∷ xs) = ((unfold lookup in refl), all-Unseen xs)

-- The validator of the adapters' names reports nothing exactly when no two adapters of the configuration
-- have one known name.
pub validate_unique_names-NoRepeat_iff :
    (config : Model)
    → (validate_unique_names config ≡ [])
      ↔ NoRepeat (known_names (elements (network_adapter_models config)))
unfolding validate_unique_names
validate_unique_names-NoRepeat_iff config =
    let ns = elements (network_adapter_models config) in
    let (f, g) = no_duplicate_iff [] 0 ns in
    (
      λ h. elim (Option-cases (first_duplicate [] 0 ns)) [
        | inl q ↦ (f q).1
        | inr (i, q) ↦ absurd (ground (arith, q, h))
      ],
      λ h. rw (g (all-Unseen (known_names ns), h), validate_unique_names),
    )
