-- ===== src/Common/Sort.antt =====
-- Go's `sort.Slice`: it permutes the slice, and leaves the order of elements that `less` does not
-- tell apart open, so a sort is a parameter.
use terraform_provider_hyper.Common.{Bool}
use mathlib.Core.List.{List, [], ◌∷◌, Permᴰ}
use mathlib.Core.Path.{refl}
use mathlib.Core.Bool.{Bool, true, false}
use terraform_provider_hyper.Common.Tests.{if◌then◌else◌}
use terraform_provider_hyper.Common.Assoc.{Permᴰ_refl}

pub record Sorter : Type 1 where
  pub sort : {A : Type 0} → (A → A → Bool) → List A → List A
  pub sort_perm : {A : Type 0} (less : A → A → Bool) (xs : List A) → Permᴰ (sort less xs) xs

module _ {A : Type 0} (less : A → A → Bool) where
  -- `a` before the first element that is not less than it.
  abbrev insert_sorted : A → List A → List A
  insert_sorted a [] = a ∷ []
  insert_sorted a (b ∷ xs) = if less b a then b ∷ insert_sorted a xs else a ∷ b ∷ xs

  abbrev insertion_sort : List A → List A
  insertion_sort [] = []
  insertion_sort (a ∷ xs) = insert_sorted a (insertion_sort xs)

  insert_step :
      (c : Bool) (a b : A) (ys xs : List A)
      → Permᴰ ys (a ∷ xs)
      → Permᴰ (if c then b ∷ ys else a ∷ b ∷ xs) (a ∷ b ∷ xs)
  insert_step true a b ys xs p = Permᴰ.trans (Permᴰ.cons refl p) (Permᴰ.swap refl refl)
  insert_step false a b ys xs p = Permᴰ_refl (a ∷ b ∷ xs)

  insert_sorted-Permᴰ : (a : A) (xs : List A) → Permᴰ (insert_sorted a xs) (a ∷ xs)
  insert_sorted-Permᴰ a [] = Permᴰ_refl (a ∷ [])
  insert_sorted-Permᴰ a (b ∷ xs) =
      insert_step (less b a) a b (insert_sorted a xs) xs (insert_sorted-Permᴰ a xs)

  pub insertion_sort-Permᴰ : (xs : List A) → Permᴰ (insertion_sort xs) xs
  insertion_sort-Permᴰ [] = Permᴰ.nil
  insertion_sort-Permᴰ (a ∷ xs) =
      Permᴰ.trans (insert_sorted-Permᴰ a (insertion_sort xs))
        (Permᴰ.cons refl (insertion_sort-Permᴰ xs))

-- A sort that the parameter can be.
abbrev pub by_insertion : Sorter
by_insertion = record {
  sort = λ {A} less xs. insertion_sort less xs;
  sort_perm = λ {A} less xs. insertion_sort-Permᴰ less xs;
}
