-- ===== src/Hyperv/Script/Minify.antt =====
-- internal/hyperv/script.go, minifyPS: comment lines, blank lines and the outer white space of the
-- lines are dropped from a script.
pub mod Shrinks
use terraform_provider_hyper.Common.{
  ℕ, List, [], ◌∷◌, ◌++◌, Bool, true, false, not, nat_eq, if◌then◌else◌, ◌≡◌,
}

-- Of Go's library: `unicode.IsSpace` and `strings.EqualFold`. A line feed is a space, # is none.
pub record Spaces : Type 0 where
  pub is_space : ℕ → Bool
  pub equal_fold : List ℕ → List ℕ → Bool
  pub newline_space : is_space 10 ≡ true

abbrev pub is_empty : List ℕ → Bool
is_empty [] = true
is_empty (c ∷ s) = false

module _ (sp : Spaces) where
  unfoldable pub trim_left : List ℕ → List ℕ
  trim_left [] = []
  trim_left (c ∷ s) = let rest = trim_left s in if sp.is_space c then rest else c ∷ s

  abbrev pub keep_unless_blank : ℕ → List ℕ → List ℕ
  keep_unless_blank c [] = if sp.is_space c then [] else c ∷ []
  keep_unless_blank c (d ∷ s) = c ∷ d ∷ s

  unfoldable pub trim_right : List ℕ → List ℕ
  trim_right [] = []
  trim_right (c ∷ s) = keep_unless_blank c (trim_right s)

  -- `strings.TrimSpace`.
  unfoldable pub trim_space : List ℕ → List ℕ
  unfolding trim_left trim_right
  trim_space s = trim_right (trim_left s)

  -- The part before the first white space.
  unfoldable pub first_word : List ℕ → List ℕ
  first_word [] = []
  first_word (c ∷ s) = let rest = first_word s in if sp.is_space c then [] else c ∷ rest

  -- `#requires`, in runes.
  abbrev pub requires : List ℕ
  requires = b'#' ∷ b'r' ∷ b'e' ∷ b'q' ∷ b'u' ∷ b'i' ∷ b'r' ∷ b'e' ∷ b's' ∷ []

  -- Whether a trimmed line goes to the wire.
  unfoldable pub is_kept : List ℕ → Bool
  unfolding first_word
  is_kept [] = false
  is_kept (c ∷ s) = if nat_eq c b'#' then sp.equal_fold (first_word (c ∷ s)) requires else true

  abbrev pub push : ℕ → List (List ℕ) → List (List ℕ)
  push c [] = (c ∷ []) ∷ []
  push c (l ∷ ls) = (c ∷ l) ∷ ls

  -- `strings.Split(s, "\n")`.
  unfoldable pub lines : List ℕ → List (List ℕ)
  lines [] = [] ∷ []
  lines (c ∷ s) = let rest = lines s in if nat_eq c 10 then [] ∷ rest else push c rest

  unfoldable pub written : List (List ℕ) → List ℕ
  unfolding trim_space is_kept
  written [] = []
  written (l ∷ ls) =
      let rest = written ls in
      let trimmed = trim_space l in if is_kept trimmed then trimmed ++ 10 ∷ rest else rest

  unfoldable pub minify_ps : List ℕ → List ℕ
  unfolding lines written
  minify_ps s = written (lines s)
