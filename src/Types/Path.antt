-- ===== src/Types/Path.antt =====
-- internal/types/path/path.go: Windows paths that are equal up to slash style and case.
use terraform_provider_hyper.Common.{
  ℕ, ◌+◌, ◌≤◌, ◌<◌, String, ◌≡◌, refl, ◌↔◌, ◌⊎◌, Bool, true, List, [], ◌∷◌, map, arith, nat_eq,
  if◌then◌else◌,
}
use terraform_provider_hyper.Framework.{Attr, value_string}
use terraform_provider_hyper.Types.Runes.{
  runes, runes_eq, runes_eq_iff, Unicode, ascii_lower, IsAscii,
}

abbrev slash : ℕ
slash = b'/'

abbrev backslash : ℕ
backslash = b'\\'

module _ ⦃u : Unicode⦄ where
  -- `strings.ToLower(strings.ReplaceAll(s, "/", "\\"))`, as runes.
  unfoldable pub normalize : String → List ℕ
  normalize s = map (λ c. u.lower (if nat_eq c slash then backslash else c)) (runes s)

  -- The framework calls this only on two known values.
  unfoldable pub string_semantic_equals : Attr String → Attr String → Bool
  unfolding normalize
  string_semantic_equals p q = runes_eq (normalize (value_string p)) (normalize (value_string q))

-- Two runes of a path that Windows does not tell apart: equal, two separators, or one letter in
-- either case.
abbrev pub SameRune : ℕ → ℕ → Type 0
SameRune a b =
    (a ≡ b)
    ⊎ ((a ≡ slash) × (b ≡ backslash))
    ⊎ ((a ≡ backslash) × (b ≡ slash))
    ⊎ ((b'A' ≤ a) × (a ≤ b'Z') × (b ≡ a + 32))
    ⊎ ((b'A' ≤ b) × (b ≤ b'Z') × (a ≡ b + 32))

abbrev pub SamePath : List ℕ → List ℕ → Type 0
SamePath [] [] = Unit
SamePath (a ∷ s) (b ∷ t) = SameRune a b × SamePath s t
SamePath [] (b ∷ t) = ⊥
SamePath (a ∷ s) [] = ⊥

fold : ℕ → ℕ
fold c = ascii_lower (if nat_eq c slash then backslash else c)

fold-SameRune : (a b : ℕ) → fold a ≡ fold b → SameRune a b
unfolding fold
fold-SameRune a b h = ground arith

SameRune-fold : (a b : ℕ) → SameRune a b → fold a ≡ fold b
unfolding fold
SameRune-fold a b h = ground arith

module _ ⦃u : Unicode⦄ where
  abbrev normal : ℕ → ℕ
  normal c = u.lower (if nat_eq c slash then backslash else c)

  normal-fold : (c : ℕ) → c < 128 → normal c ≡ fold c
  unfolding fold
  normal-fold c h = u.lower_ascii (if nat_eq c slash then backslash else c) (ground arith)

  map-normal-SamePath :
      (s t : List ℕ) → IsAscii s → IsAscii t → map normal s ≡ map normal t → SamePath s t
  map-normal-SamePath [] [] hs ht e = tt
  map-normal-SamePath [] (b ∷ t) hs ht e = cc
  map-normal-SamePath (a ∷ s) [] hs ht e = cc
  map-normal-SamePath (a ∷ s) (b ∷ t) (ha, hs) (hb, ht) e = (
    fold-SameRune a b (cc (normal-fold a ha, normal-fold b hb, e)),
    map-normal-SamePath s t hs ht (cc),
  )

  SamePath-map-normal :
      (s t : List ℕ) → IsAscii s → IsAscii t → SamePath s t → map normal s ≡ map normal t
  SamePath-map-normal [] [] hs ht r = refl
  SamePath-map-normal [] (b ∷ t) hs ht r = absurd r
  SamePath-map-normal (a ∷ s) [] hs ht r = absurd r
  SamePath-map-normal (a ∷ s) (b ∷ t) (ha, hs) (hb, ht) (r, rs) =
      cc (normal-fold a ha, normal-fold b hb, SameRune-fold a b r, SamePath-map-normal s t hs ht rs)

  -- On ASCII text the semantic equality of two known paths holds exactly when the paths have the same
  -- length and agree rune by rune up to slash style and letter case.
  pub string_semantic_equals-SamePath_iff :
      (s t : String)
      → IsAscii (runes s)
      → IsAscii (runes t)
      → (string_semantic_equals (Attr.known s) (Attr.known t) ≡ true) ↔ SamePath (runes s) (runes t)
  unfolding string_semantic_equals
  string_semantic_equals-SamePath_iff s t hs ht = (
    λ h. map-normal-SamePath (runes s) (runes t) hs ht ((runes_eq_iff _ _).0 h),
    λ r. (runes_eq_iff _ _).1 (SamePath-map-normal (runes s) (runes t) hs ht r),
  )

  pub string_semantic_equals_refl : (p : Attr String) → string_semantic_equals p p ≡ true
  unfolding string_semantic_equals
  string_semantic_equals_refl p = let n = normalize (value_string p) in (runes_eq_iff n n).1 refl
