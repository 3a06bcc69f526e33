-- ===== src/Types/Mac.antt =====
-- internal/types/mac/mac.go: MAC addresses that are equal up to separators and case.
use terraform_provider_hyper.Common.{
  ℕ, String, ◌≡◌, refl, sym, ◌∙◌, ◌↔◌, Bool, true, false, ◌||◌, List, [], ◌∷◌, map, nat_eq,
  if◌then◌else◌, Bool-cases, inl, inr,
}
use terraform_provider_hyper.Framework.{Attr, value_string}
use terraform_provider_hyper.Types.Runes.{
  runes, runes_eq, runes_eq_iff, Unicode, ascii_upper, IsAscii,
}

-- What the replacer of `Normalize` deletes: a colon or a hyphen.
unfoldable pub is_separator : ℕ → Bool
is_separator c = nat_eq c b':' || nat_eq c b'-'

unfoldable pub strip : List ℕ → List ℕ
unfolding is_separator
strip [] = []
strip (c ∷ s) = let rest = strip s in if is_separator c then rest else c ∷ rest

module _ ⦃u : Unicode⦄ where
  -- The separators stripped, then `strings.ToUpper`, as runes.
  unfoldable pub normalize : String → List ℕ
  normalize s = map u.upper (strip (runes s))

  -- The framework calls this only on two known values.
  unfoldable pub string_semantic_equals : Attr String → Attr String → Bool
  unfolding normalize
  string_semantic_equals p q = runes_eq (normalize (value_string p)) (normalize (value_string q))

-- The two texts read alike when separators are skipped on either side and letters are compared in
-- either case.
pub data SameMac : List ℕ → List ℕ → Type 0 where
  done : SameMac [] []
  skip_left : {s t : List ℕ} (c : ℕ) → is_separator c ≡ true → SameMac s t → SameMac (c ∷ s) t
  skip_right : {s t : List ℕ} (c : ℕ) → is_separator c ≡ true → SameMac s t → SameMac s (c ∷ t)
  both :
      {s t : List ℕ} (a b : ℕ)
      → is_separator a ≡ false
      → is_separator b ≡ false
      → ascii_upper a ≡ ascii_upper b
      → SameMac s t
      → SameMac (a ∷ s) (b ∷ t)

module _ ⦃u : Unicode⦄ where
  abbrev canon : List ℕ → List ℕ
  canon s = map u.upper (strip s)

  canon-nil : canon [] ≡ []
  unfolding strip
  canon-nil = refl

  canon-separator : (c : ℕ) (s : List ℕ) → is_separator c ≡ true → canon (c ∷ s) ≡ canon s
  unfolding strip
  canon-separator c s h = rw h

  canon-keep : (c : ℕ) (s : List ℕ) → is_separator c ≡ false → canon (c ∷ s) ≡ u.upper c ∷ canon s
  unfolding strip
  canon-keep c s h = rw h

  SameMac-canon : {s t : List ℕ} → IsAscii s → IsAscii t → SameMac s t → canon s ≡ canon t
  SameMac-canon hs ht done = refl
  SameMac-canon hs ht (skip_left {s} c h r) = rw (canon-separator c s h) (SameMac-canon hs.1 ht r)
  SameMac-canon hs ht (skip_right {t = t} c h r) =
      rw (canon-separator c t h) (SameMac-canon hs ht.1 r)
  SameMac-canon hs ht (both {s} {t} a b ha hb e r) =
      rw (canon-keep a s ha, canon-keep b t hb)
        (cc (u.upper_ascii a hs.0, u.upper_ascii b ht.0, e, SameMac-canon hs.1 ht.1 r))

  canon-SameMac : (s t : List ℕ) → IsAscii s → IsAscii t → canon s ≡ canon t → SameMac s t
  canon-SameMac [] [] hs ht e = done
  canon-SameMac [] (b ∷ t) hs ht e = elim (Bool-cases (is_separator b)) [
    | inl sep ↦ skip_right b sep (canon-SameMac [] t hs ht.1 (e ∙ canon-separator b t sep))
    | inr keep ↦ cc (sym canon-nil ∙ e ∙ canon-keep b t keep)
  ]
  canon-SameMac (a ∷ s) [] hs ht e = elim (Bool-cases (is_separator a)) [
    | inl sep ↦ skip_left a sep (canon-SameMac s [] hs.1 ht (sym (canon-separator a s sep) ∙ e))
    | inr keep ↦ cc (sym (canon-keep a s keep) ∙ e ∙ canon-nil)
  ]
  canon-SameMac (a ∷ s) (b ∷ t) hs ht e = elim (Bool-cases (is_separator a)) [
    | inl sep ↦
        skip_left a sep (canon-SameMac s (b ∷ t) hs.1 ht (sym (canon-separator a s sep) ∙ e))
    | inr keep ↦ elim (Bool-cases (is_separator b)) [
      | inl sep ↦ skip_right b sep (canon-SameMac (a ∷ s) t hs ht.1 (e ∙ canon-separator b t sep))
      | inr keep' ↦
          let e' = sym (canon-keep a s keep) ∙ e ∙ canon-keep b t keep' in
          both a b keep keep' (cc (u.upper_ascii a hs.0, u.upper_ascii b ht.0, e'))
            (canon-SameMac s t hs.1 ht.1 (cc e'))
    ]
  ]

  -- On ASCII text the semantic equality of two known MAC addresses holds exactly when the texts read
  -- alike with colons and hyphens skipped and letters compared in either case.
  pub string_semantic_equals-SameMac_iff :
      (s t : String)
      → IsAscii (runes s)
      → IsAscii (runes t)
      → (string_semantic_equals (Attr.known s) (Attr.known t) ≡ true) ↔ SameMac (runes s) (runes t)
  unfolding string_semantic_equals
  string_semantic_equals-SameMac_iff s t hs ht = (
    λ h. canon-SameMac (runes s) (runes t) hs ht ((runes_eq_iff _ _).0 h),
    λ r. (runes_eq_iff _ _).1 (SameMac-canon hs ht r),
  )
