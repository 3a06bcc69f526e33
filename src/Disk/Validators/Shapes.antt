-- ===== src/Disk/Validators/Shapes.antt =====
-- The configurations of a disk that the validators accept.
use terraform_provider_hyper.Common.{
  String, List, [], ◌∷◌, ◌++◌, true, false, ◌≡◌, ◌≢◌, ◌↔◌, ◌⊎◌, inl, inr, refl, Bool-cases, eq_iff,
  arith, ap, ◌∙◌,
}
use terraform_provider_hyper.Framework.{
  Attr, null, unknown, known, is_unknown, is_known, value_string,
}
use terraform_provider_hyper.Types.Runes.{Unicode}
use terraform_provider_hyper.Types.Path.{string_semantic_equals}
use terraform_provider_hyper.Disk.Model.{Model}
use terraform_provider_hyper.Disk.Validators.{
  validate, validate_parent_path, validate_size_bytes, validate_block_size_bytes,
  validate_source_path,
}

append_nil_iff {ℓ} : {A : Type ℓ} (xs ys : List A) → (xs ++ ys ≡ []) ↔ ((xs ≡ []) × (ys ≡ []))
append_nil_iff [] ys = ((λ h. (refl, h)), (λ (p, q). q))
append_nil_iff (x ∷ xs) ys = ((λ h. absurd (cc)), (λ (p, q). absurd (cc)))

module _ ⦃u : Unicode⦄ where
  -- A copy of another disk: its layout is the source's.
  abbrev pub IsCopy : Model → Type 0
  IsCopy m =
      (is_known m.source_path ≡ true)
      × (m.vhd_type ≡ null)
      × (m.parent_path ≡ null)
      × (m.block_size_bytes ≡ null)
      × (is_known m.path ≡ true → string_semantic_equals m.source_path m.path ≡ false)

-- A disk over a parent, which gives it its sizes.
abbrev pub IsChild : Model → Type 0
IsChild m =
    (m.source_path ≡ null)
    × (m.vhd_type ≡ known "differencing")
    × (value_string m.parent_path ≢ "")
    × (m.size_bytes ≡ null)
    × (m.block_size_bytes ≡ null)

-- A disk of its own size, of any other kind.
abbrev pub IsOwn : Model → Type 0
IsOwn m =
    (m.source_path ≡ null)
    × ((t : String) × (m.vhd_type ≡ known t) × (t ≢ "differencing"))
    × (value_string m.parent_path ≡ "")
    × (is_known m.size_bytes ≡ true)

-- Nothing that the rules look at, but the path, is unknown.
abbrev pub IsResolved : Model → Type 0
IsResolved m =
    (is_unknown m.source_path ≡ false)
    × (is_unknown m.vhd_type ≡ false)
    × (is_unknown m.parent_path ≡ false)
    × (is_unknown m.size_bytes ≡ false)
    × (is_unknown m.block_size_bytes ≡ false)

Attr-cases :
    {A : Type 0} (a : Attr A) → is_unknown a ≡ false → (a ≡ null) ⊎ ((x : A) × (a ≡ known x))
Attr-cases null h = inl refl
Attr-cases unknown h = absurd (cc)
Attr-cases (known x) h = inr (x, refl)

module _ (m : Model) (r : IsResolved m) where
  parent_nil :
      (s : m.source_path ≡ null) (t : String)
      → m.vhd_type ≡ known t
      → (validate_parent_path m ≡ []) ↔ (
          ((t ≡ "differencing") × (value_string m.parent_path ≢ ""))
          ⊎ ((t ≢ "differencing") × (value_string m.parent_path ≡ "")))
  unfolding validate_parent_path
  parent_nil s t k =
      let (r1, r2, r3, r4, r5) = r in
      elim (Attr-cases m.parent_path r3) [
        | inl p ↦ rw (s, k, p) (ground (arith, eq_iff t "differencing"))
        | inr (x, p) ↦ rw (s, k, p) (ground (arith, eq_iff t "differencing", eq_iff x ""))
      ]

  size_nil :
      (s : m.source_path ≡ null) (t : String)
      → m.vhd_type ≡ known t
      → (validate_size_bytes m ≡ []) ↔ (
          ((t ≡ "differencing") × (m.size_bytes ≡ null))
          ⊎ ((t ≢ "differencing") × (is_known m.size_bytes ≡ true)))
  unfolding validate_size_bytes
  size_nil s t k =
      let (r1, r2, r3, r4, r5) = r in
      elim (Attr-cases m.size_bytes r4) [
        | inl p ↦ rw (s, k, p) (ground (arith, eq_iff t "differencing"))
        | inr (x, p) ↦ rw (s, k, p) (ground (arith, eq_iff t "differencing"))
      ]

  block_nil :
      (t : String)
      → m.vhd_type ≡ known t
      → (validate_block_size_bytes m ≡ []) ↔ (t ≡ "differencing" → m.block_size_bytes ≡ null)
  unfolding validate_block_size_bytes
  block_nil t k =
      let (r1, r2, r3, r4, r5) = r in
      elim (Attr-cases m.block_size_bytes r5) [
        | inl p ↦ rw (k, p) (ground (arith, eq_iff t "differencing"))
        | inr (x, p) ↦ rw (k, p) (ground (arith, eq_iff t "differencing"))
      ]

  null_source :
      ⦃u : Unicode⦄
      → m.source_path ≡ null
      → (t : String) → m.vhd_type ≡ known t
      → validate_source_path m ≡ []
  unfolding validate_source_path
  null_source s t k = rw (s, k) refl

  untyped : ⦃u : Unicode⦄ → m.source_path ≡ null → m.vhd_type ≡ null → validate_source_path m ≢ []
  unfolding validate_source_path
  untyped s k h = let h' = rw (s, k) at h in cc

  -- In the mode of the copy, the other three rules report nothing.
  others :
      (p : String)
      → m.source_path ≡ known p
      → m.vhd_type ≡ null
      → (validate_parent_path m ≡ [])
        × (validate_size_bytes m ≡ [])
        × (validate_block_size_bytes m ≡ [])
  unfolding validate_parent_path validate_size_bytes validate_block_size_bytes
  others p s k =
      let (r1, r2, r3, r4, r5) = r in (rw (s, k, r3) refl, rw (s, k, r4) refl, rw (k, r5) refl)

  typed :
      ⦃u : Unicode⦄ (p t : String)
      → m.source_path ≡ known p
      → m.vhd_type ≡ known t
      → validate_source_path m ≢ []
  unfolding validate_source_path
  typed p t s k h = let h' = rw (s, k) at h in cc

  source_nil :
      ⦃u : Unicode⦄ (p : String)
      → m.source_path ≡ known p
      → m.vhd_type ≡ null
      → (validate_source_path m ≡ []) ↔ IsCopy m
  unfolding validate_source_path
  source_nil p s k =
      let (r1, r2, r3, r4, r5) = r in
      elim (Attr-cases m.parent_path r3) [
        | inr (x, a) ↦ rw (s, k, a) ((λ h. absurd (cc)), (λ (y, z, e, e', w). absurd (cc)))
        | inl a ↦ elim (Attr-cases m.block_size_bytes r5) [
          | inr (x, b) ↦ rw (s, k, a, b) ((λ h. absurd (cc)), (λ (y, z, e, e', w). absurd (cc)))
          | inl b ↦ elim (Bool-cases (is_known m.path)) [
            | inr c ↦
                rw (s, k, a, b, c)
                  ((λ h. (refl, refl, refl, refl, (λ x. absurd (cc)))), (λ h. refl))
            | inl c ↦ elim (Bool-cases (string_semantic_equals (known p) m.path)) [
              | inl d ↦
                  rw (s, k, a, b, c, d)
                    ((λ h. absurd (cc)), (λ (y, z, e, e', w). let o = w refl in absurd (cc)))
              | inr d ↦
                  rw (s, k, a, b, c, d) ((λ h. (refl, refl, refl, refl, (λ x. refl))), (λ h. refl))
            ]
          ]
        ]
      ]

  parts :
      ⦃u : Unicode⦄
      → (validate m ≡ []) ↔ (
          (validate_parent_path m ≡ [])
          × (validate_size_bytes m ≡ [])
          × (validate_block_size_bytes m ≡ [])
          × (validate_source_path m ≡ []))
  unfolding validate
  parts = (
    (λ h.
        let (h3, d) = (append_nil_iff _ (validate_source_path m)).0 h in
        let (h2, c) = (append_nil_iff _ (validate_block_size_bytes m)).0 h3 in
        let (a, b) = (append_nil_iff _ (validate_size_bytes m)).0 h2 in (a, b, c, d)),
    (λ (a, b, c, d). rw (a, b, c, d) refl),
  )

  made :
      ⦃u : Unicode⦄ (s : m.source_path ≡ null) (t : String) (k : m.vhd_type ≡ known t)
      → (validate m ≡ []) ↔ (IsChild m ⊎ IsOwn m)
  made s t k = (
    (λ h.
        let (a, b, c, d) = parts.0 h in
        elim ((parent_nil s t k).0 a) [
          | inl (e, p) ↦ elim ((size_nil s t k).0 b) [
            | inl (e', z) ↦ inl (s, k ∙ ap known e, p, z, (block_nil t k).0 c e)
            | inr (n, z) ↦ absurd (n e)
          ]
          | inr (n, p) ↦ elim ((size_nil s t k).0 b) [
            | inl (e, z) ↦ absurd (n e)
            | inr (n', z) ↦ inr (s, (t, k, n), p, z)
          ]
        ]),
    (λ g. elim g [
      | inl (y, e, p, z, b) ↦
          let q : t ≡ "differencing" = cc in
          parts.1 (
            (parent_nil s t k).1 (inl (q, p)),
            (size_nil s t k).1 (inl (q, z)),
            (block_nil t k).1 (λ x. b),
            null_source s t k,
          )
      | inr (y, (t', e, n), p, z) ↦
          let n' : t ≢ "differencing" = λ x. n (cc) in
          parts.1 (
            (parent_nil s t k).1 (inr (n', p)),
            (size_nil s t k).1 (inr (n', z)),
            (block_nil t k).1 (λ x. absurd (n' x)),
            null_source s t k,
          )
    ]),
  )

  -- On a configuration in which nothing that the rules look at but the path is unknown, the validators
  -- report nothing exactly if it is one of three: a copy of a disk at another path with no layout of
  -- its own; a differencing disk with a parent and no sizes; or a disk of any other kind with a size and
  -- no parent.
  pub validate-accepted_iff : ⦃u : Unicode⦄ → (validate m ≡ []) ↔ (IsCopy m ⊎ IsChild m ⊎ IsOwn m)
  validate-accepted_iff =
      let (r1, r2, r3, r4, r5) = r in
      elim (Attr-cases m.source_path r1) [
        | inl s ↦ elim (Attr-cases m.vhd_type r2) [
          | inl k ↦ (
            (λ h. let (a, b, c, d) = parts.0 h in absurd (untyped s k d)),
            (λ g. elim g [
              | inl (y, w, a, b, c) ↦ let y' = rw s at y in absurd (cc)
              | inr (inl (y, e, a, b, c)) ↦ absurd (cc)
              | inr (inr (y, (t, e, ne), a, b)) ↦ absurd (cc)
            ]),
          )
          | inr (t, k) ↦ (
            (λ h. inr ((made s t k).0 h)),
            (λ g. elim g [
              | inl (y, w, a, b, c) ↦ let y' = rw s at y in absurd (cc)
              | inr w ↦ (made s t k).1 w
            ]),
          )
        ]
        | inr (p, s) ↦ elim (Attr-cases m.vhd_type r2) [
          | inl k ↦ (
            (λ h. let (a, b, c, d) = parts.0 h in inl ((source_nil p s k).0 d)),
            (λ g. elim g [
              | inl w ↦ let (a, b, c) = others p s k in parts.1 (a, b, c, (source_nil p s k).1 w)
              | inr (inl (y, e, a, b, c)) ↦ absurd (cc)
              | inr (inr (y, (t, e, ne), a, b)) ↦ absurd (cc)
            ]),
          )
          | inr (t, k) ↦ (
            (λ h. let (a, b, c, d) = parts.0 h in absurd (typed p t s k d)),
            (λ g. elim g [
              | inl (y, e, a, b, c) ↦ absurd (cc)
              | inr (inl (y, e, a, b, c)) ↦ absurd (cc)
              | inr (inr (y, e, a, b)) ↦ absurd (cc)
            ]),
          )
        ]
      ]
