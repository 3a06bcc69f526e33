-- ===== src/Hyperv/Script/Minify/Shrinks.antt =====
-- What shrinking a script keeps and what it drops, without reference to the loops.
use terraform_provider_hyper.Common.{
  ℕ, List, [], ◌∷◌, ◌++◌, true, false, nat_eq, ◌≡◌, ◌≢◌, ◌⊎◌, refl, ap, sym, ◌∙◌, inl, inr,
  Bool-cases, All, arith,
}
use terraform_provider_hyper.Hyperv.Script.Minify.{
  Spaces, trim_left, trim_right, trim_space, keep_unless_blank, first_word, requires, is_kept,
  lines, push, written, minify_ps,
}

-- A line: no line feed in it.
abbrev pub IsLine : List ℕ → Type 0
IsLine = All (λ c. nat_eq c 10 ≡ false)

-- The text whose lines these are, with a line feed between each two.
abbrev pub text_of : List (List ℕ) → List ℕ
text_of [] = []
text_of (l ∷ []) = l
text_of (l ∷ m ∷ ls) = l ++ 10 ∷ text_of (m ∷ ls)

module _ (sp : Spaces) where
  abbrev pub IsBlank : List ℕ → Type 0
  IsBlank = All (λ c. sp.is_space c ≡ true)

  -- No white space at the front, and none at the back.
  abbrev pub Opens : List ℕ → Type 0
  Opens [] = Unit
  Opens (c ∷ s) = sp.is_space c ≡ false

  abbrev pub Closes : List ℕ → Type 0
  Closes [] = Unit
  Closes (c ∷ []) = sp.is_space c ≡ false
  Closes (c ∷ d ∷ s) = Closes (d ∷ s)

  -- The line is t with white space around it, and t has none at its ends.
  abbrev pub Trims : List ℕ → List ℕ → Type 0
  Trims l t =
      (pre : List ℕ) × (post : List ℕ) × (l ≡ pre ++ (t ++ post))
      × IsBlank pre
      × IsBlank post
      × Opens t
      × Closes t

  abbrev pub EndsWord : List ℕ → Type 0
  EndsWord [] = Unit
  EndsWord (c ∷ s) = sp.is_space c ≡ true

  -- The part before the first white space.
  abbrev pub HasWord : List ℕ → List ℕ → Type 0
  HasWord t w =
      (rest : List ℕ) × (t ≡ w ++ rest) × All (λ c. sp.is_space c ≡ false) w × EndsWord rest

  -- A line that is a comment, and whether its first word is `#requires`, in any case of its letters.
  abbrev pub IsComment : List ℕ → Type 0
  IsComment t =
      (s : List ℕ) × (w : List ℕ) × (t ≡ b'#' ∷ s)
      × HasWord t w
      × (sp.equal_fold w (requires sp) ≡ false)

  abbrev pub IsDirective : List ℕ → Type 0
  IsDirective t =
      (s : List ℕ) × (w : List ℕ) × (t ≡ b'#' ∷ s)
      × HasWord t w
      × (sp.equal_fold w (requires sp) ≡ true)

  -- A line that begins with something else.
  abbrev pub IsCode : List ℕ → Type 0
  IsCode t = (c : ℕ) × (s : List ℕ) × (t ≡ c ∷ s) × (c ≢ b'#')

  -- The lines of a script, and what goes to the wire: blank lines and comments are dropped, code and
  -- directives go out trimmed, each with a line feed.
  pub data Shrinks : List (List ℕ) → List ℕ → Type 0 where
    nil : Shrinks [] []
    drop :
        {l t out : List ℕ} {ls : List (List ℕ)}
        → Trims l t
        → (t ≡ []) ⊎ IsComment t
        → Shrinks ls out
        → Shrinks (l ∷ ls) out
    keep :
        {l t out : List ℕ} {ls : List (List ℕ)}
        → Trims l t
        → IsCode t ⊎ IsDirective t
        → Shrinks ls out
        → Shrinks (l ∷ ls) (t ++ 10 ∷ out)

  push-IsLine :
      (c : ℕ) (ls : List (List ℕ)) → nat_eq c 10 ≡ false → All IsLine ls → All IsLine (push sp c ls)
  push-IsLine c [] q h = ((q, tt), tt)
  push-IsLine c (l ∷ ls) q (h, hs) = ((q, h), hs)

  lines-IsLine : (s : List ℕ) → All IsLine (lines sp s)
  unfolding lines
  lines-IsLine [] = (tt, tt)
  lines-IsLine (c ∷ s) = elim (Bool-cases (nat_eq c 10)) [
    | inl q ↦ rw q (tt, lines-IsLine s)
    | inr q ↦ rw q (push-IsLine c (lines sp s) q (lines-IsLine s))
  ]

  text_of-push : (c : ℕ) (ls : List (List ℕ)) → text_of (push sp c ls) ≡ c ∷ text_of ls
  text_of-push c [] = refl
  text_of-push c (l ∷ []) = refl
  text_of-push c (l ∷ m ∷ ls) = refl

  -- A line feed opens a new line, since the rest has at least one.
  text_of-feed : (ls : List (List ℕ)) → ls ≢ [] → text_of ([] ∷ ls) ≡ 10 ∷ text_of ls
  text_of-feed [] h = absurd (h refl)
  text_of-feed (l ∷ ls) h = refl

  push-cons : (c : ℕ) (ls : List (List ℕ)) → push sp c ls ≢ []
  push-cons c [] h = cc
  push-cons c (l ∷ ls) h = cc

  lines-cons : (s : List ℕ) → lines sp s ≢ []
  unfolding lines
  lines-cons [] = λ h. cc
  lines-cons (c ∷ s) = elim (Bool-cases (nat_eq c 10)) [
    | inl q ↦ rw q (λ h. cc)
    | inr q ↦ rw q (push-cons c (lines sp s))
  ]

  text_of-lines : (s : List ℕ) → text_of (lines sp s) ≡ s
  unfolding lines
  text_of-lines [] = refl
  text_of-lines (c ∷ s) = elim (Bool-cases (nat_eq c 10)) [
    | inl q ↦
        let e : c ≡ 10 = ground arith in
        rw q (
          text_of-feed (lines sp s) (lines-cons s)
          ∙ ap (λ x. 10 ∷ x) (text_of-lines s)
          ∙ ap (λ x. x ∷ s) (sym e))
    | inr q ↦ rw q (text_of-push c (lines sp s) ∙ ap (λ x. c ∷ x) (text_of-lines s))
  ]

  trim_left-Opens : (s : List ℕ) → Opens (trim_left sp s)
  unfolding trim_left
  trim_left-Opens [] = tt
  trim_left-Opens (c ∷ s) = elim (Bool-cases (sp.is_space c)) [
    | inl b ↦ rw b (trim_left-Opens s)
    | inr b ↦ rw b b
  ]

  trim_left-split : (s : List ℕ) → (pre : List ℕ) × (s ≡ pre ++ trim_left sp s) × IsBlank pre
  unfolding trim_left
  trim_left-split [] = ([], refl, tt)
  trim_left-split (c ∷ s) = elim (Bool-cases (sp.is_space c)) [
    | inl b ↦ let (pre, e, h) = trim_left-split s in rw b (c ∷ pre, ap (λ x. c ∷ x) e, (b, h))
    | inr b ↦ rw b ([], refl, tt)
  ]

  -- The text, cut in two: a part that closes, and white space.
  abbrev Cut : List ℕ → List ℕ → Type 0
  Cut s t = (post : List ℕ) × (s ≡ t ++ post) × IsBlank post × Closes t

  Cut-keep : (c : ℕ) (s t : List ℕ) → Cut s t → Cut (c ∷ s) (keep_unless_blank sp c t)
  Cut-keep c s [] (post, e, h, k) = elim (Bool-cases (sp.is_space c)) [
    | inl b ↦ rw b (c ∷ post, ap (λ x. c ∷ x) e, (b, h), tt)
    | inr b ↦ rw b (post, ap (λ x. c ∷ x) e, h, b)
  ]
  Cut-keep c s (d ∷ t) (post, e, h, k) = (post, ap (λ x. c ∷ x) e, h, k)

  trim_right-Cut : (s : List ℕ) → Cut s (trim_right sp s)
  unfolding trim_right
  trim_right-Cut [] = ([], refl, tt, tt)
  trim_right-Cut (c ∷ s) = Cut-keep c s (trim_right sp s) (trim_right-Cut s)

  keep-Opens : (c : ℕ) (s : List ℕ) → sp.is_space c ≡ false → Opens (keep_unless_blank sp c s)
  keep-Opens c [] b = rw b b
  keep-Opens c (d ∷ s) b = b

  trim_right-Opens : (s : List ℕ) → Opens s → Opens (trim_right sp s)
  unfolding trim_right
  trim_right-Opens [] h = tt
  trim_right-Opens (c ∷ s) h = keep-Opens c (trim_right sp s) h

  trim_space-Trims : (l : List ℕ) → Trims l (trim_space sp l)
  unfolding trim_space
  trim_space-Trims l =
      let (pre, e, h) = trim_left-split l in
      let (post, e', h', k) = trim_right-Cut (trim_left sp l) in
      (
        pre,
        post,
        e ∙ ap (λ x. pre ++ x) e',
        h,
        h',
        trim_right-Opens (trim_left sp l) (trim_left-Opens l),
        k,
      )

  first_word-HasWord : (t : List ℕ) → HasWord t (first_word sp t)
  unfolding first_word
  first_word-HasWord [] = ([], refl, tt, tt)
  first_word-HasWord (c ∷ s) = elim (Bool-cases (sp.is_space c)) [
    | inl b ↦ rw b (c ∷ s, refl, tt, b)
    | inr b ↦
        let (rest, e, h, k) = first_word-HasWord s in rw b (rest, ap (λ x. c ∷ x) e, (b, h), k)
  ]

  kept_cases :
      (t : List ℕ)
      → ((is_kept sp t ≡ true) × (IsCode t ⊎ IsDirective t))
        ⊎ ((is_kept sp t ≡ false) × ((t ≡ []) ⊎ IsComment t))
  unfolding is_kept
  kept_cases [] = inr (refl, inl refl)
  kept_cases (c ∷ s) = elim (Bool-cases (nat_eq c b'#')) [
    | inr q ↦ let n : c ≢ b'#' = λ h. ground arith in rw q (inl (refl, inl (c, s, refl, n)))
    | inl q ↦
        let e : c ≡ b'#' = ground arith in
        let w = first_word sp (c ∷ s) in
        elim (Bool-cases (sp.equal_fold w (requires sp))) [
          | inl f ↦ inl (rw q f, inr (s, w, ap (λ x. x ∷ s) e, first_word-HasWord (c ∷ s), f))
          | inr f ↦ inr (rw q f, inr (s, w, ap (λ x. x ∷ s) e, first_word-HasWord (c ∷ s), f))
        ]
  ]

  written-Shrinks : (ls : List (List ℕ)) → Shrinks ls (written sp ls)
  unfolding written
  written-Shrinks [] = nil
  written-Shrinks (l ∷ ls) = elim (kept_cases (trim_space sp l)) [
    | inl (q, k) ↦ rw q (keep (trim_space-Trims l) k (written-Shrinks ls))
    | inr (q, k) ↦ rw q (drop (trim_space-Trims l) k (written-Shrinks ls))
  ]

  -- A script is the text of some lines, and what goes to the wire is made of them in their order: a line
  -- with nothing but white space, and a comment whose first word is not `#requires` in any case of its
  -- letters, are dropped; any other line goes out without the white space at its ends and with a line
  -- feed, and nothing else goes out.
  pub minify_ps-Shrinks :
      (s : List ℕ)
      → (ls : List (List ℕ)) × (s ≡ text_of ls) × All IsLine ls × Shrinks ls (minify_ps sp s)
  unfolding minify_ps
  minify_ps-Shrinks s =
      (lines sp s, sym (text_of-lines s), lines-IsLine s, written-Shrinks (lines sp s))
