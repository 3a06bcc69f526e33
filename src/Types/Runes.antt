-- ===== src/Types/Runes.antt =====
-- Text as runes, for the two normalizations of internal/types. `strings.ToLower` and
-- `strings.ToUpper` map rune by rune through the Unicode tables, which are the parameter `Unicode`:
-- on ASCII they are the shift by 32, and beyond ASCII nothing is assumed.
use Prim.Native.Char.{code}
use terraform_provider_hyper.Common.{
  ℕ, ◌+◌, ◌-◌, ◌<◌, String, ◌≡◌, refl, ◌↔◌, Bool, true, false, ◌&&◌, List, [], ◌∷◌, arith, leb,
  nat_eq, if◌then◌else◌, All,
}

abbrev pub runes : String → List ℕ
runes String.[] = []
runes (String.◌∷◌ c s) = code c ∷ runes s

abbrev pub runes_eq : List ℕ → List ℕ → Bool
runes_eq [] [] = true
runes_eq (a ∷ s) (b ∷ t) = nat_eq a b && runes_eq s t
runes_eq [] (b ∷ t) = false
runes_eq (a ∷ s) [] = false

pub runes_eq_iff : (s t : List ℕ) → (runes_eq s t ≡ true) ↔ (s ≡ t)
runes_eq_iff [] [] = ground arith
runes_eq_iff (a ∷ s) (b ∷ t) = ground (arith, runes_eq_iff s t)
runes_eq_iff [] (b ∷ t) = ground arith
runes_eq_iff (a ∷ s) [] = ground arith

abbrev pub ascii_lower : ℕ → ℕ
ascii_lower c = if leb b'A' c && leb c b'Z' then c + 32 else c

abbrev pub ascii_upper : ℕ → ℕ
ascii_upper c = if leb b'a' c && leb c b'z' then c - 32 else c

-- The Unicode tables of the Go library.
pub record Unicode : Type 0 where
  pub lower : ℕ → ℕ
  pub upper : ℕ → ℕ
  pub lower_ascii : (c : ℕ) → c < 128 → lower c ≡ ascii_lower c
  pub upper_ascii : (c : ℕ) → c < 128 → upper c ≡ ascii_upper c

abbrev pub IsAscii : List ℕ → Type 0
IsAscii = All (λ c. c < 128)

-- The tables cut down to ASCII: the laws can be met.
abbrev pub ascii_tables : Unicode
ascii_tables = record {
  lower = ascii_lower;
  upper = ascii_upper;
  lower_ascii = λ c h. refl;
  upper_ascii = λ c h. refl;
}
