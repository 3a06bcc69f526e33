-- ===== src/Vm/Validators/Memory.antt =====
-- What the memory validator accepts.
use terraform_provider_hyper.Vm.Validators.{
  report_if, validate_dynamic_memory_bounds, validate_memory,
}
use terraform_provider_hyper.Vm.Model.{MemoryModel, Model}
use terraform_provider_hyper.Framework.{Attr, Diagnostic, is_known, value_int64}
use terraform_provider_hyper.Common.Int.{ℤ, ◌≤ℤ◌, ltb_ℤ, ltb_ℤ_iff}
use terraform_provider_hyper.Common.{
  refl, ◌≡◌, true, false, inl, inr, arith, ◌⊎◌, ◌≢◌, Bool, ◌&&◌, ◌↔◌, [], ◌++◌, some,
}

-- The one bound is at most the other, where both are known.
abbrev pub AtMost : Attr ℤ → Attr ℤ → Type 0
AtMost (Attr.known a) (Attr.known b) = a ≤ℤ b
AtMost _ _ = Unit

-- Dynamic memory whose bounds bracket the startup size, or static memory without bounds.
abbrev pub MemoryAccepted : MemoryModel → Type 0
MemoryAccepted mem =
    ((mem.dynamic ≡ Attr.known true)
      × AtMost mem.min_bytes mem.startup_bytes
      × AtMost mem.startup_bytes mem.max_bytes)
    ⊎ ((mem.dynamic ≢ Attr.known true)
        × (is_known mem.min_bytes ≡ false)
        × (is_known mem.max_bytes ≡ false))

two_reports_iff :
    (b c : Bool) (d e : Diagnostic)
    → (report_if b d ++ report_if c e ≡ []) ↔ ((b ≡ false) × (c ≡ false))
two_reports_iff true c d e = ground arith
two_reports_iff false true d e = ground arith
two_reports_iff false false d e = ground arith

above_iff :
    (s : ℤ) (least : Attr ℤ)
    → ((is_known least && ltb_ℤ s (value_int64 least)) ≡ false) ↔ AtMost least (Attr.known s)
above_iff s (Attr.known m) = ground (arith, ltb_ℤ_iff s m)
above_iff s Attr.null = ground arith
above_iff s Attr.unknown = ground arith

below_iff :
    (s : ℤ) (most : Attr ℤ)
    → ((is_known most && ltb_ℤ (value_int64 most) s) ≡ false) ↔ AtMost (Attr.known s) most
below_iff s (Attr.known m) = ground (arith, ltb_ℤ_iff m s)
below_iff s Attr.null = ground arith
below_iff s Attr.unknown = ground arith

abbrev memory_of : Attr Bool → Attr ℤ → Attr ℤ → Attr ℤ → MemoryModel
memory_of dynamic startup least most = record {
  startup_bytes = startup;
  dynamic = dynamic;
  min_bytes = least;
  max_bytes = most;
}

AtMost-null : (a : Attr ℤ) → AtMost a Attr.null
AtMost-null (Attr.known a) = tt
AtMost-null Attr.null = tt
AtMost-null Attr.unknown = tt

AtMost-unknown : (a : Attr ℤ) → AtMost a Attr.unknown
AtMost-unknown (Attr.known a) = tt
AtMost-unknown Attr.null = tt
AtMost-unknown Attr.unknown = tt

static_iff :
    (dynamic : Attr Bool) (least most : Attr ℤ) (d e : Diagnostic)
    → dynamic ≢ Attr.known true
    → (startup : Attr ℤ)
    → (report_if (is_known least) d ++ report_if (is_known most) e ≡ [])
      ↔ MemoryAccepted (memory_of dynamic startup least most)
static_iff dynamic least most d e not_dynamic startup =
    let (f, g) = two_reports_iff (is_known least) (is_known most) d e in
    (
      λ h. let (p, q) = f h in inr (not_dynamic, p, q),
      λ h. elim h [ inl (p, q, r) ↦ absurd (not_dynamic p) | inr (p, q, r) ↦ g (q, r) ],
    )

dynamic_iff :
    (s : ℤ) (least most : Attr ℤ) (d e : Diagnostic)
    → (report_if (is_known least && ltb_ℤ s (value_int64 least)) d
          ++ report_if (is_known most && ltb_ℤ (value_int64 most) s) e
        ≡ [])
      ↔ MemoryAccepted (memory_of (Attr.known true) (Attr.known s) least most)
dynamic_iff s least most d e =
    let (f, g) =
      two_reports_iff (is_known least && ltb_ℤ s (value_int64 least))
        (is_known most && ltb_ℤ (value_int64 most) s) d e in
    (
      λ h. let (p, q) = f h in inl (refl, (above_iff s least).0 p, (below_iff s most).0 q),
      λ h. elim h [
        | inl (r, p, q) ↦ g ((above_iff s least).1 p, (below_iff s most).1 q)
        | inr (r, p, q) ↦ absurd (r refl)
      ],
    )

accepts :
    (dynamic : Attr Bool) (startup least most : Attr ℤ)
    → (validate_memory (memory_of dynamic startup least most) ≡ [])
      ↔ MemoryAccepted (memory_of dynamic startup least most)
unfolding validate_memory
accepts Attr.null startup least most =
    static_iff Attr.null least most _ _ (λ q. ground arith) startup
accepts Attr.unknown startup least most =
    static_iff Attr.unknown least most _ _ (λ q. ground arith) startup
accepts (Attr.known false) startup least most =
    static_iff (Attr.known false) least most _ _ (λ q. ground arith) startup
accepts (Attr.known true) Attr.null least most = (λ h. inl (refl, AtMost-null least, tt), λ h. refl)
accepts (Attr.known true) Attr.unknown least most =
    (λ h. inl (refl, AtMost-unknown least, tt), λ h. refl)
accepts (Attr.known true) (Attr.known s) least most = dynamic_iff s least most _ _

-- The memory validator reports nothing about a memory block exactly when its dynamic flag is true and
-- the bounds, where they and the startup size are known, bracket the startup size, or its dynamic flag
-- is not true and neither bound is known. A flag that is not known yet counts as one that is not true,
-- so a known bound beside it is reported.
pub validate_memory-MemoryAccepted_iff :
    (config : Model) (mem : MemoryModel)
    → config.memory ≡ some mem
    → (validate_dynamic_memory_bounds config ≡ []) ↔ MemoryAccepted mem
unfolding validate_dynamic_memory_bounds
validate_memory-MemoryAccepted_iff config mem h =
    rw h (accepts mem.dynamic mem.startup_bytes mem.min_bytes mem.max_bytes)
