-- ===== src/Vm/Reconcile/Kept.antt =====
-- The boot order that goes to state: the host's entries that the plan has.
use terraform_provider_hyper.Vm.Reconcile.BootOrder.{entry_equals-device, device-entry_equals}
use terraform_provider_hyper.Framework.{Slice, elements}
use terraform_provider_hyper.Common.{
  ◌≡◌, refl, sym, ap, ◌∙◌, true, false, none, some, List, [], ◌∷◌, arith, Bool-cases, inl, inr,
}
use terraform_provider_hyper.Vm.Model.{BootOrderEntryModel}
use terraform_provider_hyper.Vm.Reconcile.{
  boot_order_entry_equals, is_planned, keep_planned, reconcile_boot_order_state,
  should_apply_boot_order,
}

plan_hit :
    (e p : BootOrderEntryModel) (ps : List BootOrderEntryModel)
    → boot_order_entry_equals e p ≡ true
    → is_planned e (p ∷ ps) ≡ true
unfolding is_planned
plan_hit e p ps q = ground arith

plan_miss :
    (e p : BootOrderEntryModel) (ps : List BootOrderEntryModel)
    → boot_order_entry_equals e p ≡ false
    → is_planned e (p ∷ ps) ≡ is_planned e ps
unfolding is_planned
plan_miss e p ps q = ground arith

keep_hit :
    (ps : List BootOrderEntryModel) (x : BootOrderEntryModel) (hs : List BootOrderEntryModel)
    → is_planned x ps ≡ true
    → keep_planned ps (x ∷ hs) ≡ x ∷ keep_planned ps hs
unfolding keep_planned
keep_hit ps x hs q = ground arith

keep_miss :
    (ps : List BootOrderEntryModel) (x : BootOrderEntryModel) (hs : List BootOrderEntryModel)
    → is_planned x ps ≡ false
    → keep_planned ps (x ∷ hs) ≡ keep_planned ps hs
unfolding keep_planned
keep_miss ps x hs q = ground arith

entry_equals_trans :
    (a b c : BootOrderEntryModel)
    → boot_order_entry_equals a b ≡ true
    → boot_order_entry_equals b c ≡ true
    → boot_order_entry_equals a c ≡ true
entry_equals_trans a b c h k =
    let (d, ha, hb) = entry_equals-device a b h in
    let (d', hb', hc) = entry_equals-device b c k in
    device-entry_equals a c d ha (hc ∙ (sym hb' ∙ hb))

is_planned-matches :
    (a b : BootOrderEntryModel) (ps : List BootOrderEntryModel)
    → boot_order_entry_equals a b ≡ true
    → is_planned b ps ≡ true
    → is_planned a ps ≡ true
is_planned-matches a b [] q h = (unfold is_planned in ground arith)
is_planned-matches a b (p ∷ ps) q h = elim (Bool-cases (boot_order_entry_equals b p)) [
  | inl r ↦ plan_hit a p ps (entry_equals_trans a b p q r)
  | inr r ↦ elim (Bool-cases (boot_order_entry_equals a p)) [
    | inl r' ↦ plan_hit a p ps r'
    | inr r' ↦ plan_miss a p ps r' ∙ is_planned-matches a b ps q (sym (plan_miss b p ps r) ∙ h)
  ]
]

is_planned_self :
    (e : BootOrderEntryModel) (ps : List BootOrderEntryModel)
    → is_planned e ps ≡ true
    → boot_order_entry_equals e e ≡ true
is_planned_self e [] h = (unfold is_planned in ground arith)
is_planned_self e (p ∷ ps) h = elim (Bool-cases (boot_order_entry_equals e p)) [
  | inl q ↦ let (d, hd, k) = entry_equals-device e p q in device-entry_equals e e d hd hd
  | inr q ↦ is_planned_self e ps (sym (plan_miss e p ps q) ∙ h)
]

kept-is_planned :
    (e : BootOrderEntryModel) (ps hs : List BootOrderEntryModel)
    → is_planned e (keep_planned ps hs) ≡ true
    → is_planned e ps ≡ true
kept-is_planned e ps [] h = (unfold is_planned keep_planned in ground arith)
kept-is_planned e ps (x ∷ hs) h = elim (Bool-cases (is_planned x ps)) [
  | inl q ↦ elim (Bool-cases (boot_order_entry_equals e x)) [
    | inl r ↦ is_planned-matches e x ps r q
    | inr r ↦ kept-is_planned e ps hs (
        sym (plan_miss e x (keep_planned ps hs) r)
        ∙ (ap (is_planned e) (sym (keep_hit ps x hs q)) ∙ h))
  ]
  | inr q ↦ kept-is_planned e ps hs (ap (is_planned e) (sym (keep_miss ps x hs q)) ∙ h)
]

kept_later :
    (e x : BootOrderEntryModel) (ps hs : List BootOrderEntryModel)
    → is_planned e (keep_planned ps hs) ≡ true
    → is_planned e (keep_planned ps (x ∷ hs)) ≡ true
kept_later e x ps hs h = elim (Bool-cases (is_planned x ps)) [
  | inl q ↦
      ap (is_planned e) (keep_hit ps x hs q) ∙ elim (Bool-cases (boot_order_entry_equals e x)) [
        | inl r ↦ plan_hit e x (keep_planned ps hs) r
        | inr r ↦ plan_miss e x (keep_planned ps hs) r ∙ h
      ]
  | inr q ↦ ap (is_planned e) (keep_miss ps x hs q) ∙ h
]

kept_now :
    (x : BootOrderEntryModel) (ps hs : List BootOrderEntryModel)
    → is_planned x ps ≡ true
    → is_planned x (keep_planned ps (x ∷ hs)) ≡ true
kept_now x ps hs q =
    ap (is_planned x) (keep_hit ps x hs q)
    ∙ plan_hit x x (keep_planned ps hs) (is_planned_self x ps q)

keep_again :
    (ps all hs : List BootOrderEntryModel)
    → ((e : BootOrderEntryModel)
        → is_planned e (keep_planned ps hs) ≡ true
        → is_planned e (keep_planned ps all) ≡ true)
    → keep_planned (keep_planned ps all) hs ≡ keep_planned ps hs
keep_again ps all [] sub = (unfold keep_planned in refl)
keep_again ps all (x ∷ hs) sub =
    let rest = keep_again ps all hs (λ e h. sub e (kept_later e x ps hs h)) in
    elim (Bool-cases (is_planned x ps)) [
      | inl q ↦
          keep_hit (keep_planned ps all) x hs (sub x (kept_now x ps hs q))
          ∙ (ap (λ r. x ∷ r) rest ∙ sym (keep_hit ps x hs q))
      | inr q ↦ elim (Bool-cases (is_planned x (keep_planned ps all))) [
        | inl r ↦ let k = kept-is_planned x ps all r in absurd (ground arith)
        | inr r ↦ keep_miss (keep_planned ps all) x hs r ∙ (rest ∙ sym (keep_miss ps x hs q))
      ]
    ]

pub keep_planned_idem :
    (ps hs : List BootOrderEntryModel) → keep_planned (keep_planned ps hs) hs ≡ keep_planned ps hs
keep_planned_idem ps hs = keep_again ps hs hs (λ e h. h)

same-kept :
    (host : Slice BootOrderEntryModel) (kept : List BootOrderEntryModel)
    → keep_planned kept (elements host) ≡ kept
    → reconcile_boot_order_state (some kept) host ≡ some kept
unfolding reconcile_boot_order_state should_apply_boot_order
same-kept host [] h = refl
same-kept host (e ∷ es) h = ap some h

-- Reconciling a boot order with the same host once more changes nothing.
pub reconcile_boot_order_state_idem :
    (plan host : Slice BootOrderEntryModel)
    → reconcile_boot_order_state (reconcile_boot_order_state plan host) host
      ≡ reconcile_boot_order_state plan host
unfolding reconcile_boot_order_state should_apply_boot_order
reconcile_boot_order_state_idem none host = refl
reconcile_boot_order_state_idem (some []) host = refl
reconcile_boot_order_state_idem (some (p ∷ ps)) host =
    same-kept host (keep_planned (p ∷ ps) (elements host))
      (keep_planned_idem (p ∷ ps) (elements host))
