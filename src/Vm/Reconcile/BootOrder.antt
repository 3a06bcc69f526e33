-- ===== src/Vm/Reconcile/BootOrder.antt =====
-- The boot order that goes to state.
use terraform_provider_hyper.Framework.{
  is_unknown, value_string, value_int64, Attr, known, null, unknown,
}
use terraform_provider_hyper.Common.{
  ◌≡◌, refl, ◌↔◌, String, Bool, true, false, Option, none, some, arith, ◌==◌, ◌||◌, eq_iff,
  if◌then◌else◌, inl, inr, not, ◌∙◌, ap, sym, ◌&&◌, ◌⊎◌,
}
use terraform_provider_hyper.Common.Int.{ℤ, eq_ℤ_iff, eq_ℤ}
use terraform_provider_hyper.Vm.Model.{BootOrderEntryModel}
use terraform_provider_hyper.Vm.Reconcile.{boot_order_entry_equals, controller_type_or_scsi}

-- The device that an entry names.
pub data BootDevice : Type 0 where
  slot : String → String → ℤ → ℤ → BootDevice
  adapter : String → BootDevice

module _ (t : String) where
  -- The device, given whether the type has a slot or is an adapter.
  abbrev pub device_of : Bool → Bool → String → ℤ → ℤ → String → Option BootDevice
  device_of slotted adapted c n l s =
      if slotted then some (slot t c n l) else if adapted then some (adapter s) else none

  abbrev same_device : Bool → Bool → String → String → ℤ → ℤ → ℤ → ℤ → String → String → Bool
  same_device slotted adapted c c' n n' l l' s s' =
      if slotted then c == c' && (eq_ℤ n n' && eq_ℤ l l') else if adapted then s == s' else false

  same_device-of :
      (slotted adapted : Bool) (c c' : String) (n n' l l' : ℤ) (s s' : String)
      → same_device slotted adapted c c' n n' l l' s s' ≡ true
      → (d : BootDevice) × (device_of slotted adapted c n l s ≡ some d)
        × (device_of slotted adapted c' n' l' s' ≡ some d)
  same_device-of true adapted c c' n n' l l' s s' h =
      let hc : c ≡ c' = ground (arith, eq_iff c c') in
      let hn : n ≡ n' = ground (arith, eq_ℤ_iff n n') in
      let hl : l ≡ l' = ground (arith, eq_ℤ_iff l l') in (slot t c n l, refl, cc)
  same_device-of false true c c' n n' l l' s s' h =
      let hs : s ≡ s' = ground (arith, eq_iff s s') in (adapter s, refl, cc)
  same_device-of false false c c' n n' l l' s s' h = ground arith

  of-same_device :
      (slotted adapted : Bool) (c c' : String) (n n' l l' : ℤ) (s s' : String) (d : BootDevice)
      → device_of slotted adapted c n l s ≡ some d
      → device_of slotted adapted c' n' l' s' ≡ some d
      → same_device slotted adapted c c' n n' l l' s s' ≡ true
  of-same_device true adapted c c' n n' l l' s s' d h k =
      ground (arith, eq_iff c c', eq_ℤ_iff n n', eq_ℤ_iff l l')
  of-same_device false true c c' n n' l l' s s' d h k = ground (arith, eq_iff s s')
  of-same_device false false c c' n n' l l' s s' d h k = ground arith

abbrev slotted : String → Bool
slotted t = t == "hard_disk_drive" || t == "dvd_drive"

-- The controller that an entry stands for: SCSI unless it names one.
abbrev pub controller : Attr String → String
controller (known t) = if t == "" then "SCSI" else t
controller null = "SCSI"
controller unknown = "SCSI"

controller_lem : (t : Attr String) → controller_type_or_scsi t ≡ controller t
unfolding controller_type_or_scsi
controller_lem null = refl
controller_lem unknown = refl
controller_lem (known t) = refl

-- An entry of unknown or of no supported type names no device. A number, a location or a name that is
-- null or unknown counts as 0 or as empty.
abbrev pub boot_device : BootOrderEntryModel → Option BootDevice
boot_device e =
    if is_unknown e.type
    then none
    else device_of (value_string e.type) (slotted (value_string e.type))
        (value_string e.type == "network_adapter") (controller e.controller_type)
        (value_int64 e.controller_number) (value_int64 e.controller_location) (value_string e.name)

abbrev coded_device : BootOrderEntryModel → Option BootDevice
coded_device e =
    if is_unknown e.type
    then none
    else device_of (value_string e.type) (slotted (value_string e.type))
        (value_string e.type == "network_adapter") (controller_type_or_scsi e.controller_type)
        (value_int64 e.controller_number) (value_int64 e.controller_location) (value_string e.name)

guarded_lem :
    (u v : Bool) (t t' : String) (core : Bool)
    → (if u || v then false else if not (t == t') then false else core) ≡ true
    → (u ≡ false) × (v ≡ false) × (t ≡ t') × (core ≡ true)
guarded_lem true v t t' core h = ground arith
guarded_lem false true t t' core h = ground arith
guarded_lem false false t t' core h = ground (arith, eq_iff t t')

abbrev same_as : BootOrderEntryModel → BootOrderEntryModel → Bool
same_as a b =
    same_device (value_string a.type) (slotted (value_string a.type))
      (value_string a.type == "network_adapter") (controller_type_or_scsi a.controller_type)
      (controller_type_or_scsi b.controller_type) (value_int64 a.controller_number)
      (value_int64 b.controller_number) (value_int64 a.controller_location)
      (value_int64 b.controller_location) (value_string a.name) (value_string b.name)

abbrev device_as : String → BootOrderEntryModel → Option BootDevice
device_as t e =
    device_of t (slotted t) (t == "network_adapter") (controller_type_or_scsi e.controller_type)
      (value_int64 e.controller_number) (value_int64 e.controller_location) (value_string e.name)

coded_device-known :
    (e : BootOrderEntryModel)
    → is_unknown e.type ≡ false
    → coded_device e ≡ device_as (value_string e.type) e
coded_device-known e h = rw h

guarded-of :
    (u v : Bool) (t t' : String) (core : Bool)
    → u ≡ false
    → v ≡ false
    → t ≡ t'
    → core ≡ true
    → (if u || v then false else if not (t == t') then false else core) ≡ true
guarded-of u v t t' core hu hv ht hc = ground (arith, eq_iff t t')

unless_lem :
    (u : Bool) (o : Option BootDevice) (d : BootDevice)
    → (if u then none else o) ≡ some d
    → (u ≡ false) × (o ≡ some d)
unless_lem true o d h = ground arith
unless_lem false o d h = (refl, h)

device-known :
    (e : BootOrderEntryModel) (d : BootDevice)
    → coded_device e ≡ some d
    → (is_unknown e.type ≡ false) × (device_as (value_string e.type) e ≡ some d)
device-known e d h = unless_lem (is_unknown e.type) (device_as (value_string e.type) e) d h

same_kind :
    (t t' : String) (sl sl' ad ad' : Bool) (c c' : String) (n n' l l' : ℤ) (s s' : String)
    (d : BootDevice)
    → device_of t sl ad c n l s ≡ some d
    → device_of t' sl' ad' c' n' l' s' ≡ some d
    → (t ≡ t') ⊎ ((ad ≡ true) × (ad' ≡ true))
same_kind t t' true true ad ad' c c' n n' l l' s s' d h k = inl (ground arith)
same_kind t t' true false ad true c c' n n' l l' s s' d h k = ground arith
same_kind t t' true false ad false c c' n n' l l' s s' d h k = ground arith
same_kind t t' false true true ad' c c' n n' l l' s s' d h k = ground arith
same_kind t t' false true false ad' c c' n n' l l' s s' d h k = ground arith
same_kind t t' false false true true c c' n n' l l' s s' d h k = inr (refl, refl)
same_kind t t' false false false ad' c c' n n' l l' s s' d h k = ground arith
same_kind t t' false false true false c c' n n' l l' s s' d h k = ground arith

device-type :
    (t t' : String) (a b : BootOrderEntryModel) (d : BootDevice)
    → device_as t a ≡ some d
    → device_as t' b ≡ some d
    → t ≡ t'
device-type t t' a b d h k =
    elim (same_kind t t' (slotted t) (slotted t') (t == "network_adapter") (t' == "network_adapter")
      (controller_type_or_scsi a.controller_type) (controller_type_or_scsi b.controller_type)
      (value_int64 a.controller_number) (value_int64 b.controller_number)
      (value_int64 a.controller_location) (value_int64 b.controller_location) (value_string a.name)
      (value_string b.name) d h k) [
        | inl e ↦ e
        | inr (p, q) ↦ (eq_iff t "network_adapter").0 p ∙ sym ((eq_iff t' "network_adapter").0 q)
      ]

entry_equals-coded :
    (a b : BootOrderEntryModel)
    → boot_order_entry_equals a b ≡ true
    → (d : BootDevice) × (coded_device a ≡ some d) × (coded_device b ≡ some d)
unfolding boot_order_entry_equals
entry_equals-coded a b h =
    let (u, v, t, s) =
      guarded_lem (is_unknown a.type) (is_unknown b.type) (value_string a.type)
        (value_string b.type) (same_as a b) h in
    let (d, p, q) =
      same_device-of (value_string a.type) (slotted (value_string a.type))
        (value_string a.type == "network_adapter") (controller_type_or_scsi a.controller_type)
        (controller_type_or_scsi b.controller_type) (value_int64 a.controller_number)
        (value_int64 b.controller_number) (value_int64 a.controller_location)
        (value_int64 b.controller_location) (value_string a.name) (value_string b.name) s in
    (
      d,
      coded_device-known a u ∙ p,
      (coded_device-known b v ∙ (ap (λ x. device_as x b) (sym t) ∙ q)),
    )

coded-entry_equals :
    (a b : BootOrderEntryModel) (d : BootDevice)
    → coded_device a ≡ some d
    → coded_device b ≡ some d
    → boot_order_entry_equals a b ≡ true
unfolding boot_order_entry_equals
coded-entry_equals a b d h k =
    let (u, h') = device-known a d h in
    let (v, k') = device-known b d k in
    let t = device-type (value_string a.type) (value_string b.type) a b d h' k' in
    guarded-of (is_unknown a.type) (is_unknown b.type) (value_string a.type) (value_string b.type)
      (same_as a b) u v t
      (of-same_device (value_string a.type) (slotted (value_string a.type))
        (value_string a.type == "network_adapter") (controller_type_or_scsi a.controller_type)
        (controller_type_or_scsi b.controller_type) (value_int64 a.controller_number)
        (value_int64 b.controller_number) (value_int64 a.controller_location)
        (value_int64 b.controller_location) (value_string a.name) (value_string b.name) d h'
        (ap (λ x. device_as x b) t ∙ k'))

coded_lem : (e : BootOrderEntryModel) → coded_device e ≡ boot_device e
coded_lem e = rw (controller_lem e.controller_type) refl

pub entry_equals-device :
    (a b : BootOrderEntryModel)
    → boot_order_entry_equals a b ≡ true
    → (d : BootDevice) × (boot_device a ≡ some d) × (boot_device b ≡ some d)
entry_equals-device a b h =
    let (d, p, q) = entry_equals-coded a b h in (d, sym (coded_lem a) ∙ p, (sym (coded_lem b) ∙ q))

pub device-entry_equals :
    (a b : BootOrderEntryModel) (d : BootDevice)
    → boot_device a ≡ some d
    → boot_device b ≡ some d
    → boot_order_entry_equals a b ≡ true
device-entry_equals a b d h k = coded-entry_equals a b d (coded_lem a ∙ h) (coded_lem b ∙ k)

-- Two entries match exactly when they name the same device: a slot of a kind of drive, with SCSI as the
-- controller where none is given, or an adapter by its name. An entry of unknown or of no supported type
-- names none; a slot number or a name that is null or unknown counts as 0 or as empty.
pub boot_order_entry_equals-device_iff :
    (a b : BootOrderEntryModel)
    → (boot_order_entry_equals a b ≡ true)
      ↔ ((d : BootDevice) × (boot_device a ≡ some d) × (boot_device b ≡ some d))
boot_order_entry_equals-device_iff a b =
    (entry_equals-device a b, λ (d, h, k). device-entry_equals a b d h k)
