-- ===== src/Disk/Crud/Locks.antt =====
-- The operations behind the handlers of hyperv_vhd end, with the client's locks as they were.
use terraform_provider_hyper.Disk.Crud.Replies.{IsWritten, create_reply-IsWritten}
use terraform_provider_hyper.Common.{
  String, false, Option, some, ◌≡◌, inl, inr, refl, ap, ◌∙◌, Bool-cases, ◌==◌,
}
use terraform_provider_hyper.Framework.{value_string, value_int64, is_known}
use terraform_provider_hyper.Framework.Handlers.{Reply}
use terraform_provider_hyper.Hyperv.Client.{Result, ok, failed, Call}
use terraform_provider_hyper.Hyperv.Errors.{ClientError, is_session_dropped}
use terraform_provider_hyper.Hyperv.Clock.{Clock}
use terraform_provider_hyper.Hyperv.Script.{Payload}
use terraform_provider_hyper.Hyperv.Session.{
  Session, Op, lift, return, ◌>>=◌, holding_path, is_held,
}
use terraform_provider_hyper.Hyperv.Verify.{verify_attempts}
use terraform_provider_hyper.Hyperv.Verify.Laws.{verify_total}
use terraform_provider_hyper.Hyperv.Disks.{
  Vhd, ExpectedVhd, get_vhd, resize_vhd, remove_vhd, new_vhd, new_vhd_fixed, new_vhd_dynamic,
  new_vhd_differencing, unless_dropped, recover_vhd_new_on_drop, judge_vhd,
}
use terraform_provider_hyper.Hyperv.Images.{ImageFile, CopyHostFileInput, copy_host_file, run_copy}
use terraform_provider_hyper.Disk.Model.{Model, Lower}
use terraform_provider_hyper.Disk.Crud.{
  Tools, answering, create_reply, with_sha, resized, refreshed, copy_and_resize, create_kind,
}

module _ {ℓ} {H : Type ℓ} where
  -- The locks are as they were.
  abbrev pub Kept : Session H → Session H → Type 0
  Kept s t = (t.nat ≡ s.nat) × (t.proxy ≡ s.proxy) × (t.paths ≡ s.paths)

  -- The operation and the handler end in one session, with the locks as they were, and the reply goes by
  -- the operation's answer.
  abbrev pub EndsBy :
      {A : Type 0}
      → Op H A
      → (Result A → Reply Model → Type 0)
      → Session H
      → Option (Session H × Reply Model)
      → Type ℓ
  EndsBy {A} op P s out =
      (t : Session H) × (r : Result A) × (y : Reply Model) × (op s ≡ some (t, r))
      × (out ≡ some (t, y))
      × Kept s t
      × P r y

  -- The handler ends, with the locks as they were and a reply as P says.
  abbrev pub EndsIn : (Reply Model → Type 0) → Session H → Option (Session H × Reply Model) → Type ℓ
  EndsIn P s out = (t : Session H) × (y : Reply Model) × (out ≡ some (t, y)) × Kept s t × P y

  pub answering-some :
      {A : Type 0} (op : Op H A) (f : Result A → Reply Model) (s t : Session H) (r : Result A)
      → op s ≡ some (t, r)
      → answering op f s ≡ some (t, f r)
  answering-some op f s t r q = rw (q, answering) refl

  module _ (s0 : Session H) where
    abbrev Safe : {A : Type 0} → Op H A → Type ℓ
    Safe {A} op =
        (s : Session H)
        → Kept s0 s
        → (t : Session H) × (r : Result A) × (op s ≡ some (t, r)) × Kept s0 t

    pub Safe-return : {A : Type 0} (r : Result A) → Safe (return r)
    Safe-return r s f = (s, r, refl, f)

    pub Safe-lift : {A : Type 0} (c : Call H A) → Safe (lift c)
    Safe-lift c s f = let a = c s.host in (record s { host = a.0 }, a.1, refl, f)

    pub Safe-holding :
        {A : Type 0} (p : String) (c : Call H A)
        → is_held p s0.paths ≡ false
        → Safe (holding_path p (lift c))
    unfolding holding_path
    Safe-holding p c h s (n, x, q) =
        let a = c s.host in
        (record s { host = a.0 }, a.1, rw (ap (is_held p) q ∙ h) refl, (n, x, q))

    pub Safe-bind :
        {A B : Type 0} (m : Op H A) (f : Result A → Op H B)
        → Safe m
        → ((r : Result A) → Safe (f r))
        → Safe (m >>= f)
    Safe-bind m f sm sf s h =
        let (t, r, e, ft) = sm s h in
        let (u, r', e', fu) = sf r t ft in (u, r', rw (e, ◌>>=◌) e', fu)

    pub Ends-answering :
        {A : Type 0} (P : Reply Model → Type 0) (op : Op H A) (f : Result A → Reply Model)
        → Safe op
        → ((r : Result A) → P (f r))
        → EndsIn P s0 (answering op f s0)
    Ends-answering P op f safe p =
        let (t, r, q, k) = safe s0 (refl, refl, refl) in
        (t, f r, answering-some op f s0 t r q, k, p r)

    pub EndsBy-answering :
        {A : Type 0} (P : Result A → Reply Model → Type 0) (op : Op H A)
        (f : Result A → Reply Model)
        → Safe op
        → ((r : Result A) → P r (f r))
        → EndsBy op P s0 (answering op f s0)
    EndsBy-answering P op f safe p =
        let (t, r, q, k) = safe s0 (refl, refl, refl) in
        (t, r, f r, q, answering-some op f s0 t r q, k, p r)

    module _ (k : Tools H) where
      pub Safe-remove :
          (p : String) → is_held p s0.paths ≡ false → Safe (remove_vhd k.backend k.disks p)
      unfolding remove_vhd
      Safe-remove p h = Safe-holding p _ h

      pub Safe-copy :
          (i : CopyHostFileInput)
          → is_held i.destination_path s0.paths ≡ false
          → Safe (copy_host_file k.backend k.files i)
      unfolding copy_host_file
      Safe-copy i h = Safe-holding i.destination_path (run_copy k.backend k.files i) h

      pub Safe-resized :
          (p sha : String) (r : Result Vhd) → is_held p s0.paths ≡ false → Safe (resized k p sha r)
      Safe-resized p sha (ok v) h = Safe-return (ok (v, sha))
      Safe-resized p sha (failed e) h =
          Safe-bind (remove_vhd k.backend k.disks p) _ (Safe-remove p h)
            (λ r. Safe-return (failed e))

      pub Safe-refreshed :
          (m : Model) (r : Result ImageFile)
          → is_held (value_string m.path) s0.paths ≡ false
          → Safe (refreshed k m r)
      Safe-refreshed m (failed e) h s ks = Safe-return (failed e) s ks
      Safe-refreshed m (ok f) h s ks = elim (Bool-cases (is_known m.size_bytes)) [
        | inl q ↦ rw q (
            Safe-bind
              (lift (resize_vhd k.backend k.disks (value_string m.path) (value_int64 m.size_bytes)))
              _
              (Safe-lift
                (resize_vhd k.backend k.disks (value_string m.path) (value_int64 m.size_bytes)))
              (λ r. Safe-resized (value_string m.path) f.sha256 r h) s ks)
        | inr q ↦ rw q (
            Safe-bind (lift (get_vhd k.backend k.disks (value_string m.path))) _
              (Safe-lift (get_vhd k.backend k.disks (value_string m.path)))
              (λ r. Safe-return (with_sha f.sha256 r)) s ks)
      ]

      pub Safe-copy_and_resize :
          (m : Model) → is_held (value_string m.path) s0.paths ≡ false → Safe (copy_and_resize k m)
      unfolding copy_and_resize
      Safe-copy_and_resize m h =
          Safe-bind (copy_host_file k.backend k.files _) _ (Safe-copy _ h)
            (λ r. Safe-refreshed m r h)

      module _ ⦃c : Clock H⦄ where
        pub Safe-recover :
            (x : ExpectedVhd) (e : ClientError)
            → Safe (recover_vhd_new_on_drop k.backend k.disks x e)
        unfolding recover_vhd_new_on_drop
        Safe-recover x e s f =
            verify_total (lift (get_vhd k.backend k.disks x.path)) (judge_vhd x) e (Kept s0)
              (Safe-lift (get_vhd k.backend k.disks x.path)) (λ s' f'. f') verify_attempts s f

        pub Safe-unless_dropped :
            (x : ExpectedVhd) (r : Result Vhd) → Safe (unless_dropped k.backend k.disks x r)
        Safe-unless_dropped x (ok v) s f = (s, ok v, refl, f)
        Safe-unless_dropped x (failed e) s f = elim (Bool-cases (is_session_dropped e)) [
          | inl q ↦ rw q (Safe-recover x e s f)
          | inr q ↦ rw q (s, failed e, refl, f)
        ]

        pub Safe-new : (p : Payload) (x : ExpectedVhd) → Safe (new_vhd k.backend k.disks p x)
        Safe-new p x s f = Safe-unless_dropped x _ _ f

        pub Ends-create_kind : ⦃l : Lower⦄ (m : Model) → EndsIn IsWritten s0 (create_kind k m s0)
        unfolding create_kind new_vhd_fixed new_vhd_dynamic new_vhd_differencing
        Ends-create_kind m = elim (Bool-cases (value_string m.vhd_type == "fixed")) [
          | inl q ↦ rw q (
              Ends-answering IsWritten _ (create_reply m) (Safe-new _ _) (create_reply-IsWritten m))
          | inr q ↦ elim (Bool-cases (value_string m.vhd_type == "dynamic")) [
            | inl p ↦
                rw (q, p)
                  (Ends-answering IsWritten _ (create_reply m) (Safe-new _ _)
                    (create_reply-IsWritten m))
            | inr p ↦ elim (Bool-cases (value_string m.vhd_type == "differencing")) [
              | inl o ↦
                  rw (q, p, o)
                    (Ends-answering IsWritten _ (create_reply m) (Safe-new _ _)
                      (create_reply-IsWritten m))
              | inr o ↦ rw (q, p, o) (s0, _, refl, (refl, refl, refl), inr (_, refl, refl))
            ]
          ]
        ]
