-- ===== src/Vswitch/Crud/Ends.antt =====
-- How the handlers of hyperv_virtual_switch end.
use terraform_provider_hyper.Vswitch.Crud.Replies.{
  IsRefused, WritesBy, ReadsBy, DeletesBy, IsShared, write_reply-WritesBy, read_reply-ReadsBy,
  delete_reply-DeletesBy, refusal_iff,
}
use terraform_provider_hyper.Common.{
  String, true, false, Option, none, some, ◌≡◌, ◌↔◌, ◌⊎◌, inl, inr, refl, sym, ◌∙◌, Bool-cases,
  Option-cases,
}
use terraform_provider_hyper.Framework.{value_string}
use terraform_provider_hyper.Framework.Handlers.{Reply, silent}
use terraform_provider_hyper.Hyperv.Client.{Result, ok, failed}
use terraform_provider_hyper.Hyperv.Errors.{ClientError, is_not_found}
use terraform_provider_hyper.Hyperv.Clock.{Clock}
use terraform_provider_hyper.Hyperv.Script.{Backend}
use terraform_provider_hyper.Hyperv.Session.{Session, Op, Hold}
use terraform_provider_hyper.Hyperv.Switches.{
  SwitchDecoder, new_vm_switch, get_vm_switch, set_vm_switch, remove_vm_switch,
}
use terraform_provider_hyper.Hyperv.Switches.Destroy.{Goes, remove_vm_switch-Goes_iff}
use terraform_provider_hyper.Hyperv.Switches.Locks.{Freed, Frees, switch_operations-Frees}
use terraform_provider_hyper.Vswitch.Model.{Model, build_new_input, build_set_input}
use terraform_provider_hyper.Vswitch.Crud.{
  Resource, create, read, update, delete, refusal, answering, delete_reply,
}

module _ {ℓ} {H : Type ℓ} {A : Type 0} (op : Op H A) (f : Result A → Reply Model)
    (s : Session H) where
  answering-none : op s ≡ none → answering op f s ≡ none
  answering-none q = rw (q, answering) refl

  answering-some :
      (t : Session H) (r : Result A) → op s ≡ some (t, r) → answering op f s ≡ some (t, f r)
  answering-some t r q = rw (q, answering) refl

  answering_iff :
      (t : Session H) (y : Reply Model)
      → (answering op f s ≡ some (t, y)) ↔ ((r : Result A) × (op s ≡ some (t, r)) × (f r ≡ y))
  answering_iff t y = elim (Option-cases (op s)) [
    | inl q ↦ ((λ h. let k = answering-none q in absurd (cc)), (λ (r, g, e). absurd (cc)))
    | inr ((u, a), q) ↦ (
      (λ h. let k = sym (answering-some u a q) ∙ h in (a, cc, cc)),
      (λ (r, g, e). answering-some t r g ∙ rw e refl),
    )
  ]

module _ {ℓ} {H : Type ℓ} ⦃c : Clock H⦄ (b : Backend H) (d : SwitchDecoder) where
  abbrev pub resource : Resource H
  resource = record { client = some (b, d) }

  -- The operation and the handler end in one session, with the locks of the client as `Freed` says, and
  -- the reply goes by the operation's answer.
  abbrev pub EndsBy :
      {A : Type 0}
      → Op H A
      → (Result A → Reply Model → Type 0)
      → Session H
      → Option (Session H × Reply Model)
      → Type ℓ
  EndsBy {A} op P s out =
      (t : Session H) × (r : Result A) × (y : Reply Model) × (op s ≡ some (t, r))
      × (out ≡ some (t, y))
      × Freed s t
      × P r y

  EndsBy-answering :
      {A : Type 0} (op : Op H A) (P : Result A → Reply Model → Type 0) (f : Result A → Reply Model)
      (s : Session H)
      → Frees s (op s)
      → ((r : Result A) → P r (f r))
      → EndsBy op P s (answering op f s)
  EndsBy-answering op P f s (t, r, q, fr) p = (t, r, f r, q, answering-some op f s t r q, fr, p r)

  -- What a Delete does: nothing but an error for a switch that is shared and not forced, and a removal for
  -- any other.
  abbrev pub DeleteEnds : Session H → Model → Type ℓ
  DeleteEnds s state =
      (IsShared state → (y : Reply Model) × (delete resource state s ≡ some (s, y)) × IsRefused y)
      × (¬ IsShared state
          → EndsBy (remove_vm_switch b d (value_string state.name) (value_string state.nat_name))
              DeletesBy s (delete resource state s))

  delete-DeleteEnds : (s : Session H) (state : Model) → s.nat ≡ Hold.free → DeleteEnds s state
  unfolding delete
  delete-DeleteEnds s state f =
      let (get, new, set, remove) = switch_operations-Frees b d s f in
      let name = value_string state.name in
      let nat_name = value_string state.nat_name in
      (
        (λ h. rw ((refusal_iff state).1 h) (_, refl, (_, refl, refl))),
        (λ n. elim (Bool-cases (refusal state)) [
          | inl q ↦ absurd (n ((refusal_iff state).0 q))
          | inr q ↦ rw q (
              EndsBy-answering (remove_vm_switch b d name nat_name) DeletesBy delete_reply s
                (remove name nat_name) delete_reply-DeletesBy)
        ]),
      )

  -- With a configured client, and the lock of the NAT state free, every handler of the switch comes to an
  -- end with that lock free. Create, Read and Update make their one operation of the client and go by its
  -- answer: a switch that it answers is recorded, in Read one that does not exist is dropped, and any
  -- other failure is one error that leaves the state. Delete is refused with one error, and nothing is
  -- done, if the recorded switch is External and shared with the host's own system and its migration is
  -- not forced; otherwise it removes the switch, and ends without a diagnostic if that succeeds or the
  -- switch does not exist, and with one error if it fails.
  pub handlers_end :
      (s : Session H) (plan state : Model)
      → s.nat ≡ Hold.free
      → EndsBy (new_vm_switch b d (build_new_input plan)) (WritesBy plan) s (create resource plan s)
        × EndsBy
            (get_vm_switch b d (value_string state.name) (value_string state.nat_name))
            (ReadsBy state)
            s
            (read resource state s)
        × EndsBy
            (set_vm_switch b d (build_set_input plan state))
            (WritesBy plan)
            s
            (update resource plan state s)
        × DeleteEnds s state
  unfolding create read update
  handlers_end s plan state f =
      let name = value_string state.name in
      let nat_name = value_string state.nat_name in
      let (get, new, set, remove) = switch_operations-Frees b d s f in
      (
        EndsBy-answering (new_vm_switch b d (build_new_input plan)) (WritesBy plan) _ s
            (new (build_new_input plan))
            (write_reply-WritesBy "Create hyperv_virtual_switch failed" plan),
        EndsBy-answering (get_vm_switch b d name nat_name) (ReadsBy state) _ s (get name nat_name)
            (read_reply-ReadsBy state),
        EndsBy-answering (set_vm_switch b d (build_set_input plan state)) (WritesBy plan) _ s
            (set (build_set_input plan state))
            (write_reply-WritesBy "Update hyperv_virtual_switch failed" plan),
        delete-DeleteEnds s state f,
      )

  -- The removal fails because something, on the host, does not exist.
  abbrev pub Missing : String → String → Session H → Session H → Type ℓ
  Missing name nat_name s t =
      (e : ClientError) × (remove_vm_switch b d name nat_name s ≡ some (t, failed e))
      × (is_not_found e ≡ true)

  missing :
      (e : ClientError) (r : Result Unit)
      → is_not_found e ≡ false
      → r ≡ failed e
      → ¬ ((r ≡ ok tt) ⊎ ((x : ClientError) × (r ≡ failed x) × (is_not_found x ≡ true)))
  missing e r q w (inl k) = cc
  missing e r q w (inr (x, k, n)) = cc

  delete_reply-silent :
      (r : Result Unit)
      → (delete_reply r ≡ silent)
        ↔ ((r ≡ ok tt) ⊎ ((e : ClientError) × (r ≡ failed e) × (is_not_found e ≡ true)))
  delete_reply-silent (ok u) = ((λ h. inl refl), (λ h. refl))
  delete_reply-silent (failed e) = elim (Bool-cases (is_not_found e)) [
    | inl q ↦ ((λ h. inr (e, refl, q)), (λ h. rw q refl))
    | inr q ↦
        ((λ h. let k = rw q at h in absurd (cc)), (λ h. absurd (missing e (failed e) q refl h)))
  ]

  -- With a configured client, Delete ends without a diagnostic exactly if the recorded switch is not
  -- one that is External, shared with the host's own system and not forced to migrate, and the switch
  -- goes (it does not exist at the first read, or its removal succeeds) or the removal fails because
  -- something does not exist.
  pub delete-silent_iff :
      (state : Model) (s t : Session H)
      → let name = value_string state.name in
        let nat_name = value_string state.nat_name in
        (delete resource state s ≡ some (t, silent))
        ↔ ((¬ IsShared state) × (Goes b d name nat_name s t ⊎ Missing name nat_name s t))
  unfolding delete
  delete-silent_iff state s t =
      let name = value_string state.name in
      let nat_name = value_string state.nat_name in
      let removes = answering_iff (remove_vm_switch b d name nat_name) delete_reply s t silent in
      let kept : refusal state ≡ false → ¬ IsShared state =
        λ q h. let k = (refusal_iff state).1 h in cc in
      let goes = remove_vm_switch-Goes_iff b d name nat_name s t in
      elim (Bool-cases (refusal state)) [
        | inl q ↦ (
          (λ h. let k = rw q at h in absurd (cc)),
          (λ (n, g). absurd (n ((refusal_iff state).0 q))),
        )
        | inr q ↦ (
          (λ h.
              let (r, g, y) = removes.0 (rw q at h) in
              elim ((delete_reply-silent r).0 y) [
                | inl o ↦ (kept q, inl (goes.0 (cc)))
                | inr (e, x, n) ↦ (kept q, inr (e, cc, n))
              ]),
          (λ (n, g). elim g [
            | inl w ↦ rw q (removes.1 (ok tt, goes.1 w, refl))
            | inr (e, w, m) ↦
                rw q
                  (removes.1 (failed e, w, (delete_reply-silent (failed e)).1 (inr (e, refl, m))))
          ]),
        )
      ]
