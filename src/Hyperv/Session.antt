-- ===== src/Hyperv/Session.antt =====
-- internal/hyperv/client.go and vswitch.go: the client's locks as one goroutine sees them. The mutexes
-- are not reentrant: an operation that takes a lock it holds itself waits for ever, which is `none`.
-- A lock that another goroutine holds only delays, and is not modelled.
use terraform_provider_hyper.Common.{
  String, List, [], ◌∷◌, Bool, false, ◌||◌, Option, none, some, ◌==◌, if◌then◌else◌,
}
use terraform_provider_hyper.Hyperv.Client.{Result, Call}

pub data Hold : Type 0 where
  free reading writing : Hold

pub record Session {ℓ} (H : Type ℓ) : Type ℓ where
  pub host : H
  -- netNatMu and portProxyMu.
  pub nat : Hold
  pub proxy : Hold
  -- The held locks of imageFileLocks, by destination path.
  pub paths : List String

abbrev pub Op {ℓ} : Type ℓ → Type 0 → Type ℓ
Op H A = Session H → Option (Session H × Result A)

abbrev pub is_held : String → List String → Bool
is_held p [] = false
is_held p (q ∷ qs) = (p == q) || is_held p qs

module _ {ℓ} {H : Type ℓ} where
  abbrev pub lift : {A : Type 0} → Call H A → Op H A
  lift c s = let (h, r) = c s.host in some (record s { host = h }, r)

  infixl 5 ◌>>=◌
  -- The next operation on the answer, or the failure.
  abbrev pub ◌>>=◌ : {A B : Type 0} → Op H A → (Result A → Op H B) → Op H B
  (m >>= f) s = elim (m s) [ none ↦ none | some (s', r) ↦ f r s' ]

  abbrev pub return : {A : Type 0} → Result A → Op H A
  return r s = some (s, r)

  abbrev pub nat_freed :
      {A : Type 0} → Option (Session H × Result A) → Option (Session H × Result A)
  nat_freed none = none
  nat_freed (some (s, r)) = some (record s { nat = Hold.free }, r)

  -- Lock, or RLock, and the deferred unlock.
  unfoldable pub holding_nat : {A : Type 0} → Hold → Op H A → Op H A
  holding_nat hold op s = elim s.nat [
    | Hold.free ↦ nat_freed (op (record s { nat = hold }))
    | Hold.reading ↦ none
    | Hold.writing ↦ none
  ]

  abbrev pub proxy_freed :
      {A : Type 0} → Option (Session H × Result A) → Option (Session H × Result A)
  proxy_freed none = none
  proxy_freed (some (s, r)) = some (record s { proxy = Hold.free }, r)

  unfoldable pub holding_proxy : {A : Type 0} → Hold → Op H A → Op H A
  holding_proxy hold op s = elim s.proxy [
    | Hold.free ↦ proxy_freed (op (record s { proxy = hold }))
    | Hold.reading ↦ none
    | Hold.writing ↦ none
  ]

  -- Only a switch with a NAT takes the lock.
  unfoldable pub holding_nat_if : {A : Type 0} → Hold → String → Op H A → Op H A
  unfolding holding_nat
  holding_nat_if hold nat_name op = if nat_name == "" then op else holding_nat hold op

  -- withNatLock.
  unfoldable pub with_nat_lock : {A : Type 0} → String → Op H A → Op H A
  unfolding holding_nat_if
  with_nat_lock = holding_nat_if Hold.writing

  abbrev pub path_freed :
      {A : Type 0} → List String → Option (Session H × Result A) → Option (Session H × Result A)
  path_freed held none = none
  path_freed held (some (s, r)) = some (record s { paths = held }, r)

  -- lockDestinationPath and the deferred unlock.
  unfoldable pub holding_path : {A : Type 0} → String → Op H A → Op H A
  holding_path path op s =
      if is_held path s.paths
      then none
      else path_freed s.paths (op (record s { paths = path ∷ s.paths }))
