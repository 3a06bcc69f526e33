-- ===== src/Hyperv/Mappings/Proxy.antt =====
-- internal/hyperv/port_proxy.go: netsh's port proxy rules. The decoder is a parameter.
use terraform_provider_hyper.Common.{ℕ, String, Bool, Option, none, List, [], ◌∷◌}
use terraform_provider_hyper.Common.Int.{ℤ}
use terraform_provider_hyper.Hyperv.Script.{Backend, Value, Payload, run_script, run_read_script}
use terraform_provider_hyper.Hyperv.Client.{Call}
use terraform_provider_hyper.Hyperv.Session.{Op, Hold, lift, holding_proxy}
use terraform_provider_hyper.Hyperv.Mappings.{
  FirewallInput, firewall_value, load_with_helpers, remove_unless_gone,
}

pub record PortProxy : Type 0 where
  pub id : String
  pub listen_address : String
  pub listen_port : ℤ
  pub connect_address : String
  pub connect_port : ℤ
  pub firewall_rule_present : Bool
  pub firewall_rule_name : String
  pub firewall_rule_profile : String
  pub listening : Bool

pub record NewPortProxyInput : Type 0 where
  pub listen_address : String
  pub listen_port : ℤ
  pub connect_address : String
  pub connect_port : ℤ
  pub firewall : FirewallInput

pub record SetPortProxyInput : Type 0 where
  pub listen_address : String
  pub listen_port : ℤ
  pub connect_address : String
  pub connect_port : ℤ
  pub firewall : FirewallInput

pub record GetPortProxyInput : Type 0 where
  pub listen_address : String
  pub listen_port : ℤ
  pub firewall_name : String

pub record RemovePortProxyInput : Type 0 where
  pub listen_address : String
  pub listen_port : ℤ
  pub firewall_name : String

abbrev pub new_payload : NewPortProxyInput → Payload
new_payload in' =
    ("listen_address", Value.text in'.listen_address)
    ∷ ("listen_port", Value.number in'.listen_port)
    ∷ ("connect_address", Value.text in'.connect_address)
    ∷ ("connect_port", Value.number in'.connect_port)
    ∷ ("firewall", firewall_value in'.firewall)
    ∷ []

abbrev pub set_payload : SetPortProxyInput → Payload
set_payload in' =
    ("listen_address", Value.text in'.listen_address)
    ∷ ("listen_port", Value.number in'.listen_port)
    ∷ ("connect_address", Value.text in'.connect_address)
    ∷ ("connect_port", Value.number in'.connect_port)
    ∷ ("firewall", firewall_value in'.firewall)
    ∷ []

abbrev pub get_payload : GetPortProxyInput → Payload
get_payload in' =
    ("listen_address", Value.text in'.listen_address)
    ∷ ("listen_port", Value.number in'.listen_port)
    ∷ ("firewall_name", Value.text in'.firewall_name)
    ∷ []

abbrev pub remove_payload : RemovePortProxyInput → Payload
remove_payload in' =
    ("listen_address", Value.text in'.listen_address)
    ∷ ("listen_port", Value.number in'.listen_port)
    ∷ ("firewall_name", Value.text in'.firewall_name)
    ∷ []

module _ {ℓ} {H : Type ℓ} (b : Backend H) (decode : List ℕ → Option PortProxy) where
  abbrev pub run_get : GetPortProxyInput → Call H PortProxy
  run_get in' =
      load_with_helpers b "port_proxy" "_rule" "get"
        (λ body. run_read_script b decode body (get_payload in'))

  unfoldable pub get_port_proxy : GetPortProxyInput → Op H PortProxy
  unfolding holding_proxy
  get_port_proxy in' = holding_proxy Hold.reading (lift (run_get in'))

  abbrev pub run_new : NewPortProxyInput → Call H PortProxy
  run_new in' =
      load_with_helpers b "port_proxy" "_rule" "new"
        (λ body. run_script b none decode body (new_payload in'))

  unfoldable pub new_port_proxy : NewPortProxyInput → Op H PortProxy
  unfolding holding_proxy
  new_port_proxy in' = holding_proxy Hold.writing (lift (run_new in'))

  abbrev pub run_set : SetPortProxyInput → Call H PortProxy
  run_set in' =
      load_with_helpers b "port_proxy" "_rule" "set"
        (λ body. run_script b none decode body (set_payload in'))

  unfoldable pub set_port_proxy : SetPortProxyInput → Op H PortProxy
  unfolding holding_proxy
  set_port_proxy in' = holding_proxy Hold.writing (lift (run_set in'))

  abbrev pub run_remove : RemovePortProxyInput → Call H Unit
  run_remove in' = remove_unless_gone b "port_proxy" "_rule" (remove_payload in')

  unfoldable pub remove_port_proxy : RemovePortProxyInput → Op H Unit
  unfolding holding_proxy
  remove_port_proxy in' = holding_proxy Hold.writing (lift (run_remove in'))
