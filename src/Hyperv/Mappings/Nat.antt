-- ===== src/Hyperv/Mappings/Nat.antt =====
-- internal/hyperv/nat_static_mapping.go: the static mappings of a NAT. The decoder is a parameter.
use terraform_provider_hyper.Common.{ℕ, String, Bool, Option, none, List, [], ◌∷◌}
use terraform_provider_hyper.Common.Int.{ℤ}
use terraform_provider_hyper.Hyperv.Script.{Backend, Value, Payload, run_script, run_read_script}
use terraform_provider_hyper.Hyperv.Client.{Call}
use terraform_provider_hyper.Hyperv.Session.{Op, Hold, lift, holding_nat}
use terraform_provider_hyper.Hyperv.Mappings.{
  FirewallInput, firewall_value, load_with_helpers, remove_unless_gone,
}

pub record NatStaticMapping : Type 0 where
  pub id : String
  pub static_mapping_id : ℤ
  pub nat_name : String
  pub protocol : String
  pub external_ip_address : String
  pub external_port : ℤ
  pub internal_ip_address : String
  pub internal_port : ℤ
  pub firewall_rule_present : Bool
  pub firewall_rule_name : String
  pub firewall_rule_profile : String

pub record NewNatStaticMappingInput : Type 0 where
  pub nat_name : String
  pub protocol : String
  pub external_ip_address : String
  pub external_port : ℤ
  pub internal_ip_address : String
  pub internal_port : ℤ
  pub firewall : FirewallInput

pub record SetNatStaticMappingInput : Type 0 where
  pub nat_name : String
  pub protocol : String
  pub external_ip_address : String
  pub external_port : ℤ
  pub internal_ip_address : String
  pub internal_port : ℤ
  pub firewall : FirewallInput

pub record GetNatStaticMappingInput : Type 0 where
  pub nat_name : String
  pub protocol : String
  pub external_ip_address : String
  pub external_port : ℤ
  pub firewall_name : String

pub record RemoveNatStaticMappingInput : Type 0 where
  pub nat_name : String
  pub protocol : String
  pub external_ip_address : String
  pub external_port : ℤ
  pub firewall_name : String

abbrev pub new_payload : NewNatStaticMappingInput → Payload
new_payload in' =
    ("nat_name", Value.text in'.nat_name)
    ∷ ("protocol", Value.text in'.protocol)
    ∷ ("external_ip", Value.text in'.external_ip_address)
    ∷ ("external_port", Value.number in'.external_port)
    ∷ ("internal_ip", Value.text in'.internal_ip_address)
    ∷ ("internal_port", Value.number in'.internal_port)
    ∷ ("firewall", firewall_value in'.firewall)
    ∷ []

abbrev pub set_payload : SetNatStaticMappingInput → Payload
set_payload in' =
    ("nat_name", Value.text in'.nat_name)
    ∷ ("protocol", Value.text in'.protocol)
    ∷ ("external_ip", Value.text in'.external_ip_address)
    ∷ ("external_port", Value.number in'.external_port)
    ∷ ("internal_ip", Value.text in'.internal_ip_address)
    ∷ ("internal_port", Value.number in'.internal_port)
    ∷ ("firewall", firewall_value in'.firewall)
    ∷ []

abbrev pub get_payload : GetNatStaticMappingInput → Payload
get_payload in' =
    ("nat_name", Value.text in'.nat_name)
    ∷ ("protocol", Value.text in'.protocol)
    ∷ ("external_ip", Value.text in'.external_ip_address)
    ∷ ("external_port", Value.number in'.external_port)
    ∷ ("firewall_name", Value.text in'.firewall_name)
    ∷ []

abbrev pub remove_payload : RemoveNatStaticMappingInput → Payload
remove_payload in' =
    ("nat_name", Value.text in'.nat_name)
    ∷ ("protocol", Value.text in'.protocol)
    ∷ ("external_ip", Value.text in'.external_ip_address)
    ∷ ("external_port", Value.number in'.external_port)
    ∷ ("firewall_name", Value.text in'.firewall_name)
    ∷ []

module _ {ℓ} {H : Type ℓ} (b : Backend H) (decode : List ℕ → Option NatStaticMapping) where
  abbrev pub run_get : GetNatStaticMappingInput → Call H NatStaticMapping
  run_get in' =
      load_with_helpers b "nat_static_mapping" "_retry" "get"
        (λ body. run_read_script b decode body (get_payload in'))

  unfoldable pub get_nat_static_mapping : GetNatStaticMappingInput → Op H NatStaticMapping
  unfolding holding_nat
  get_nat_static_mapping in' = holding_nat Hold.reading (lift (run_get in'))

  abbrev pub run_new : NewNatStaticMappingInput → Call H NatStaticMapping
  run_new in' =
      load_with_helpers b "nat_static_mapping" "_retry" "new"
        (λ body. run_script b none decode body (new_payload in'))

  unfoldable pub new_nat_static_mapping : NewNatStaticMappingInput → Op H NatStaticMapping
  unfolding holding_nat
  new_nat_static_mapping in' = holding_nat Hold.writing (lift (run_new in'))

  abbrev pub run_set : SetNatStaticMappingInput → Call H NatStaticMapping
  run_set in' =
      load_with_helpers b "nat_static_mapping" "_retry" "set"
        (λ body. run_script b none decode body (set_payload in'))

  unfoldable pub set_nat_static_mapping : SetNatStaticMappingInput → Op H NatStaticMapping
  unfolding holding_nat
  set_nat_static_mapping in' = holding_nat Hold.writing (lift (run_set in'))

  abbrev pub run_remove : RemoveNatStaticMappingInput → Call H Unit
  run_remove in' = remove_unless_gone b "nat_static_mapping" "_retry" (remove_payload in')

  unfoldable pub remove_nat_static_mapping : RemoveNatStaticMappingInput → Op H Unit
  unfolding holding_nat
  remove_nat_static_mapping in' = holding_nat Hold.writing (lift (run_remove in'))
