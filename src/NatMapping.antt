-- ===== src/NatMapping.antt =====
-- internal/resources/nat_static_mapping: model.go, and Create, Read, Update, Delete and ImportState of
-- resource.go over the client's operations. `strings.ToLower`, `fmt.Sprintf` on names and ports,
-- `strings.Split` at colons and `fmt.Sscanf` of a number are parameters.
use terraform_provider_hyper.Common.{
  ℕ, String, List, [], ◌∷◌, ◌++◌, Option, none, some, ◌==◌, if◌then◌else◌,
}
use terraform_provider_hyper.Common.Int.{ℤ}
use terraform_provider_hyper.Framework.{
  Attr, null, known, value_string, value_int64, Diagnostics, has_error,
}
use terraform_provider_hyper.Framework.Handlers.{Reply, reporting, recording, dropping, silent}
use terraform_provider_hyper.Firewall.{
  Rule, Settings, Object, unpack, name_or, resolve, import_object, state_object,
}
use terraform_provider_hyper.Hyperv.Client.{Result, ok, failed}
use terraform_provider_hyper.Hyperv.Errors.{is_not_found}
use terraform_provider_hyper.Hyperv.Script.{Backend}
use terraform_provider_hyper.Hyperv.Handling.{
  Built, built, refused, adding, Handled, answering, with_client, with_input,
}
use terraform_provider_hyper.Hyperv.Mappings.{FirewallInput}
use terraform_provider_hyper.Hyperv.Mappings.Nat.{
  NatStaticMapping, NewNatStaticMappingInput, SetNatStaticMappingInput, get_nat_static_mapping,
  new_nat_static_mapping, set_nat_static_mapping, remove_nat_static_mapping,
}

pub record Model : Type 0 where
  pub id : Attr String
  pub nat_name : Attr String
  pub protocol : Attr String
  pub address_family : Attr String
  pub external_ip : Attr String
  pub external_port : Attr ℤ
  pub internal_ip : Attr String
  pub internal_port : Attr ℤ
  pub firewall_rule : Attr Object

-- Of Go's library: the formats are "hyperv-pf-%s-%d" and "%s:%s:%s:%s".
pub record Text : Type 0 where
  pub to_lower : String → String
  pub rule_name : String → ℤ → String
  pub composite_id : String → String → String → String → String
  pub split : String → List String
  pub scan_int : String → Option ℤ

abbrev pub firewall_input : Settings → FirewallInput
firewall_input s = record { enabled = s.enabled; name = s.name; profile = s.profile }

-- The name of the rule in the state.
abbrev pub rule_name_of : Rule → String
rule_name_of fw = value_string fw.name

module _ ⦃t : Text⦄ where
  unfoldable pub derived_firewall_rule_name : String → ℤ → String
  derived_firewall_rule_name protocol port = t.rule_name (t.to_lower protocol) port

  abbrev pub derived : Model → String
  derived m = derived_firewall_rule_name (value_string m.protocol) (value_int64 m.external_port)

  unfoldable pub model_from_nat_static_mapping : NatStaticMapping → String → Model
  unfolding state_object
  model_from_nat_static_mapping pf fw_name = record {
    id = known pf.id;
    nat_name = known pf.nat_name;
    protocol = known (t.to_lower pf.protocol);
    address_family = known "ipv4";
    external_ip = known pf.external_ip_address;
    external_port = known pf.external_port;
    internal_ip = known pf.internal_ip_address;
    internal_port = known pf.internal_port;
    firewall_rule = state_object pf.firewall_rule_present fw_name pf.firewall_rule_profile;
  }

  -- With the name of the rule, for the state.
  unfoldable pub build_new_input : Model → Built (NewNatStaticMappingInput × String)
  unfolding unpack name_or resolve derived_firewall_rule_name
  build_new_input plan =
      let (fw, ds) = unpack plan.firewall_rule in
      let settings = resolve fw (name_or fw (derived plan)) in
      if has_error ds
      then refused ds
      else built
          (
            record {
              nat_name = value_string plan.nat_name;
              protocol = value_string plan.protocol;
              external_ip_address = value_string plan.external_ip;
              external_port = value_int64 plan.external_port;
              internal_ip_address = value_string plan.internal_ip;
              internal_port = value_int64 plan.internal_port;
              firewall = firewall_input settings;
            },
            settings.name,
          )
          ds

  -- The name comes from the state.
  unfoldable pub build_set_input : Model → Model → Built (SetNatStaticMappingInput × String)
  unfolding unpack name_or resolve derived_firewall_rule_name
  build_set_input plan state =
      let (fw, ds) = unpack plan.firewall_rule in
      let (state_fw, ds') = unpack state.firewall_rule in
      let settings = resolve fw (name_or state_fw (derived state)) in
      if has_error ds
      then refused ds
      else if has_error (ds ++ ds')
      then refused (ds ++ ds')
      else built
          (
            record {
              nat_name = value_string state.nat_name;
              protocol = value_string state.protocol;
              external_ip_address = value_string state.external_ip;
              external_port = value_int64 state.external_port;
              internal_ip_address = value_string plan.internal_ip;
              internal_port = value_int64 plan.internal_port;
              firewall = firewall_input settings;
            },
            settings.name,
          )
          (ds ++ ds')

  abbrev pub write_reply : String → String → Diagnostics → Result NatStaticMapping → Reply Model
  write_reply summary fw_name ds (ok pf) =
      adding ds (recording (model_from_nat_static_mapping pf fw_name))
  write_reply summary fw_name ds (failed e) = adding ds (reporting summary)

  abbrev pub read_reply : String → Diagnostics → Result NatStaticMapping → Reply Model
  read_reply fw_name ds (ok pf) = adding ds (recording (model_from_nat_static_mapping pf fw_name))
  read_reply fw_name ds (failed e) =
      if is_not_found e
      then adding ds dropping
      else adding ds (reporting "Read hyperv_nat_static_mapping failed")

  abbrev pub delete_reply : Diagnostics → Result Unit → Reply Model
  delete_reply ds (ok u) = adding ds silent
  delete_reply ds (failed e) =
      if is_not_found e
      then adding ds silent
      else adding ds (reporting "Delete hyperv_nat_static_mapping failed")

  -- The rule of the state, unless it does not unpack.
  abbrev pub state_rule : Model → Built Rule
  state_rule state =
      let (fw, ds) = unpack state.firewall_rule in if has_error ds then refused ds else built fw ds

  module _ {ℓ} {H : Type ℓ} (r : Option (Backend H × (List ℕ → Option NatStaticMapping))) where
    unfoldable pub create : Model → Handled H Model
    create plan = with_client r (λ (b, d). with_input (build_new_input plan) (λ (i, name) ds.
        answering (new_nat_static_mapping b d i)
          (write_reply "Create hyperv_nat_static_mapping failed" name ds)))

    unfoldable pub read : Model → Handled H Model
    unfolding unpack
    read state = with_client r (λ (b, d). with_input (state_rule state) (λ fw ds.
        answering
          (get_nat_static_mapping b d (record {
            nat_name = value_string state.nat_name;
            protocol = value_string state.protocol;
            external_ip_address = value_string state.external_ip;
            external_port = value_int64 state.external_port;
            firewall_name = rule_name_of fw;
          }))
          (read_reply (rule_name_of fw) ds)))

    unfoldable pub update : Model → Model → Handled H Model
    update plan state = with_client r (λ (b, d).
        with_input (build_set_input plan state) (λ (i, name) ds.
          answering (set_nat_static_mapping b d i)
            (write_reply "Update hyperv_nat_static_mapping failed" name ds)))

    unfoldable pub delete : Model → Handled H Model
    unfolding unpack
    delete state = with_client r (λ (b, d). with_input (state_rule state) (λ fw ds.
        answering
          (remove_nat_static_mapping b d (record {
            nat_name = value_string state.nat_name;
            protocol = value_string state.protocol;
            external_ip_address = value_string state.external_ip;
            external_port = value_int64 state.external_port;
            firewall_name = rule_name_of fw;
          }))
          (delete_reply ds)))

  abbrev pub invalid_id : Reply Model
  invalid_id = reporting "Invalid import ID for hyperv_nat_static_mapping"

  -- The state is empty before the import.
  abbrev pub import_parts : String → String → String → String → String → Reply Model
  import_parts nat_name proto external_ip port_text name = elim (t.scan_int port_text) [
    | none ↦ invalid_id
    | some port ↦ recording (record {
      id = known (t.composite_id nat_name proto external_ip port_text);
      nat_name = known nat_name;
      protocol = known proto;
      address_family = null;
      external_ip = known external_ip;
      external_port = known port;
      internal_ip = null;
      internal_port = null;
      firewall_rule =
          import_object (if name == "" then derived_firewall_rule_name proto port else name);
    })
  ]

  abbrev pub import_split : List String → Reply Model
  import_split (nat_name ∷ proto ∷ ip ∷ port ∷ []) = import_parts nat_name proto ip port ""
  import_split (nat_name ∷ proto ∷ ip ∷ port ∷ name ∷ []) = import_parts nat_name proto ip port name
  import_split [] = invalid_id
  import_split (a ∷ []) = invalid_id
  import_split (a ∷ b ∷ []) = invalid_id
  import_split (a ∷ b ∷ c ∷ []) = invalid_id
  import_split (a ∷ b ∷ c ∷ d ∷ e ∷ f ∷ rest) = invalid_id

  unfoldable pub import_state : String → Reply Model
  unfolding import_object derived_firewall_rule_name
  import_state id = import_split (t.split id)
