-- ===== src/Proxy.antt =====
-- internal/resources/port_proxy: model.go, and Create, Read, Update, Delete and ImportState of
-- resource.go over the client's operations. `fmt.Sprintf` on an address and a port, `strings.SplitN` at
-- colons into three and `strconv.ParseInt` are parameters.
mod Tests
use terraform_provider_hyper.Common.{
  ℕ, String, List, [], ◌∷◌, ◌++◌, Bool, ◌||◌, Option, none, some, ◌==◌, if◌then◌else◌,
}
use terraform_provider_hyper.Common.Int.{ℤ, pos, ltb_ℤ}
use terraform_provider_hyper.Framework.{
  has_error, Attr, null, known, value_string, value_int64, Diagnostics,
}
use terraform_provider_hyper.Framework.Handlers.{Reply, reporting, recording, dropping, silent}
use terraform_provider_hyper.Firewall.{
  Settings, Object, unpack, name_or, resolve, import_object, state_object,
}
use terraform_provider_hyper.Hyperv.Client.{Result, ok, failed}
use terraform_provider_hyper.Hyperv.Errors.{is_not_found}
use terraform_provider_hyper.Hyperv.Script.{Backend}
use terraform_provider_hyper.Hyperv.Handling.{
  Built, built, refused, refusing, adding, Handled, answering, with_client, with_input,
}
use terraform_provider_hyper.Hyperv.Mappings.{FirewallInput}
use terraform_provider_hyper.Hyperv.Mappings.Proxy.{
  PortProxy, NewPortProxyInput, SetPortProxyInput, RemovePortProxyInput, get_port_proxy,
  new_port_proxy, set_port_proxy, remove_port_proxy,
}

pub record Model : Type 0 where
  pub id : Attr String
  pub listen_address : Attr String
  pub listen_port : Attr ℤ
  pub connect_address : Attr String
  pub connect_port : Attr ℤ
  pub firewall_rule : Attr Object
  pub listening : Attr Bool

-- Of Go's library: the two formats, "hyperv-pp-%s-%d" and "%s:%d", and the two parsers.
pub record Text : Type 0 where
  pub rule_name : String → ℤ → String
  pub endpoint : String → ℤ → String
  pub split_n : String → List String
  pub parse_int : String → Option ℤ

abbrev pub firewall_input : Settings → FirewallInput
firewall_input s = record { enabled = s.enabled; name = s.name; profile = s.profile }

unfoldable pub model_from_port_proxy : PortProxy → Model
unfolding state_object
model_from_port_proxy pp = record {
  id = known pp.id;
  listen_address = known pp.listen_address;
  listen_port = known pp.listen_port;
  connect_address = known pp.connect_address;
  connect_port = known pp.connect_port;
  firewall_rule =
      state_object pp.firewall_rule_present pp.firewall_rule_name pp.firewall_rule_profile;
  listening = known pp.listening;
}

module _ ⦃t : Text⦄ where
  unfoldable pub derived_firewall_rule_name : String → ℤ → String
  derived_firewall_rule_name = t.rule_name

  abbrev pub derived : Model → String
  derived m = derived_firewall_rule_name (value_string m.listen_address) (value_int64 m.listen_port)

  unfoldable pub state_firewall_name : Model → String × Diagnostics
  unfolding unpack name_or derived_firewall_rule_name
  state_firewall_name state =
      let (fw, ds) = unpack state.firewall_rule in (name_or fw (derived state), ds)

  unfoldable pub build_new_input : Model → Built NewPortProxyInput
  unfolding unpack name_or resolve derived_firewall_rule_name
  build_new_input plan =
      let (fw, ds) = unpack plan.firewall_rule in
      if has_error ds
      then refused ds
      else built
          (record {
            listen_address = value_string plan.listen_address;
            listen_port = value_int64 plan.listen_port;
            connect_address = value_string plan.connect_address;
            connect_port = value_int64 plan.connect_port;
            firewall = firewall_input (resolve fw (name_or fw (derived plan)));
          })
          ds

  unfoldable pub build_set_input : Model → Model → Built SetPortProxyInput
  unfolding unpack resolve state_firewall_name
  build_set_input plan state =
      let (fw, ds) = unpack plan.firewall_rule in
      let (name, ds') = state_firewall_name state in
      if has_error (ds ++ ds')
      then refused (ds ++ ds')
      else built
          (record {
            listen_address = value_string state.listen_address;
            listen_port = value_int64 state.listen_port;
            connect_address = value_string plan.connect_address;
            connect_port = value_int64 plan.connect_port;
            firewall = firewall_input (resolve fw name);
          })
          (ds ++ ds')

  abbrev pub write_reply : String → Diagnostics → Result PortProxy → Reply Model
  write_reply summary ds (ok pp) = adding ds (recording (model_from_port_proxy pp))
  write_reply summary ds (failed e) = adding ds (reporting summary)

  abbrev pub read_reply : Diagnostics → Result PortProxy → Reply Model
  read_reply ds (ok pp) =
      if has_error ds then refusing ds else adding ds (recording (model_from_port_proxy pp))
  read_reply ds (failed e) =
      if is_not_found e
      then dropping
      else if has_error ds
      then refusing ds
      else adding ds (reporting "Read hyperv_port_proxy failed")

  abbrev pub delete_reply : Diagnostics → Result Unit → Reply Model
  delete_reply ds (ok u) = adding ds silent
  delete_reply ds (failed e) = adding ds (reporting "Delete hyperv_port_proxy failed")

  module _ {ℓ} {H : Type ℓ} (r : Option (Backend H × (List ℕ → Option PortProxy))) where
    unfoldable pub create : Model → Handled H Model
    create plan = with_client r (λ (b, d). with_input (build_new_input plan) (λ i ds.
        answering (new_port_proxy b d i) (write_reply "Create hyperv_port_proxy failed" ds)))

    unfoldable pub read : Model → Handled H Model
    read state = with_client r (λ (b, d).
        let (name, ds) = state_firewall_name state in
        answering
          (get_port_proxy b d (record {
            listen_address = value_string state.listen_address;
            listen_port = value_int64 state.listen_port;
            firewall_name = name;
          }))
          (read_reply ds))

    unfoldable pub update : Model → Model → Handled H Model
    update plan state = with_client r (λ (b, d). with_input (build_set_input plan state) (λ i ds.
        answering (set_port_proxy b d i) (write_reply "Update hyperv_port_proxy failed" ds)))

    abbrev removing : Model → Built RemovePortProxyInput
    removing state =
        let (name, ds) = state_firewall_name state in
        if has_error ds
        then refused ds
        else built
            (record {
              listen_address = value_string state.listen_address;
              listen_port = value_int64 state.listen_port;
              firewall_name = name;
            })
            ds

    unfoldable pub delete : Model → Handled H Model
    delete state = with_client r (λ (b, d).
        with_input (removing state) (λ i ds. answering (remove_port_proxy b d i) (delete_reply ds)))

  abbrev pub invalid_id : Reply Model
  invalid_id = reporting "Invalid import ID for hyperv_port_proxy"

  -- The state is empty before the import.
  abbrev pub seeded : String → ℤ → String → Reply Model
  seeded address port name = recording (record {
    id = known (t.endpoint address port);
    listen_address = known address;
    listen_port = known port;
    connect_address = null;
    connect_port = null;
    firewall_rule = import_object name;
    listening = null;
  })

  abbrev pub import_parts : String → String → String → Reply Model
  import_parts address port_text name = elim (t.parse_int port_text) [
    | none ↦ invalid_id
    | some port ↦
        if ltb_ℤ port (pos 1) || ltb_ℤ (pos 65535) port
        then invalid_id
        else seeded address port
            (if name == "" then derived_firewall_rule_name address port else name)
  ]

  abbrev pub import_split : List String → Reply Model
  import_split [] = invalid_id
  import_split (address ∷ []) = invalid_id
  import_split (address ∷ port ∷ rest) =
      if address == ""
      then invalid_id
      else import_parts address port (elim rest [ [] ↦ "" | name ∷ more ↦ name ])

  unfoldable pub import_state : String → Reply Model
  unfolding import_object derived_firewall_rule_name
  import_state id = import_split (t.split_n id)
