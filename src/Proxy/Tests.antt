-- ===== src/Proxy/Tests.antt =====
-- Imports of port proxies.
use terraform_provider_hyper.Common.{[], ◌∷◌, some, ◌≡◌, refl, ◌==◌, if◌then◌else◌}
use terraform_provider_hyper.Common.Int.{pos}
use terraform_provider_hyper.Proxy.{
  Text, import_state, derived_firewall_rule_name, invalid_id, seeded,
}

-- Two identifiers and two ports.
instance few : Text
few = record {
  rule_name = λ address port. "hyperv-pp-10.0.0.1-80";
  endpoint = λ address port. "10.0.0.1:80";
  split_n =
      λ id. if id == "10.0.0.1:80" then "10.0.0.1" ∷ "80" ∷ [] else "10.0.0.1" ∷ "0" ∷ "x" ∷ [];
  parse_int = λ s. if s == "80" then some (pos 80) else some (pos 0);
}

import_seeds : import_state "10.0.0.1:80" ≡ seeded "10.0.0.1" (pos 80) "hyperv-pp-10.0.0.1-80"
unfolding import_state derived_firewall_rule_name few
import_seeds = refl

import_refuses_port_0 : import_state "10.0.0.1:0:x" ≡ invalid_id
unfolding import_state few
import_refuses_port_0 = refl
