-- ===== src/Connections/Json.antt =====
-- The governance of connections whose metadata is JSON: `ConnectionGovernancePolicy::from_metadata`
-- (policy.rs) and `validate_connection_definition` (validation.rs).
use nazh.Base.{String, Option}
use nazh.Json.{JsonNumber, Value}
use nazh.Connections.Policy.{from_metadata}
use nazh.Connections.Policy.Bounds.{from_metadata-IsBounded}
use nazh.Connections.Validation.{validate_connection_definition}
use nazh.Connections.Governance.{Governance}

abbrev pub json_governance : JsonNumber → (String → Option String) → Governance
json_governance J parse_url = record {
  Metadata = Value J.Number;
  policy = from_metadata J;
  validate = validate_connection_definition J parse_url;
  policy_IsBounded = from_metadata-IsBounded J;
}
