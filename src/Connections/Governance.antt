-- ===== src/Connections/Governance.antt =====
-- What the manager asks of a connection's metadata: the policy that governs it (policy.rs) and the
-- check of its definition (validation.rs). `Json` fills this interface with the code of both.
use nazh.Base.{Option, String}
use nazh.Connections.Types.{Message}
use nazh.Connections.Policy.{ConnectionGovernancePolicy}
use nazh.Connections.Policy.Bounds.{IsBounded}

pub record Governance : Type 1 where
  pub Metadata : Type 0
  pub policy : Metadata → ConnectionGovernancePolicy
  -- the reason, if the definition is refused
  pub validate : String → Metadata → Option Message
  pub policy_IsBounded : (metadata : Metadata) → IsBounded (policy metadata)
