-- ===== src/Policy.antt =====
-- pkg/policy: the interface of the policy decision point, and the decider over OPA.
pub mod Opa
use helmdeep.Base.{String, ℕ, Option, Result}
use helmdeep.Types.{DecisionRequest, DecisionResponse}

-- `Decider`, under the deadline of the context, if it has one.
abbrev pub Decider : Type 0 → Type 0
Decider W = Option ℕ → DecisionRequest → W → Result String DecisionResponse × W
