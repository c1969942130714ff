-- ===== src/Policy/Opa.antt =====
-- pkg/policy/opa.go: the decider over a prepared OPA query. The engine, which compiles a bundle and
-- evaluates a query, is a parameter; a `Query` is a prepared query.
pub mod FailClosed
use helmdeep.Base.{
  String, Option, none, some, List, [], ◌∷◌, ◌==◌, if◌then◌else◌, Result, ok, err, map,
}
use helmdeep.Base.Text.{◌+++◌}
use helmdeep.Json.{Json}
use helmdeep.Types.{
  DecisionRequest, DecisionResponse, Obligation, outcome_allow, outcome_deny,
  outcome_allow_with_obligations,
}

pub record RegoObligation : Type 0 where
  pub type : String
  pub target : String

pub record RegoDecision : Type 0 where
  pub outcome : String
  pub policy_id : String
  pub reason : String
  pub obligations : List RegoObligation

-- OPA and encoding/json: compiling the bundle that the disk holds at a path at some time, the input of a request (none where it cannot be built),
-- evaluation to the expressions of each result, and reading an expression as a decision.
pub record Engine (Disk Query : Type 0) : Type 0 where
  pub prepare : String → Disk → Result String Query
  pub input_of : DecisionRequest → Result String Json
  pub eval : Query → Json → Result String (List (List Json))
  pub marshal : Json → Result String String
  pub parse : String → Result String RegoDecision
  pub quote : String → String

-- Before the first load there is no query, and the path is "".
pub record OpaDecider (Query : Type 0) : Type 0 where
  pub prepared : Option Query
  pub path : String

abbrev pub new_opa_decider : {Query : Type 0} → OpaDecider Query
new_opa_decider = record { prepared = none; path = "" }

abbrev pub denied : String → String → DecisionResponse
denied policy_id reason = record {
  outcome = outcome_deny;
  obligations = [];
  policy_id = policy_id;
  reason = reason;
}

abbrev pub obligation_of : RegoObligation → Obligation
obligation_of o = record { type = o.type; target = o.target }

module _ {Disk Query : Type 0} (engine : Engine Disk Query) where
  -- Each of the next three returns the error, where there is one, beside the decider.
  unfoldable pub load : String → Disk → OpaDecider Query → Option String × OpaDecider Query
  load path disk d = elim (engine.prepare path disk) [
    | err e ↦ (some e, d)
    | ok query ↦ (none, record { prepared = some query; path = path })
  ]

  unfoldable pub reload : Disk → OpaDecider Query → Option String × OpaDecider Query
  unfolding load
  reload disk d =
      if d.path == "" then (some "reload called before an initial Load", d) else load d.path disk d

  unfoldable pub ready : OpaDecider Query → Option String
  ready d = elim d.prepared [ none ↦ some "no policy bundle loaded" | some query ↦ none ]

  -- The switch on the outcome that the policy gave.
  unfoldable pub respond : RegoDecision → DecisionResponse
  respond rd =
      if rd.outcome == outcome_allow
      then record {
        outcome = outcome_allow;
        obligations = [];
        policy_id = rd.policy_id;
        reason = rd.reason;
      }
      else if rd.outcome == outcome_allow_with_obligations
      then record {
        outcome = outcome_allow_with_obligations;
        obligations = map obligation_of rd.obligations;
        policy_id = rd.policy_id;
        reason = rd.reason;
      }
      else if rd.outcome == outcome_deny
      then record {
        outcome = outcome_deny;
        obligations = [];
        policy_id = rd.policy_id;
        reason = rd.reason;
      }
      else denied "unrecognized_outcome"
          ("policy returned unrecognized outcome " +++ engine.quote rd.outcome)

  -- From the results of the evaluation on: the first expression of the first result.
  unfoldable pub read_results : List (List Json) → DecisionResponse
  unfolding respond
  read_results [] = denied "policy_undefined" "policy did not produce a decision for this input"
  read_results ([] ∷ results) =
      denied "policy_undefined" "policy did not produce a decision for this input"
  read_results ((value ∷ values) ∷ results) = elim (engine.marshal value) [
    | err e ↦ denied "result_marshal_error" ("could not read policy result: " +++ e)
    | ok raw ↦ elim (engine.parse raw) [
      | err e ↦
          denied "result_parse_error" ("policy result did not match the expected shape: " +++ e)
      | ok rd ↦ respond rd
    ]
  ]

  unfoldable pub evaluate : Query → DecisionRequest → DecisionResponse
  unfolding read_results
  evaluate query req = elim (engine.input_of req) [
    | err e ↦ denied "input_marshal_error" ("could not build policy input: " +++ e)
    | ok input ↦ elim (engine.eval query input) [
      | err e ↦ denied "policy_eval_error" ("policy evaluation failed: " +++ e)
      | ok results ↦ read_results results
    ]
  ]

  -- `Decide`; it never returns an error.
  unfoldable pub decide : OpaDecider Query → DecisionRequest → DecisionResponse
  unfolding evaluate
  decide d req = elim d.prepared [
    | none ↦ denied "no_policy_loaded" "no policy bundle has been loaded"
    | some query ↦ evaluate query req
  ]
