-- ===== src/Evaluation/Cel.antt =====
-- What the evaluator asks of the CEL environment (internal/evaluation/cel.go): variable maps, and
-- the value of an expression or the text of the error.
use aip_k8s.Prelude.{String, Bool, Option}
use aip_k8s.Api.Request.{AgentRequest, AffectedTarget, TargetContext}

-- (bool, error) of `EvaluateExpression`.
pub data CelResult : Type 0 where
  value : Bool → CelResult
  failure : String → CelResult

pub record CelEnv : Type 1 where
  pub Vars : Type 0
  -- `PrepareVariables`; `none` is its error.
  pub request_vars : AgentRequest → Option TargetContext → Option Vars
  -- The map of a cascade target: its effect as the action, its URI, and the target state.
  pub cascade_vars : AffectedTarget → TargetContext → Vars
  pub evaluate_expression : String → Vars → CelResult
