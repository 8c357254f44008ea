-- ===== src/Evaluation/State.antt =====
-- The variables of `Evaluate` that its loops update, and `Result`.
use aip_k8s.Prelude.{ℕ, String, List, [], ◌∷◌, ◌++◌, ltb, if◌then◌else◌}
use aip_k8s.Api.Policy.{Action, allow, log, require_approval, deny, PolicyResult}

pub record Result : Type 0 where
  pub action : Action
  pub code : String
  pub message : String
  pub policy_results : List PolicyResult

unfoldable pub action_priority : Action → ℕ
action_priority allow = 1
action_priority log = 2
action_priority require_approval = 3
action_priority deny = 4

-- `result.Action`, `highestPriority`, `denialCode`, `finalMessage`, `result.PolicyResults`.
pub record Eval : Type 0 where
  pub action : Action
  pub highest_priority : ℕ
  pub denial_code : String
  pub final_message : String
  pub policy_results : List PolicyResult

unfoldable pub start : Eval
unfolding action_priority
start = record {
  action = allow;
  highest_priority = action_priority allow;
  denial_code = "";
  final_message = "";
  policy_results = [];
}

-- The guarded assignments that a deny with this code and message makes.
unfoldable pub raise_deny : String → String → Eval → Eval
unfolding action_priority
raise_deny code message e =
    if ltb e.highest_priority (action_priority deny)
    then record e {
      highest_priority = action_priority deny;
      action = deny;
      denial_code = code;
      final_message = message;
    }
    else e

unfoldable pub append_result : PolicyResult → Eval → Eval
append_result r e = record e { policy_results = e.policy_results ++ r ∷ [] }
