-- ===== src/Effects.antt =====
-- Go functions that call other systems and may return an error: errors, outcomes, and actions that
-- add their calls to a trace.
pub mod Logic
pub mod Retries
use aip_k8s.Prelude.{String, Bool, true, false, List, ◌∷◌}

-- Errors of the Kubernetes client, told apart by `IsNotFound` and the like, and the sentinel
-- errVerdictWrongPhase of cmd/gateway and ErrOIDCTokenRequired; `wrapped` is fmt.Errorf with %w, which these look through.
pub data Err : Type 0 where
  not_found already_exists conflict invalid bad_request no_match : Err
  verdict_wrong_phase oidc_token_required : Err
  other : String → Err
  wrapped : String → Err → Err

unfoldable pub is_not_found : Err → Bool
is_not_found not_found = true
is_not_found (wrapped _ e) = is_not_found e
is_not_found _ = false

pub is_already_exists : Err → Bool
is_already_exists already_exists = true
is_already_exists (wrapped _ e) = is_already_exists e
is_already_exists _ = false

pub is_conflict : Err → Bool
is_conflict conflict = true
is_conflict (wrapped _ e) = is_conflict e
is_conflict _ = false

pub is_invalid : Err → Bool
is_invalid invalid = true
is_invalid (wrapped _ e) = is_invalid e
is_invalid _ = false

pub is_bad_request : Err → Bool
is_bad_request bad_request = true
is_bad_request (wrapped _ e) = is_bad_request e
is_bad_request _ = false

pub is_no_match : Err → Bool
is_no_match no_match = true
is_no_match (wrapped _ e) = is_no_match e
is_no_match _ = false

pub is_verdict_wrong_phase : Err → Bool
is_verdict_wrong_phase verdict_wrong_phase = true
is_verdict_wrong_phase (wrapped _ e) = is_verdict_wrong_phase e
is_verdict_wrong_phase _ = false

pub is_oidc_token_required : Err → Bool
is_oidc_token_required oidc_token_required = true
is_oidc_token_required (wrapped _ e) = is_oidc_token_required e
is_oidc_token_required _ = false

pub data Outcome {ℓ} (A : Type ℓ) : Type ℓ where
  ok : A → Outcome A
  err : Err → Outcome A

-- An action with calls of type `C`; the trace has the calls made so far, the latest first.
abbrev pub Act : Type 0 → Type 0 → Type 0
Act C A = List C → Outcome A × List C

module _ {C A : Type 0} where
  unfoldable pub pure : A → Act C A
  pure a t = (ok a, t)

  unfoldable pub raise : Err → Act C A
  raise e t = (err e, t)

  -- The call `c`, answered by `f`.
  unfoldable pub invoke : C → (List C → Outcome A) → Act C A
  invoke c f t = (f t, c ∷ t)

  -- The error as a value.
  unfoldable pub attempt : Act C A → Act C (Outcome A)
  attempt m t = let (r, t') = m t in (ok r, t')

module _ {C A B : Type 0} where
  abbrev pub continue : Outcome A → (A → Act C B) → Act C B
  continue (ok a) f t = f a t
  continue (err e) f t = (err e, t)

  infixl 5 ◌>>=◌ ◌>>◌
  -- opening this opens `pure`, `raise`, `invoke` and `attempt` too
  unfoldable pub ◌>>=◌ : Act C A → (A → Act C B) → Act C B
  unfolding pure raise invoke attempt
  ◌>>=◌ m f t = let (r, t') = m t in continue r f t'

  abbrev pub ◌>>◌ : Act C A → Act C B → Act C B
  m >> k = m >>= λ _. k

-- `fmt.Errorf("…: %w", err)` on the error path.
unfoldable pub wrap_error : {C A : Type 0} → String → Outcome A → Act C A
unfolding pure raise
wrap_error s (ok a) = pure a
wrap_error s (err e) = raise (wrapped s e)

-- An error that is logged and dropped.
unfoldable pub ignore : {C A : Type 0} → Act C A → Act C (Unit {0})
unfolding ◌>>=◌
ignore m = do attempt m; pure tt
