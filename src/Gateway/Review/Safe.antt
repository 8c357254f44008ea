-- ===== src/Gateway/Review/Safe.antt =====
-- The calls of the review handlers are allowed.
use aip_k8s.Prelude.{ℕ, String, Bool, true, false, not, ◌&&◌, Option, none, some, ◌≡◌, refl, str_eq}
use aip_k8s.Api.Request.{AgentRequest, Decision}
use aip_k8s.Effects.{Outcome, ok, err}
use aip_k8s.Effects.Logic.{
  Runs, Runs-invoke, Runs-attempt_invoke, Runs-pure, Runs-raise, Runs-bind, Runs-if, Runs-option,
}
use aip_k8s.Gateway.Roles.{Role}
use aip_k8s.Gateway.Server.{
  Server, Caller, caller_of, HttpRequest, read_clock, patch_object, patch_status_locked, mint_token,
  client,
}
use aip_k8s.Gateway.Review.{
  VerdictBody, invalid_verdict, is_phase, graded, grade, submit_verdict, handle_verdict,
  is_approval, needs_reason, record_decision, token_minted, decide, review, handle_human_decision,
}
use aip_k8s.Gateway.Safety.{
  RetriesConflicts, WasRead, HasRole, IsReview, Allowed, Safe, Read, get-Read, get-WasRead,
  retry-Safe, answer-Safe, fail-Safe, with_role-Safe,
}

not-false : (b : Bool) → not b ≡ false → b ≡ true
not-false true h = refl
not-false false h = cc

module _ {F : Type 0} (s : Server F) (asks : Caller → Type 0) where
  module _ (who : Caller) (body : VerdictBody) (reviewer : HasRole s asks Role.reviewer who)
      (valid : invalid_verdict body ≡ none) where
    graded-Safe :
        (req : AgentRequest)
        → WasRead s req
        → is_phase "AwaitingVerdict" req ≡ true
        → str_eq req.status.verdict "" ≡ true
        → Safe s asks (graded s who.sub body req)
    unfolding graded
    graded-Safe req read awaiting ungraded =
        Runs-bind (Runs-invoke {Q = λ _ _. Unit} read_clock _ (λ t e. tt) (λ t e a p. tt)) (λ time.
          Runs-invoke (patch_status_locked req _) _
            (λ t e. record {
              read = read;
              who = who;
              reviewer = reviewer;
              awaiting = awaiting;
              ungraded = ungraded;
              body = body;
              valid = valid;
              verdict_eq = refl;
              verdict_by_eq = refl;
              phase_eq = refl;
              spec_eq = refl;
            })
            (λ t e a p. tt))

    grade-Safe : (ns name : String) → Safe s asks (grade s ns name who.sub body)
    unfolding grade
    grade-Safe ns name = Runs-bind (get-WasRead s asks client ns name) (λ req. record {
      at = λ t h read.
          (Runs-if {Ev = λ _. Unit} (not (is_phase "AwaitingVerdict" req)) (λ e. Runs-raise _)
              (λ awaiting.
                Runs-if (not (str_eq req.status.verdict "")) (λ e. Runs-raise _)
                  (λ ungraded.
                    graded-Safe req read (not-false _ awaiting) (not-false _ ungraded)))).at
            t h tt;
    })

  pub handle_verdict-Safe :
      RetriesConflicts s
      → (r : HttpRequest VerdictBody) → asks (caller_of r)
      → Safe s asks (handle_verdict s r)
  unfolding handle_verdict submit_verdict
  handle_verdict-Safe retries r asked = with_role-Safe s asks Role.reviewer r asked (λ reviewer.
      Runs-option r.body (λ e. fail-Safe s asks _ _)
        (λ body e.
          Runs-option (invalid_verdict body)
            (λ valid.
              Runs-bind
                (retry-Safe s asks retries (grade-Safe (caller_of r) body reviewer valid _ r.name))
                (λ answer. answer-Safe s asks _))
            (λ m e. fail-Safe s asks _ _)))

  module _ (decision : Decision) (reason : String) (req : AgentRequest)
      (v : IsReview s asks req) where
    record_decision-Safe :
        (token : Option (String × ℕ))
        → Safe s asks (record_decision s decision v.who.sub reason req token)
    unfolding record_decision
    record_decision-Safe token =
        Runs-bind
          (Runs-attempt_invoke {Q = λ _ _. Unit} (patch_object req _) _
            (λ t e. record { decision = decision; review = v; reason = reason; written = refl })
            (λ t e. tt))
          (λ patched. answer-Safe s asks _)

    token_minted-Safe :
        (minted : Outcome (String × ℕ))
        → Safe s asks (token_minted s decision v.who.sub reason req minted)
    unfolding token_minted
    token_minted-Safe (ok token) = record_decision-Safe (some token)
    token_minted-Safe (err e) = fail-Safe s asks _ _

    decide-Safe : Safe s asks (decide s decision v.who.sub reason req)
    unfolding decide
    decide-Safe =
        Runs-if (is_approval decision && s.has_jwt_manager)
          (λ e.
            Runs-bind
              (Runs-attempt_invoke {Q = λ _ _. Unit} (mint_token _ _ _ _) _
                (λ t h. record {
                  request = req;
                  review = v;
                  identity_eq = refl;
                  action_eq = refl;
                  uri_eq = refl;
                  name_eq = refl;
                })
                (λ t h. tt))
              token_minted-Safe)
          (λ e. record_decision-Safe none)

  review-Safe :
      (decision : Decision) (who : Caller) (reason : String) (answer : Outcome AgentRequest)
      → HasRole s asks Role.reviewer who
      → Runs
          (Allowed s asks)
          (Read s answer)
          (review s decision who.sub reason answer)
          (λ _ _. Unit)
  unfolding review
  review-Safe decision who reason (err x) reviewer = Runs-pure _ (λ t e. tt)
  review-Safe decision who reason (ok req) reviewer = record {
    at = λ t h read.
        (Runs-if {Ev = λ _. Unit} (str_eq req.spec.agent_identity who.sub)
            (λ e. fail-Safe s asks _ _)
            (λ not_own.
              Runs-if (not (is_phase "Pending" req)) (λ e. fail-Safe s asks _ _)
                (λ pending.
                  Runs-if (needs_reason s decision req reason) (λ e. fail-Safe s asks _ _)
                    (λ e. decide-Safe decision reason req (record {
                      read = read;
                      who = who;
                      reviewer = reviewer;
                      pending = not-false _ pending;
                      not_own = not_own;
                    }))))).at
          t h tt;
  }

  pub handle_human_decision-Safe :
      (decision : Decision) (r : HttpRequest String)
      → asks (caller_of r)
      → Safe s asks (handle_human_decision s decision r)
  unfolding handle_human_decision
  handle_human_decision-Safe decision r asked =
      with_role-Safe s asks Role.reviewer r asked (λ reviewer.
        Runs-bind (get-Read s asks client _ r.name)
          (λ answer. review-Safe decision (caller_of r) _ answer reviewer))
