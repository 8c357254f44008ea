-- ===== src/Gateway/Review/Answers.antt =====
-- The answers of `handleHumanDecision`: 200 goes with an accepted patch, and no other answer does.
use aip_k8s.Prelude.{
  ℕ, String, Bool, true, false, not, ◌&&◌, ◌==◌, Option, none, some, ◌∷◌, ◌≡◌, refl, ◌⊎◌, inl, inr,
  str_eq, if◌then◌else◌, on_option,
}
use aip_k8s.Api.Request.{AgentRequest, Decision}
use aip_k8s.Effects.{Err, Outcome, ok, err, pure, ◌>>=◌}
use aip_k8s.Effects.Logic.{Hist}
use aip_k8s.Gateway.Roles.{Role, require_role}
use aip_k8s.Gateway.Server.{
  Server, M, Call, Trace, Response, HttpRequest, patch_object, mint_token, get_request, client,
  Body,
}
use aip_k8s.Gateway.Review.{
  decision_answer, respond, fail, fail_with, with_role, is_phase, needs_reason, is_approval,
  record_decision, token_minted, decide, review, handle_human_decision,
}

module _ {F : Type 0} (s : Server F) where
  -- The call is not an accepted patch of a request's spec.
  abbrev pub NotAccepted : Call → Trace → Type 0
  NotAccepted (patch_object b n) t = (e : Err) × (s.on_patch_object t b n ≡ err e)
  NotAccepted _ t = Unit

  -- The last call is an accepted patch of a request's spec.
  abbrev pub Accepted : Trace → Type 0
  Accepted t =
      (b : AgentRequest) × (n : AgentRequest) × (t' : Trace) × (t ≡ patch_object b n ∷ t')
      × (n' : AgentRequest) × (s.on_patch_object t' b n ≡ ok n')

  -- A response is given, with status 200 exactly where a patch was accepted.
  abbrev pub IsAnswered : Outcome Response × Trace → Type 0
  IsAnswered (o, t) =
      (r : Response) × (o ≡ ok r)
      × (((r.status ≡ 200) × Accepted t) ⊎ (((r.status == 200) ≡ false) × Hist NotAccepted t))

  record Answers (m : M Response) : Type 0 where
    answer : (t : Trace) → Hist NotAccepted t → IsAnswered (m t)

  Answers-if :
      (b : Bool) {m k : M Response}
      → Answers m
      → (b ≡ false → Answers k)
      → Answers (if b then m else k)
  Answers-if true p q = p
  Answers-if false p q = q refl

  Answers-refusal :
      (status : ℕ) (body : Body) → (status == 200) ≡ false → Answers (pure (respond status body))
  unfolding respond pure
  Answers-refusal status body bad = record {
    answer = λ t h. (respond status body, refl, inr (bad, h));
  }

  answered_by :
      (b n : AgentRequest) (t : Trace) (patched : Outcome AgentRequest) (name : String)
      (token : Option (String × ℕ))
      → Hist NotAccepted t
      → s.on_patch_object t b n ≡ patched
      → IsAnswered (ok (decision_answer name token patched), patch_object b n ∷ t)
  unfolding decision_answer respond
  answered_by b n t (ok n') name token h e = (_, refl, inl (refl, (b, n, t, refl, n', e)))
  answered_by b n t (err x) name token h e = (_, refl, inr (refl, ((x, e), h)))

  module _ (decision : Decision) (sub reason : String) (req : AgentRequest) where
    record_decision-Answers :
        (token : Option (String × ℕ)) → Answers (record_decision s decision sub reason req token)
    unfolding record_decision ◌>>=◌
    record_decision-Answers token = record {
      answer = λ t h. answered_by req _ t _ req.name token h refl;
    }

    token_minted-Answers :
        (minted : Outcome (String × ℕ)) → Answers (token_minted s decision sub reason req minted)
    unfolding token_minted fail_with
    token_minted-Answers (ok token) = record_decision-Answers (some token)
    token_minted-Answers (err e) = Answers-refusal 500 _ refl

    decide-Answers : Answers (decide s decision sub reason req)
    unfolding decide ◌>>=◌
    decide-Answers =
        Answers-if (is_approval decision && s.has_jwt_manager)
          (record {
            answer = λ t h. (token_minted-Answers _).answer (mint_token _ _ _ _ ∷ t) (tt, h);
          })
          (λ e. record_decision-Answers none)

  review-Answers :
      (decision : Decision) (sub reason : String) (answer : Outcome AgentRequest)
      → Answers (review s decision sub reason answer)
  unfolding review fail_with
  review-Answers decision sub reason (err e) = Answers-refusal 404 _ refl
  review-Answers decision sub reason (ok req) =
      Answers-if (str_eq req.spec.agent_identity sub) (Answers-refusal 403 _ refl) (λ _.
        Answers-if (not (is_phase "Pending" req)) (Answers-refusal 409 _ refl) (λ _.
          Answers-if (needs_reason s decision req reason) (Answers-refusal 400 _ refl)
            (λ _. decide-Answers decision sub reason req)))

  with_role-Answers :
      {B : Type 0} (role : Role) (r : HttpRequest B) {next : M Response}
      → Answers next
      → Answers (with_role s role r next)
  unfolding with_role fail_with
  with_role-Answers role r {next} k =
      Answers-if (s.auth_required && str_eq r.sub "") (Answers-refusal 401 _ refl)
        (λ _. checked (require_role s.roles role r.sub r.groups))
    where
      checked : (o : Option String) → Answers (on_option o next (λ m. fail 403 m))
      checked none = k
      checked (some m) = Answers-refusal 403 _ refl

  -- The handler always gives a response. From a trace without an accepted patch of a request's spec,
  -- its status is 200 and its last call is such a patch, or its status is another and still no such
  -- patch was accepted.
  pub handle_human_decision-IsAnswered :
      (decision : Decision) (r : HttpRequest String) (t : Trace)
      → Hist NotAccepted t
      → IsAnswered (handle_human_decision s decision r t)
  unfolding handle_human_decision ◌>>=◌
  handle_human_decision-IsAnswered decision r =
      (with_role-Answers Role.reviewer r (record {
        answer =
            λ t h. (review-Answers decision r.sub _ _).answer (get_request client _ _ ∷ t) (tt, h);
      })).answer
