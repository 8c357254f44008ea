-- ===== src/Accuracy/Counts.antt =====
-- What the reconciler of accuracies writes over any series of reconciles.
use aip_k8s.Prelude.{
  ℕ, suc, ◌+◌, ◌≤◌, String, true, false, ◌≡◌, ◌⊎◌, some, List, [], ◌∷◌, str_eq, ltb, length,
  contains, arith, if◌then◌else◌,
}
use aip_k8s.Api.Naming.{profile_name_for_agent}
use aip_k8s.Api.Request.{AgentRequest}
use aip_k8s.Controller.Types.{Reader}
use aip_k8s.Effects.{ok}
use aip_k8s.Effects.Logic.{Runs}
use aip_k8s.Effects.Retries.{Attempts}
use aip_k8s.Accuracy.{
  AccuracySummary, Call, Trace, M, Cluster, patch_summary, uncounted_reasons, ratio,
}

-- A total that has been counted up is positive.
positive : {A : Type 0} (n : ℕ) (x y : A) → (if ltb 0 (suc n) then x else y) ≡ x
positive n x y = ground arith

abbrev pub known_verdicts : List String
known_verdicts = "correct" ∷ "partial" ∷ "incorrect" ∷ []

module _ {F : Type 0} where
  -- The verdicts that are counted by their kind.
  abbrev pub kinds : AccuracySummary F → ℕ
  kinds s = s.correct_count + s.partial_count + s.incorrect_count

module _ {F : Type 0} (c : Cluster F) where
  -- The summary was read under the name for the request's agent.
  abbrev pub IsOf : AgentRequest → AccuracySummary F → Type 0
  IsOf req s =
      (t : Trace F) × (reader : Reader) × (c.on_get_summary t reader req.namespace
          (profile_name_for_agent c.to_lower c.sha256 req.spec.agent_identity)
        ≡ ok s)

  -- The written summary counts one request more, which was read with a verdict.
  pub record IsCount (b n : AccuracySummary F) : Type 0 where
    pub request : AgentRequest
    pub read :
        (t : Trace F) × (ns : String) × (name : String) × (c.on_get_request t ns name ≡ ok request)
    pub base : IsOf request b
    pub graded : str_eq request.status.verdict "" ≡ false
    pub relevant : contains uncounted_reasons request.status.verdict_reason_code ≡ false
    pub uncounted : contains b.recent_verdicts request.name ≡ false
    pub named : contains n.recent_verdicts request.name ≡ true
    pub window : length n.recent_verdicts ≤ 100
    pub total : n.total_reviewed ≡ suc b.total_reviewed
    pub by_kind :
        ((contains known_verdicts request.status.verdict ≡ true) × (kinds n ≡ suc (kinds b)))
        ⊎ ((contains known_verdicts request.status.verdict ≡ false) × (kinds n ≡ kinds b))
    pub accuracy :
        n.diagnostic_accuracy ≡ some (ratio c n.correct_count n.partial_count n.total_reviewed)

  abbrev pub Counts : Call F → Trace F → Type 0
  Counts (patch_summary b n) t = IsCount b n
  Counts _ t = Unit

  abbrev pub RetriesConflicts : Type 0
  RetriesConflicts =
      (m : M F (Unit {0})) (t : Trace F)
      → Attempts m t (c.retry_on_conflict m t).0 (c.retry_on_conflict m t).1

  module _ (retries : RetriesConflicts) where
    -- What an action calls counts requests.
    abbrev Safe : {A : Type 0} → M F A → Type 0
    Safe m = Runs Counts (λ _. Unit) m (λ _ _. Unit)
