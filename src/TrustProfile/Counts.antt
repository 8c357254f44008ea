-- ===== src/TrustProfile/Counts.antt =====
-- The counts behind a trust level stay within their bounds.
use aip_k8s.Prelude.{
  ℕ, zero, suc, ◌+◌, ◌≤◌, ◌<◌, String, Bool, some, List, [], ◌∷◌, ◌≡◌, refl, length, arith,
}
use aip_k8s.Api.Request.{Condition, AgentRequest}
use aip_k8s.Controller.Types.{AuditRecord}
use aip_k8s.TrustProfile.{
  Float, VerdictEntry, verdict_entries, first_entries, tally, executions, accuracy_of,
  rolling_accuracy,
}

-- Over any list of requests: the completed executions are among the counted ones, and these among
-- the requests.
pub executions_bounds :
    (is_true : List Condition → String → Bool) (agent : String) (items : List AgentRequest)
    → ((executions is_true agent items).1 ≤ (executions is_true agent items).0)
      × ((executions is_true agent items).0 ≤ length items)
unfolding executions
executions_bounds is_true agent [] = (omega arith, omega arith)
executions_bounds is_true agent (ar ∷ items) = ground (arith, executions_bounds is_true agent items)

length-first_entries :
    (n : ℕ) (entries : List VerdictEntry)
    → (length (first_entries n entries) ≤ n) × (length (first_entries n entries) ≤ length entries)
unfolding first_entries
length-first_entries zero entries = (omega arith, omega arith)
length-first_entries (suc n) [] = (omega arith, omega arith)
length-first_entries (suc n) (e ∷ entries) = omega (arith, length-first_entries n entries)

tally_bounds :
    (entries : List VerdictEntry)
    → ((tally entries).2 ≡ length entries)
      × ((tally entries).0 + (tally entries).1 ≤ length entries)
unfolding tally
tally_bounds [] = (refl, omega arith)
tally_bounds (e ∷ entries) = ground (arith, tally_bounds entries)

-- Where sorting adds no entries: an accuracy over the last verdicts counts at least one verdict, at
-- most as many as the window holds, and no more than there are.
pub rolling_accuracy_bounds :
    {F : Type 0} (float : Float F) (sort : List VerdictEntry → List VerdictEntry)
    → ((entries : List VerdictEntry) → length (sort entries) ≡ length entries)
    → (items : List AuditRecord) (count : ℕ) (accuracy : F) (total : ℕ)
    → rolling_accuracy float sort items count ≡ some (accuracy, total)
    → (0 < total) × (total ≤ count) × (total ≤ length (verdict_entries items))
unfolding rolling_accuracy accuracy_of
rolling_accuracy_bounds float sort keeps items count accuracy total h = ground (
  arith,
  keeps (verdict_entries items),
  length-first_entries count (sort (verdict_entries items)),
  tally_bounds (first_entries count (sort (verdict_entries items))),
)
