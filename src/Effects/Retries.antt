-- ===== src/Effects/Retries.antt =====
-- retry.RetryOnConflict of k8s.io/client-go: what it documents of the calls that it makes.
use aip_k8s.Prelude.{true, List, ◌≡◌}
use aip_k8s.Effects.{Err, Outcome, err, is_conflict, Act}
use aip_k8s.Effects.Logic.{Hist, Runs}

-- The function is called, called again only after a conflict, and the last answer is returned.
pub data Attempts {C : Type 0} (m : Act C (Unit {0}))
    : List C → Outcome (Unit {0}) → List C → Type 0 where
  last : (t : List C) → Attempts m t (m t).0 (m t).1
  again :
      (t : List C) {r : Outcome (Unit {0})} {t' : List C} (e : Err)
      → (m t).0 ≡ err e
      → is_conflict e ≡ true
      → Attempts m (m t).1 r t'
      → Attempts m t r t'

module _ {C : Type 0} {P : C → List C → Type 0} where
  pub Attempts-Hist :
      {m : Act C (Unit {0})} {t : List C} {r : Outcome (Unit {0})} {t' : List C}
      → Runs P (λ _. Unit) m (λ _ _. Unit)
      → Attempts m t r t'
      → Hist P t
      → Hist P t'
  Attempts-Hist k (last t) h = (k.at t h tt).0
  Attempts-Hist k (again t e failed conflict rest) h = Attempts-Hist k rest (k.at t h tt).0
