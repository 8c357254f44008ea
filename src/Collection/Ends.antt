-- ===== src/Collection/Ends.antt =====
-- The collector's loops end.
use aip_k8s.Prelude.{
  ℕ, zero, suc, ◌<◌, String, Bool, true, false, not, Option, none, some, List, [], ◌∷◌, ◌≡◌, refl,
  ◌⊎◌, str_eq, ◌==◌, arith, if◌then◌else◌, on_option,
}
use aip_k8s.Api.Request.{AgentRequest}
use aip_k8s.Controller.Types.{AuditRecord}
use aip_k8s.Effects.{Outcome, ok, err, continue, pure, invoke, attempt, wrap_error, ◌>>=◌}
use aip_k8s.Collection.{
  Worker, Call, Trace, M, Page, list_requests, list_audits, wait_limiter, is_terminal, now,
  list_requests_m, list_audits_m, delete_audits, audit_pages, delete_failed, valve_closed,
  request_deleted, collect, too_young, process_request, process_items, request_pages, scan, run,
}

module _ (w : Worker) where
  -- What the API server documents of a list in pages: each page leaves less to list, `left` counts
  -- how much, and the last page has no token.
  pub record ListsEnd (requests_left : String → ℕ) (audits_left : String → ℕ) : Type 0 where
    pub requests_fall :
        (t : Trace) (limit : ℕ) (token : String) (page : Page AgentRequest)
        → w.on_list_requests t limit token ≡ ok page
        → (str_eq page.continue_token "" ≡ true)
          ⊎ (requests_left page.continue_token < requests_left token)
    pub audits_fall :
        (t : Trace) (ns name : String) (limit : ℕ) (token : String) (page : Page AuditRecord)
        → w.on_list_audits t ns name limit token ≡ ok page
        → (str_eq page.continue_token "" ≡ true)
          ⊎ (audits_left page.continue_token < audits_left token)

  -- It did not run out of fuel: it returned a value or the API's error.
  abbrev pub IsEnded : {A : Type 0} → Outcome (Option A) → Type 0
  IsEnded (ok (some a)) = Unit
  IsEnded (ok none) = ⊥
  IsEnded (err e) = Unit

  record Ends {A : Type 0} (m : M (Option A)) : Type 0 where
    end : (t : Trace) → IsEnded (m t).0

  Ends-some : {A : Type 0} (a : A) → Ends (pure (some a))
  unfolding pure
  Ends-some a = record { end = λ t. tt }

  Ends-if :
      {A : Type 0} (b : Bool) {m k : M (Option A)}
      → (b ≡ true → Ends m)
      → (b ≡ false → Ends k)
      → Ends (if b then m else k)
  Ends-if true p q = p refl
  Ends-if false p q = q refl

  -- A step that gives no option, whatever it answers.
  Ends-bind :
      {A B : Type 0} (m : M A) {f : A → M (Option B)} → ((a : A) → Ends (f a)) → Ends (m >>= f)
  unfolding ◌>>=◌
  Ends-bind {A} {B} m {f} k = record { end = λ t. answered (m t).0 (m t).1 }
    where
      answered : (r : Outcome A) (t : Trace) → IsEnded (continue r f t).0
      answered (ok a) t = (k a).end t
      answered (err e) t = tt

  -- A loop before the rest: both end.
  Ends-then :
      {A B : Type 0} (m : M (Option A)) {f : A → M (Option B)}
      → Ends m
      → ((a : A) → Ends (f a))
      → Ends (m >>= λ r. on_option r (pure none) f)
  unfolding ◌>>=◌
  Ends-then {A} {B} m {f} p k = record { end = λ t. answered (m t).0 (m t).1 (p.end t) }
    where
      answered :
          (r : Outcome (Option A)) (t : Trace)
          → IsEnded r
          → IsEnded (continue r (λ o. on_option o (pure none) f) t).0
      answered (ok (some a)) t e = (k a).end t
      answered (ok none) t e = absurd e
      answered (err x) t e = tt

  Ends-call :
      {A B : Type 0} (c : Call) (answer : Trace → Outcome A) (m : String) {f : A → M (Option B)}
      → ((t : Trace) (a : A) → answer t ≡ ok a → Ends (f a))
      → Ends (attempt (invoke c answer) >>= λ r. wrap_error m r >>= f)
  unfolding wrap_error ◌>>=◌
  Ends-call {A} c answer m {f} k = record { end = λ t. answered t (answer t) refl }
    where
      answered :
          (t : Trace) (r : Outcome A) → answer t ≡ r → IsEnded ((wrap_error m r >>= f) (c ∷ t)).0
      answered t (ok a) e = (k t a e).end (c ∷ t)
      answered t (err x) e = tt

  module _ {requests_left audits_left : String → ℕ}
      (lists : ListsEnd requests_left audits_left) where
    audit_pages-Ends :
        (fuel : ℕ) (ar : AgentRequest) (token : String)
        → audits_left token < fuel
        → Ends (audit_pages w fuel ar token)
    unfolding audit_pages list_audits_m
    audit_pages-Ends zero ar token h = absurd (omega arith)
    audit_pages-Ends (suc fuel) ar token h =
        Ends-call (list_audits _ _ _ token) _ _ (λ t page listed.
          Ends-bind (delete_audits w page.items) (λ _.
            Ends-if (str_eq page.continue_token "") (λ last. Ends-some tt)
              (λ more.
                audit_pages-Ends fuel ar page.continue_token
                  (fewer (lists.audits_fall t _ _ _ token page listed) more))))
      where
        fewer : {b : Bool} {n : ℕ} → (b ≡ true) ⊎ (n < audits_left token) → b ≡ false → n < fuel
        fewer p more = ground (arith, h)

    module _ (fuel : ℕ) (enough : audits_left "" < fuel) where
      collect-Ends : (ar : AgentRequest) → Ends (collect w fuel ar)
      unfolding collect request_deleted
      collect-Ends ar = Ends-call wait_limiter _ _ (λ t _ waited.
          Ends-then (audit_pages w fuel ar "") (audit_pages-Ends fuel ar "" enough) (λ _.
            Ends-bind _ (λ answer.
              Ends-if (delete_failed answer) (λ e. Ends-some _)
                (λ e. Ends-bind _ (λ _. Ends-some _)))))

      process_request-Ends : (ar : AgentRequest) → Ends (process_request w fuel ar)
      unfolding process_request
      process_request-Ends ar =
          Ends-if (not (is_terminal ar.status.phase)) (λ e. Ends-some _)
            (λ ended. Ends-bind (now w) (λ time.
              Ends-if (too_young w ar time) (λ e. Ends-some _)
                (λ aged.
                  Ends-if w.config.dry_run (λ e. Ends-bind _ (λ _. Ends-some _))
                    (λ wet. collect-Ends ar))))

      process_items-Ends : (items : List AgentRequest) → Ends (process_items w fuel items)
      unfolding process_items
      process_items-Ends [] = Ends-some tt
      process_items-Ends (ar ∷ items) = Ends-bind _ (λ _.
          Ends-then (process_request w fuel ar) (process_request-Ends ar)
            (λ _. process_items-Ends items))

      request_pages-Ends :
          (rounds : ℕ) (token : String)
          → requests_left token < rounds
          → Ends (request_pages w rounds fuel token)
      unfolding request_pages list_requests_m
      request_pages-Ends zero token h = absurd (omega arith)
      request_pages-Ends (suc rounds) token h =
          Ends-call (list_requests _ token) _ _ (λ t page listed.
            Ends-then (process_items w fuel page.items) (process_items-Ends page.items) (λ _.
              Ends-if (str_eq page.continue_token "") (λ last. Ends-some tt)
                (λ more.
                  request_pages-Ends rounds page.continue_token
                    (fewer (lists.requests_fall t _ token page listed) more))))
        where
          fewer :
              {b : Bool} {n : ℕ} → (b ≡ true) ⊎ (n < requests_left token) → b ≡ false → n < rounds
          fewer p more = ground (arith, h)

      -- Where every page that the API server lists leaves less to list: with more rounds than the
      -- requests, and more fuel than the audit records, that are left to list at the start, a run
      -- ends, with a result or with an error of the API server or of the rate limiter.
      pub run-IsEnded :
          (rounds : ℕ) → requests_left "" < rounds → (t : Trace) → IsEnded (run w rounds fuel t).0
      unfolding run scan list_requests_m
      run-IsEnded rounds h t = ended.end t
        where
          ended : Ends (if w.config.hard_ttl == 0 then pure (some tt) else scan w rounds fuel)
          ended =
              Ends-if (w.config.hard_ttl == 0) (λ e. Ends-some tt)
                (λ limited. Ends-call _ _ _ (λ t counted e.
                  Ends-if (valve_closed w counted) (λ e. Ends-bind _ (λ _. Ends-some tt))
                    (λ e. request_pages-Ends rounds "" h)))
