-- ===== src/Collection/Safe.antt =====
-- What the collector deletes.
use aip_k8s.Prelude.{
  ℕ, zero, suc, ◌+◌, ◌≤◌, String, true, false, not, none, some, List, [], ◌∷◌, ◌≡◌, refl, ◌⊎◌, inl,
  inr, str_eq, ltb, ◌==◌, arith, if◌then◌else◌,
}
use aip_k8s.Api.Request.{AgentRequest}
use aip_k8s.Controller.Types.{AuditRecord}
use aip_k8s.Effects.{Outcome, ok, err, pure, invoke, attempt, wrap_error, ◌>>=◌}
use aip_k8s.Effects.Logic.{
  Hist, Keeps, Keeps-pure, Keeps-raise, Keeps-invoke, Keeps-attempt, Keeps-bind, Keeps-then,
  Keeps-when, Keeps-option,
}
use aip_k8s.Collection.{
  Worker, Call, Trace, M, Page, read_clock, list_requests, list_audits, wait_limiter, delete_audit,
  delete_request, is_terminal, tick, now, list_requests_m, list_audits_m, delete_audits,
  audit_pages, delete_failed, valve_closed, request_deleted, collect, too_young, process_request,
  process_items, request_pages, scan, run, skipped_inc, deleted_inc, evaluated_inc,
}

abbrev pub Among : {A : Type 0} → List A → A → Type 0
Among [] x = ⊥
Among (y ∷ ys) x = (y ≡ x) ⊎ Among ys x

module _ (w : Worker) where
  -- A terminal request that the clock has shown to be as old as the TTL, in a run that is no dry
  -- run and has a TTL.
  pub record IsExpired (ar : AgentRequest) : Type 0 where
    pub ended : is_terminal ar.status.phase ≡ true
    pub read_at : Trace
    pub old : ar.created + w.config.hard_ttl ≤ w.clock read_at
    pub wet : w.config.dry_run ≡ false
    pub limited : (w.config.hard_ttl == 0) ≡ false

  -- The record was listed for the request.
  abbrev pub IsRecordOf : AuditRecord → AgentRequest → Type 0
  IsRecordOf a ar =
      (t : Trace) × (token : String) × (page : Page AuditRecord) × (w.on_list_audits t ar.namespace
          ar.name w.config.page_size token
        ≡ ok page)
      × Among page.items a

  -- An expired request is deleted, or an audit record that was listed for one.
  abbrev pub Deletes : Call → Trace → Type 0
  Deletes (delete_request ar) t = IsExpired ar
  Deletes (delete_audit a) t = (ar : AgentRequest) × IsExpired ar × IsRecordOf a ar
  Deletes _ t = Unit

  abbrev Safe : {A : Type 0} → M A → Type 0
  Safe m = Keeps Deletes (λ _. Unit) m

  plain :
      {A : Type 0} (c : Call) (f : Trace → Outcome A)
      → ((t : Trace) → Deletes c t)
      → Safe (invoke c f)
  plain c f p = Keeps-invoke c f (λ t e. p t) (λ t e. tt)

  wrap-Safe : {A : Type 0} (m : String) (answer : Outcome A) → Safe (wrap_error m answer)
  unfolding wrap_error
  wrap-Safe m (ok a) = Keeps-pure a
  wrap-Safe m (err e) = Keeps-raise _

  -- A call with its error wrapped; what it answered is known of its value.
  call-Safe :
      {A B : Type 0} (c : Call) (answer : Trace → Outcome A) (m : String) {f : A → M B}
      → ((t : Trace) → Deletes c t)
      → ((t : Trace) (a : A) → answer t ≡ ok a → Safe (f a))
      → Safe (attempt (invoke c answer) >>= λ r. wrap_error m r >>= f)
  unfolding wrap_error ◌>>=◌
  call-Safe {A} c answer m {f} p k = record { keep = λ t h e. answered t (answer t) refl (p t, h) }
    where
      answered :
          (t : Trace) (r : Outcome A)
          → answer t ≡ r
          → Hist Deletes (c ∷ t)
          → Hist Deletes ((wrap_error m r >>= f) (c ∷ t)).1 × Unit {0}
      answered t (ok a) e h = (k t a e).keep (c ∷ t) h tt
      answered t (err x) e h = (h, tt)

  now-Safe : {B : Type 0} (f : ℕ → M B) → ((t : Trace) → Safe (f (w.clock t))) → Safe (now w >>= f)
  unfolding now ◌>>=◌
  now-Safe f k = record { keep = λ t h e. (k t).keep (read_clock ∷ t) (tt, h) tt }

  module _ (ar : AgentRequest) (old : IsExpired ar) where
    delete_audits-Safe :
        (items : List AuditRecord)
        → ((a : AuditRecord) → Among items a → IsRecordOf a ar)
        → Safe (delete_audits w items)
    unfolding delete_audits
    delete_audits-Safe [] listed = Keeps-pure tt
    delete_audits-Safe (a ∷ items) listed =
        Keeps-then (Keeps-attempt (plain (delete_audit a) _ (λ t. (ar, old, listed a (inl refl)))))
          (delete_audits-Safe items (λ b among. listed b (inr among)))

    audit_pages-Safe : (fuel : ℕ) (token : String) → Safe (audit_pages w fuel ar token)
    unfolding audit_pages list_audits_m
    audit_pages-Safe zero token = Keeps-pure none
    audit_pages-Safe (suc fuel) token =
        call-Safe (list_audits _ _ _ token) _ _ (λ t. tt)
          (λ t page listed.
            Keeps-then (delete_audits-Safe page.items (λ a among. (t, token, page, listed, among)))
              (Keeps-when (str_eq page.continue_token "") (λ e. Keeps-pure _)
                (λ e. audit_pages-Safe fuel page.continue_token)))

    request_deleted-Safe : (answer : Outcome (Unit {0})) → Safe (request_deleted w answer)
    unfolding request_deleted tick
    request_deleted-Safe answer =
        Keeps-when (delete_failed answer) (λ e. Keeps-pure _)
          (λ e. Keeps-then (plain deleted_inc _ (λ t. tt)) (Keeps-pure _))

    collect-Safe : (fuel : ℕ) → Safe (collect w fuel ar)
    unfolding collect
    collect-Safe fuel =
        call-Safe wait_limiter _ _ (λ t. tt)
          (λ t _ waited. Keeps-bind (audit_pages-Safe fuel "") (λ audits.
            Keeps-option audits (Keeps-pure none) (λ _.
              Keeps-bind (Keeps-attempt (plain (delete_request ar) _ (λ t. old)))
                request_deleted-Safe)))

  module _ (limited : (w.config.hard_ttl == 0) ≡ false) where
    process_request-Safe : (fuel : ℕ) (ar : AgentRequest) → Safe (process_request w fuel ar)
    unfolding process_request too_young tick
    process_request-Safe fuel ar =
        Keeps-when (not (is_terminal ar.status.phase)) (λ e. Keeps-pure _)
          (λ ended. now-Safe _ (λ t.
            Keeps-when (ltb (w.clock t) (ar.created + w.config.hard_ttl)) (λ e. Keeps-pure _)
              (λ aged.
                Keeps-when w.config.dry_run
                  (λ e. Keeps-then (plain (skipped_inc _) _ (λ t. tt)) (Keeps-pure _))
                  (λ wet.
                    collect-Safe ar
                      (record {
                        ended = ground (arith, ended);
                        read_at = t;
                        old = ground (arith, aged);
                        wet = wet;
                        limited = limited;
                      })
                      fuel))))

    process_items-Safe : (fuel : ℕ) (items : List AgentRequest) → Safe (process_items w fuel items)
    unfolding process_items tick
    process_items-Safe fuel [] = Keeps-pure _
    process_items-Safe fuel (ar ∷ items) = Keeps-then (plain evaluated_inc _ (λ t. tt)) (
        Keeps-bind (process_request-Safe fuel ar) (λ processed.
          Keeps-option processed (Keeps-pure none) (λ _. process_items-Safe fuel items)))

    request_pages-Safe :
        (rounds fuel : ℕ) (token : String) → Safe (request_pages w rounds fuel token)
    unfolding request_pages list_requests_m
    request_pages-Safe zero fuel token = Keeps-pure none
    request_pages-Safe (suc rounds) fuel token =
        call-Safe (list_requests _ token) _ _ (λ t. tt)
          (λ t page listed. Keeps-bind (process_items-Safe fuel page.items) (λ processed.
            Keeps-option processed (Keeps-pure none) (λ _.
              Keeps-when (str_eq page.continue_token "") (λ e. Keeps-pure _)
                (λ e. request_pages-Safe rounds fuel page.continue_token))))

    scan-Safe : (rounds fuel : ℕ) → Safe (scan w rounds fuel)
    unfolding scan list_requests_m tick
    scan-Safe rounds fuel =
        call-Safe (list_requests _ "") _ _ (λ t. tt)
          (λ t counted e.
            Keeps-when (valve_closed w counted)
              (λ e. Keeps-then (plain (skipped_inc _) _ (λ t. tt)) (Keeps-pure _))
              (λ e. request_pages-Safe rounds fuel ""))

  -- In every run, whatever the API server answers: a request is deleted only if it is Completed,
  -- Failed, Denied or Expired, the run has a TTL and is no dry run, and a reading of the clock had
  -- shown that the request is at least as old as the TTL; an audit record is deleted only if it
  -- was listed for such a request.
  pub run-Deletes : (rounds fuel : ℕ) → Hist Deletes (run w rounds fuel []).1
  unfolding run
  run-Deletes rounds fuel = (safe.keep [] tt tt).0
    where
      safe : Safe (if w.config.hard_ttl == 0 then pure (some tt) else scan w rounds fuel)
      safe =
          Keeps-when (w.config.hard_ttl == 0) (λ e. Keeps-pure _)
            (λ limited. scan-Safe limited rounds fuel)
