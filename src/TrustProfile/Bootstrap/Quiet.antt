-- ===== src/TrustProfile/Bootstrap/Quiet.antt =====
-- The calls of `getOrBootstrapProfile` meet every predicate that holds for these kinds of calls.
use aip_k8s.Prelude.{String, not, Option, none, some, List, str_eq, is_empty}
use aip_k8s.Api.Trust.{TrustProfile}
use aip_k8s.Controller.Types.{Reader, direct}
use aip_k8s.Effects.{Outcome, ok, err, is_not_found, is_already_exists, invoke, wrap_error}
use aip_k8s.Effects.Logic.{
  Keeps, Keeps-pure, Keeps-raise, Keeps-invoke, Keeps-attempt, Keeps-bind, Keeps-if,
}
use aip_k8s.TrustProfile.{Summary}
use aip_k8s.TrustProfile.Cluster.{
  Call, Trace, Cluster, M, get_profile, get_summary, list_registrations, list_requests,
  create_profile, get_profile_m, get_summary_m, list_registrations_m, list_requests_m,
}
use aip_k8s.TrustProfile.Bootstrap.{
  registered, from_requests, from_summary, bootstrap_identity, profile_created, bootstrapped,
  profile_read, get_or_bootstrap_profile,
}

module _ {F : Type 0} (P : Call F → Trace F → Type 0) where
  pub record Reads : Type 0 where
    pub profiles : (r : Reader) (ns n : String) (t : Trace F) → P (get_profile r ns n) t
    pub summaries : (r : Reader) (ns n : String) (t : Trace F) → P (get_summary r ns n) t
    pub registrations :
        (ns : String) (key : Option String) (t : Trace F) → P (list_registrations ns key) t
    pub requests :
        (ns : String) (label : Option String) (t : Trace F) → P (list_requests ns label) t
    pub creations : (p : TrustProfile F) (t : Trace F) → P (create_profile p) t

module _ {F : Type 0} (c : Cluster F) {P : Call F → Trace F → Type 0} (reads : Reads P) where
  abbrev Safe : {A : Type 0} → M F A → Type 0
  Safe m = Keeps P (λ _. Unit) m

  plain :
      {A : Type 0} (call : Call F) (f : Trace F → Outcome A)
      → ((t : Trace F) → P call t)
      → Safe (invoke call f)
  plain call f p = Keeps-invoke call f (λ t e. p t) (λ t e. tt)

  wrap-Safe : {A : Type 0} (m : String) (answer : Outcome A) → Safe (wrap_error m answer)
  unfolding wrap_error
  wrap-Safe m (ok a) = Keeps-pure a
  wrap-Safe m (err e) = Keeps-raise _

  from_summary-Safe :
      (ns name : String) (answer : Outcome (Summary F)) → Safe (from_summary c ns name answer)
  unfolding from_summary from_requests list_requests_m
  from_summary-Safe ns name (ok summary) = Keeps-pure _
  from_summary-Safe ns name (err e) =
      Keeps-if (is_not_found e)
        (Keeps-bind (plain (list_requests _ _) _ (reads.requests _ _)) (λ labelled.
          Keeps-if (not (is_empty labelled)) (Keeps-pure _)
            (Keeps-bind (plain (list_requests _ _) _ (reads.requests _ _)) (λ all. Keeps-pure _))))
        (Keeps-raise e)

  registered-Safe :
      (ns name : String) (answer : Outcome (List String)) → Safe (registered c ns name answer)
  unfolding registered list_registrations_m
  registered-Safe ns name (ok agents) = Keeps-pure _
  registered-Safe ns name (err e) =
      Keeps-bind (Keeps-attempt (plain (list_registrations _ _) _ (reads.registrations _ _)))
        (λ scanned. Keeps-bind (wrap-Safe _ scanned) (λ agents. Keeps-pure _))

  bootstrap_identity-Safe : (ns name : String) → Safe (bootstrap_identity c ns name)
  unfolding bootstrap_identity list_registrations_m get_summary_m
  bootstrap_identity-Safe ns name =
      Keeps-bind (Keeps-attempt (plain (list_registrations _ _) _ (reads.registrations _ _)))
        (λ indexed. Keeps-bind (registered-Safe ns name indexed) (λ agent.
          Keeps-if (not (str_eq agent "")) (Keeps-pure _) (
            Keeps-bind (Keeps-attempt (plain (get_summary _ _ _) _ (reads.summaries _ _ _)))
              (from_summary-Safe ns name))))

  get_direct-Safe : (ns name : String) → Safe (get_profile_m c direct ns name)
  unfolding get_profile_m
  get_direct-Safe ns name = plain (get_profile _ _ _) _ (reads.profiles _ _ _)

  bootstrapped-Safe :
      (ns name : String) (agent : Option String) → Safe (bootstrapped c ns name agent)
  unfolding bootstrapped profile_created
  bootstrapped-Safe ns name none = Keeps-pure _
  bootstrapped-Safe ns name (some agent) =
      Keeps-bind (Keeps-attempt (plain (create_profile _) _ (reads.creations _)))
        (λ created. Keeps-bind (created_read created) (λ profile. Keeps-pure _))
    where
      created_read : (answer : Outcome (Unit {0})) → Safe (profile_created c ns name answer)
      created_read (ok _) = get_direct-Safe ns name
      created_read (err e) =
          Keeps-if (is_already_exists e) (get_direct-Safe ns name) (Keeps-raise e)

  profile_read-Safe :
      (ns name : String) (answer : Outcome (TrustProfile F)) → Safe (profile_read c ns name answer)
  unfolding profile_read
  profile_read-Safe ns name (ok profile) = Keeps-pure _
  profile_read-Safe ns name (err e) =
      Keeps-if (is_not_found e)
        (Keeps-bind (bootstrap_identity-Safe ns name) (bootstrapped-Safe ns name)) (Keeps-raise e)

  pub get_or_bootstrap_profile-Quiet :
      (ns name : String) → Keeps P (λ _. Unit) (get_or_bootstrap_profile c ns name)
  unfolding get_or_bootstrap_profile get_profile_m
  get_or_bootstrap_profile-Quiet ns name =
      Keeps-bind (Keeps-attempt (plain (get_profile _ _ _) _ (reads.profiles _ _ _)))
        (profile_read-Safe ns name)
