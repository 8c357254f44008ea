-- ===== src/TrustProfile/Cluster.antt =====
-- The surroundings of the AgentTrustProfile reconciler: its calls, and how they are answered.
use aip_k8s.Prelude.{ℕ, String, Bool, Option, List, str_append}
use aip_k8s.Prelude.Chars.{Char, text_of, cut, hex}
use aip_k8s.Api.Naming.{profile_name_for_agent}
use aip_k8s.Api.Request.{Condition, AgentRequest}
use aip_k8s.Api.Trust.{GraduationPolicy, TrustProfile}
use aip_k8s.Controller.Types.{AuditRecord, Reader}
use aip_k8s.Effects.{Outcome, ok, Act, invoke}
use aip_k8s.TrustProfile.{Float, Summary, VerdictEntry}

module _ (F : Type 0) where
  pub data Call : Type 0 where
    read_clock : Call
    get_profile : Reader → String → String → Call  -- a namespace and a name
    get_summary : Reader → String → String → Call
    get_policy : String → Call
    list_registrations : String → Option String → Call  -- with the index key, if it is used
    list_requests : String → Option String → Call  -- with the label, if it is used
    list_audits : String → String → Call
    create_profile : TrustProfile F → Call
    patch_profile : TrustProfile F → TrustProfile F → Call
    create_audit : AuditRecord → Call

  abbrev pub Trace : Type 0
  Trace = List Call

  pub record Cluster : Type 0 where
    pub float : Float F
    pub zero_float : F
    pub parse_duration : String → Option ℕ
    pub sort_newest : List VerdictEntry → List VerdictEntry
    pub is_status_condition_true : List Condition → String → Bool
    pub to_lower : Char → Char  -- unicode.ToLower
    pub sha256 : String → List ℕ
    pub controller_reference : TrustProfile F → AuditRecord → Option AuditRecord
    pub clock : Trace → ℕ
    pub on_get_profile : Trace → Reader → String → String → Outcome (TrustProfile F)
    pub on_get_summary : Trace → Reader → String → String → Outcome (Summary F)
    pub on_get_policy : Trace → String → Outcome (GraduationPolicy F)
    -- the agentIdentity of each
    pub on_list_registrations : Trace → String → Option String → Outcome (List String)
    pub on_list_requests : Trace → String → Option String → Outcome (List AgentRequest)
    pub on_list_audits : Trace → String → String → Outcome (List AuditRecord)
    pub on_create_profile : Trace → TrustProfile F → Outcome (Unit {0})
    pub on_patch_profile : Trace → TrustProfile F → TrustProfile F → Outcome (Unit {0})
    pub on_create_audit : Trace → AuditRecord → Outcome (Unit {0})

  abbrev pub M : Type 0 → Type 0
  M = Act Call

module _ {F : Type 0} (c : Cluster F) where
  pub profile_name : String → String
  profile_name = profile_name_for_agent c.to_lower c.sha256

  -- `summaryNameForAgent`
  pub summary_name : String → String
  summary_name = profile_name_for_agent c.to_lower c.sha256

  -- `deterministicAuditName`
  pub audit_name : String → String → String → String → String
  audit_name resource event a b = text_of (
      cut 53 (
        hex (
          c.sha256 (
            str_append resource (
              str_append "|"
                (str_append event (str_append "|" (str_append a (str_append "|" b)))))))))

  unfoldable pub now : M F ℕ
  now = invoke read_clock (λ t. ok (c.clock t))

  unfoldable pub get_profile_m : Reader → String → String → M F (TrustProfile F)
  get_profile_m r ns n = invoke (get_profile r ns n) (λ t. c.on_get_profile t r ns n)

  unfoldable pub get_summary_m : Reader → String → String → M F (Summary F)
  get_summary_m r ns n = invoke (get_summary r ns n) (λ t. c.on_get_summary t r ns n)

  unfoldable pub list_registrations_m : String → Option String → M F (List String)
  list_registrations_m ns key =
      invoke (list_registrations ns key) (λ t. c.on_list_registrations t ns key)

  unfoldable pub list_requests_m : String → Option String → M F (List AgentRequest)
  list_requests_m ns label = invoke (list_requests ns label) (λ t. c.on_list_requests t ns label)
