-- ===== src/Gateway/Roles.antt =====
-- `roleConfig`, `requireRole` and `requireAnyRole` of cmd/gateway/oidc.go. A role check returns the
-- message of the 403 that it writes, `none` where the caller has the role.
use aip_k8s.Prelude.{
  String, Bool, false, ◌&&◌, ◌||◌, Option, none, some, List, [], ◌∷◌, str_eq, str_append, is_empty,
  contains, if◌then◌else◌,
}

-- A map[string]bool with `true` values is the list of its keys.
pub record RoleConfig : Type 0 where
  pub agent_subs : List String
  pub reviewer_subs : List String
  pub admin_subs : List String
  pub agent_groups : List String
  pub reviewer_groups : List String
  pub admin_groups : List String

-- `newRoleConfig`: the parts between commas, trimmed, without the empty ones; `split` and `trim` stand
-- for strings.SplitSeq(s, ",") and strings.TrimSpace.
module _ (split : String → List String) (trim : String → String) where
  trimmed : List String → List String
  trimmed [] = []
  trimmed (v ∷ vs) = let rest = trimmed vs in if str_eq (trim v) "" then rest else trim v ∷ rest

  pub new_role_config : String → String → String → String → String → String → RoleConfig
  new_role_config agents reviewers admins agent_groups reviewer_groups admin_groups = record {
    agent_subs = trimmed (split agents);
    reviewer_subs = trimmed (split reviewers);
    admin_subs = trimmed (split admins);
    agent_groups = trimmed (split agent_groups);
    reviewer_groups = trimmed (split reviewer_groups);
    admin_groups = trimmed (split admin_groups);
  }

pub open_mode : RoleConfig → Bool
open_mode rc =
    is_empty rc.agent_subs
    && is_empty rc.reviewer_subs
    && is_empty rc.admin_subs
    && is_empty rc.agent_groups
    && is_empty rc.reviewer_groups
    && is_empty rc.admin_groups

-- `for _, g := range groups { if known[g] { return true } }`
pub any_group : List String → List String → Bool
any_group known [] = false
any_group known (g ∷ groups) = contains known g || any_group known groups

pub is_agent : RoleConfig → String → List String → Bool
is_agent rc sub groups =
    open_mode rc || contains rc.agent_subs sub || any_group rc.agent_groups groups

pub is_reviewer : RoleConfig → String → List String → Bool
is_reviewer rc sub groups =
    open_mode rc || contains rc.reviewer_subs sub || any_group rc.reviewer_groups groups

pub is_admin : RoleConfig → String → List String → Bool
is_admin rc sub groups =
    open_mode rc || contains rc.admin_subs sub || any_group rc.admin_groups groups

-- The constants roleAgent, roleReviewer and roleAdmin.
pub data Role : Type 0 where
  agent reviewer admin : Role

pub has_role : RoleConfig → Role → String → List String → Bool
has_role rc agent = is_agent rc
has_role rc reviewer = is_reviewer rc
has_role rc admin = is_admin rc

pub role_name : Role → String
role_name agent = "agent"
role_name reviewer = "reviewer"
role_name admin = "admin"

-- `requireRole` is called with the three constants only.
unfoldable pub require_role : RoleConfig → Role → String → List String → Option String
require_role rc role sub groups =
    if has_role rc role sub groups
    then none
    else some (str_append (role_name role) " role required")

-- strings.Join(roles, " or ")
joined : List Role → String
joined [] = ""
joined (r ∷ []) = role_name r
joined (r ∷ q ∷ roles) = str_append (role_name r) (str_append " or " (joined (q ∷ roles)))

has_any_role : RoleConfig → List Role → String → List String → Bool
has_any_role rc [] sub groups = false
has_any_role rc (r ∷ roles) sub groups =
    has_role rc r sub groups || has_any_role rc roles sub groups

pub require_any_role : RoleConfig → List Role → String → List String → Option String
require_any_role rc roles sub groups =
    if has_any_role rc roles sub groups
    then none
    else some (str_append (joined roles) " role required")
