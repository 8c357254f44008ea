-- ===== src/Gateway/Registrations/Subjects.antt =====
-- A registration that is found for a subject passes the check of the subject.
use aip_k8s.Prelude.{
  String, true, false, not, Option, none, some, List, [], ◌∷◌, ◌≡◌, refl, ◌||◌, ◌⊎◌, inl, inr,
  str_eq, eq_iff, contains, is_empty, is_some, lookup, arith, on_option, if◌then◌else◌, Bool-cases,
  Option-cases,
}
use aip_k8s.Gateway.Registrations.{
  Oidc, Registration, RegistrationCache, Update, validate_oidc_identity, lists_subject,
  has_subjects, scan, direct, scan_all, get_for_subject, watch, new_registration_cache,
}
use aip_k8s.Gateway.Registrations.Cached.{IsCoherent, watch-IsCoherent}

-- The issuer that a registration names.
abbrev pub issuer_of : Registration → String
issuer_of reg = on_option reg.oidc "" (λ o. o.issuer)

-- The check of the identity passes for the subject, at the registered issuer.
abbrev pub Passes : Registration → String → Type 0
Passes reg sub = validate_oidc_identity reg.agent_identity reg.oidc (issuer_of reg) sub ≡ none

contains-not_empty : (xs : List String) (s : String) → contains xs s ≡ true → is_empty xs ≡ false
contains-not_empty [] s h = absurd (cc h)
contains-not_empty (x ∷ xs) s h = refl

module _ (sub : String) where
  validated :
      (agent : String) (oidc : Option Oidc)
      → (on_option oidc false (λ o. contains o.allowed_subjects sub) ≡ true)
        ⊎ ((on_option oidc false (λ o. not (is_empty o.allowed_subjects)) ≡ false)
            × ((str_eq sub "" || str_eq sub agent) ≡ true))
      → validate_oidc_identity agent oidc (on_option oidc "" (λ o. o.issuer)) sub ≡ none
  unfolding validate_oidc_identity
  validated agent none h = refl
  validated agent (some o) (inl listed) =
      ground
        (arith, eq_iff o.issuer o.issuer, contains-not_empty o.allowed_subjects sub listed, listed)
  validated agent (some o) (inr (open_to_all, own)) =
      ground (arith, eq_iff o.issuer o.issuer, open_to_all, own)

  lists-Passes : (reg : Registration) → lists_subject reg sub ≡ true → Passes reg sub
  unfolding lists_subject
  lists-Passes reg h = validated reg.agent_identity reg.oidc (inl h)

  -- The scan answers with its match so far, or with a registration that lists the subject.
  scan-lists :
      (regs : List (String × Registration)) (found : Option Registration) (reg : Registration)
      → scan sub found regs ≡ some reg
      → (found ≡ some reg) ⊎ (lists_subject reg sub ≡ true)
  unfolding scan
  scan-lists [] found reg h = inl h
  scan-lists ((agent, r) ∷ regs) found reg h = elim (Bool-cases (lists_subject r sub)) [
    | inr other ↦ scan-lists regs found reg (rw other at h)
    | inl listed ↦ second listed (scan-lists regs (some r) reg) found (rw listed at h)
  ]
    where
      second :
          lists_subject r sub ≡ true
          → (scan sub (some r) regs ≡ some reg
              → (some r ≡ some reg) ⊎ (lists_subject reg sub ≡ true))
          → (f : Option Registration)
          → (if is_some f then none else scan sub (some r) regs) ≡ some reg
          → (f ≡ some reg) ⊎ (lists_subject reg sub ≡ true)
      second listed rest (some g) e = absurd (cc e)
      second listed rest none e = elim (rest e) [
        | inl same ↦ inr (let q : r ≡ reg = cc in rw (← q) listed)
        | inr other ↦ inr other
      ]

  scan_all-Passes :
      (c : RegistrationCache) (reg : Registration) → scan_all c sub ≡ some reg → Passes reg sub
  unfolding scan_all
  scan_all-Passes c reg h = elim (Bool-cases (str_eq sub "")) [
    | inl blank ↦ absurd (cc (rw blank at h))
    | inr given ↦ elim (scan-lists c.by_agent none reg (rw given at h)) [
      | inl impossible ↦ absurd (cc impossible)
      | inr listed ↦ lists-Passes reg listed
    ]
  ]

  direct-Passes :
      (agent : String) (r reg : Registration)
      → r.agent_identity ≡ agent
      → direct agent sub r ≡ some reg
      → Passes reg sub
  unfolding direct
  direct-Passes agent r reg named h = elim (Bool-cases (has_subjects r)) [
    | inl listing ↦ elim (Bool-cases (lists_subject r sub)) [
      | inl listed ↦
          let e : some r ≡ some reg = rw listed at (rw listing at h) in
          let q : r ≡ reg = cc in rw (← q) (lists-Passes r listed)
      | inr missing ↦ absurd (cc (rw missing at (rw listing at h)))
    ]
    | inr free ↦ elim (Bool-cases (str_eq sub "" || str_eq sub agent)) [
      | inl own ↦
          let e : some r ≡ some reg = rw own at (rw free at h) in
          let q : r ≡ reg = cc in
          rw (← q)
            (validated r.agent_identity r.oidc (inr (unfold has_subjects in free, rw named own)))
      | inr stranger ↦ absurd (cc (rw stranger at (rw free at h)))
    ]
  ]

  found-Passes :
      (c : RegistrationCache) (agent : String) (reg : Registration)
      → IsCoherent c
      → get_for_subject c agent sub ≡ some reg
      → Passes reg sub
  unfolding get_for_subject
  found-Passes c agent reg v h = elim (Bool-cases (not (str_eq agent ""))) [
    | inr unnamed ↦ scan_all-Passes c reg (rw unnamed at h)
    | inl named ↦ elim (Option-cases (lookup agent c.by_agent)) [
      | inl missing ↦ scan_all-Passes c reg (rw missing at (rw named at h))
      | inr (r, held) ↦
          direct-Passes agent r reg (v.keyed agent r held) (rw held at (rw named at h))
    ]
  ]

-- After any series of lists and watch events on an empty cache: a registration that is found for a
-- claimed agent and a subject passes the check of its OIDC settings for this subject, where the token
-- is from the registered issuer.
pub get_for_subject-Passes :
    (id secret : String) (updates : List Update) (agent sub : String) (reg : Registration)
    → get_for_subject (watch updates (new_registration_cache id secret)) agent sub ≡ some reg
    → Passes reg sub
get_for_subject-Passes id secret updates agent sub reg h =
    found-Passes sub _ agent reg (watch-IsCoherent id secret updates) h
