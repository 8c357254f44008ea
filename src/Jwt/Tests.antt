-- ===== src/Jwt/Tests.antt =====
-- A key pair of two equal numbers, and tokens that are their claims with the signing key.
use aip_k8s.Prelude.{
  ℕ, ◌<◌, ◌==◌, ◌&&◌, String, Bool, true, false, ◌≡◌, refl, sym, ap, ◌∙◌, subst, eq_iff, none, some,
  ltb, str_eq, arith, if◌then◌else◌,
}
use aip_k8s.Effects.{Outcome, ok, err, other}
use aip_k8s.Jwt.{Claims, Library, Manager, mint_token, claims_of, validate_token, reload_key}
use aip_k8s.Jwt.Roundtrip.{Documented, mint_token-validate_token}

abbrev accepts : ℕ → ℕ → String → Claims × ℕ → Bool
accepts key now issuer (c, k) = key == k && str_eq c.issuer issuer && ltb now c.expires_at

abbrev sample_library : Library
sample_library = record {
  Private = ℕ;
  Public = ℕ;
  Bytes = ℕ;
  Block = ℕ;
  Token = Claims × ℕ;
  public_of = λ k. k;
  public_eq = ◌==◌;
  pem_decode = λ b. some b;
  parse_pkcs8 = λ b. ok (some b);
  numeric_date = λ t. t;
  signed = λ c k. ok (c, k);
  parsed = λ key now issuer token.
      if accepts key now issuer token then ok token.0 else err (other "invalid token");
}

abbrev parse : ℕ → ℕ → String → Claims × ℕ → Outcome Claims
parse key now issuer token =
    if accepts key now issuer token then ok token.0 else err (other "invalid token")

parses :
    (c : Claims) (k : ℕ) (token : Claims × ℕ) (now : ℕ)
    → ◌≡◌ {A = Outcome (Claims × ℕ)} (ok (c, k)) (ok token)
    → now < c.expires_at
    → parse k now c.issuer token ≡ ok c
parses c k token now e h =
    let same : ◌≡◌ {A = Claims × ℕ} (c, k) token = cc in
    subst (λ x. parse k now c.issuer x ≡ ok c) same (own c k now h)
  where
    own : (c : Claims) (k now : ℕ) → now < c.expires_at → parse k now c.issuer (c, k) ≡ ok c
    own c k now h = ground (arith, (eq_iff c.issuer c.issuer).1 refl)

parsed_claims :
    (c : Claims) (k : ℕ) (token : Claims × ℕ) (key now : ℕ) (issuer : String) (c' : Claims)
    → ◌≡◌ {A = Outcome (Claims × ℕ)} (ok (c, k)) (ok token)
    → parse key now issuer token ≡ ok c'
    → c' ≡ c
parsed_claims c k token key now issuer c' e p =
    let same : ◌≡◌ {A = Claims × ℕ} (c, k) token = cc in
    yields (accepts key now issuer token) p ∙ sym (ap (λ (x : Claims × ℕ). x.0) same)
  where
    yields :
        (b : Bool) → (if b then ok token.0 else err (other "invalid token")) ≡ ok c' → c' ≡ token.0
    yields true q = cc
    yields false q = cc

sample_documented : Documented sample_library
sample_documented = record {
  date_close = λ t. omega arith;
  signed_parses = parses;
  parsed_signed = parsed_claims;
}

abbrev sample_manager : Manager sample_library
sample_manager = record { private_key = 1; public_key = 1; prev_public = none; last_rotate = 0 }

mint_runs :
    mint_token sample_library sample_manager 0 "agent" "scale" "k8s://x" "scale-api"
    ≡ ok ((claims_of sample_library 0 "agent" "scale" "k8s://x" "scale-api", 1), 1800000000000)
unfolding mint_token
mint_runs = refl

-- The key is changed to 2 after a second; two seconds later the token still validates.
mint_token-validate_token_example :
    (validate_token sample_library sample_manager
        (claims_of sample_library 0 "agent" "scale" "k8s://x" "scale-api", 1)
        3000000000
      ≡ ok (claims_of sample_library 0 "agent" "scale" "k8s://x" "scale-api"))
    × (validate_token sample_library
          (reload_key sample_library sample_manager 1000000000 (ok 2)).1
          (claims_of sample_library 0 "agent" "scale" "k8s://x" "scale-api", 1)
          3000000000
        ≡ ok (claims_of sample_library 0 "agent" "scale" "k8s://x" "scale-api"))
mint_token-validate_token_example =
    mint_token-validate_token sample_library sample_documented sample_manager refl 0 "agent" "scale"
      "k8s://x" "scale-api" (claims_of sample_library 0 "agent" "scale" "k8s://x" "scale-api", 1)
      1800000000000 mint_runs 1000000000 3000000000 (ok 2) (omega arith) (omega arith)
