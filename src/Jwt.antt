-- ===== src/Jwt.antt =====
-- internal/jwt/manager.go: the tokens of approved requests, and the change of the signing key. Times
-- are in nanoseconds. The key pair, the PEM file and the JWT format are the libraries'.
pub mod Roundtrip
mod Tests
use aip_k8s.Prelude.{
  ℕ, ◌+◌, String, Bool, Option, none, some, [], ◌∷◌, leb, if◌then◌else◌, on_option,
}
use aip_k8s.Api.Request.{Message, sprintf, str, num}
use aip_k8s.Effects.{Err, Outcome, ok, err, other, wrapped}

abbrev pub key_rotation_grace_period : ℕ
key_rotation_grace_period = 300000000000

abbrev pub token_ttl : ℕ
token_ttl = 1800000000000

pub record Claims : Type 0 where
  pub expires_at : ℕ
  pub issued_at : ℕ
  pub issuer : String
  pub subject : String
  pub id : Message
  pub action : String
  pub resource : String
  pub request : String

-- crypto/ed25519, encoding/pem, crypto/x509 and github.com/golang-jwt/jwt.
pub record Library : Type 1 where
  pub Private : Type 0
  pub Public : Type 0
  pub Bytes : Type 0
  pub Block : Type 0
  pub Token : Type 0  -- the string of a token
  pub public_of : Private → Public
  pub public_eq : Public → Public → Bool  -- bytes.Equal
  pub pem_decode : Bytes → Option Block
  pub parse_pkcs8 : Block → Outcome (Option Private)  -- `none` is a key that is not Ed25519
  pub numeric_date : ℕ → ℕ  -- jwt.NewNumericDate
  pub signed : Claims → Private → Outcome Token
  -- jwt.ParseWithClaims with a key for EdDSA tokens, jwt.WithTimeFunc and jwt.WithIssuer
  pub parsed : Public → ℕ → String → Token → Outcome Claims

module _ (l : Library) where
  pub record Manager : Type 0 where
    pub private_key : l.Private
    pub public_key : l.Public
    pub prev_public : Option l.Public
    pub last_rotate : ℕ

  -- The steps from a PEM file to a private key.
  key_parsed : Outcome (Option l.Private) → Outcome l.Private
  key_parsed (ok (some key)) = ok key
  key_parsed (ok none) = err (other "not an Ed25519 key")
  key_parsed (err e) = err (wrapped "parse private key" e)

  key_of : l.Bytes → Outcome l.Private
  key_of pem =
      on_option (l.pem_decode pem) (err (other "no PEM block found in key data"))
        (λ block. key_parsed (l.parse_pkcs8 block))

  -- `NewManagerFromPEM` at a time.
  pub new_manager_from_pem : l.Bytes → ℕ → Outcome Manager
  new_manager_from_pem pem now = elim (key_of pem) [
    | ok key ↦ ok (record {
      private_key = key;
      public_key = l.public_of key;
      prev_public = none;
      last_rotate = now;
    })
    | err e ↦ err e
  ]

  rotated : Manager → l.Private → ℕ → Manager
  rotated m key now = if l.public_eq (l.public_of key) m.public_key then m else record {
    private_key = key;
    public_key = l.public_of key;
    prev_public = some m.public_key;
    last_rotate = now;
  }

  reloaded : Manager → ℕ → Outcome l.Private → Outcome (Unit {0}) × Manager
  reloaded m now (ok key) = (ok tt, rotated m key now)
  reloaded m now (err e) = (err e, m)

  -- `ReloadKey` with the file's content, at a time.
  pub reload_key : Manager → ℕ → Outcome l.Bytes → Outcome (Unit {0}) × Manager
  reload_key m now (err e) = (err (wrapped "read key file" e), m)
  reload_key m now (ok pem) = reloaded m now (key_of pem)

  pub claims_of : ℕ → String → String → String → String → Claims
  claims_of now agent action resource request = record {
    expires_at = l.numeric_date (now + token_ttl);
    issued_at = l.numeric_date now;
    issuer = "aip-gateway";
    subject = agent;
    id = sprintf "%s-%d" (str request ∷ num now ∷ []);
    action = action;
    resource = resource;
    request = request;
  }

  -- `MintToken` at a time: the token and its expiry.
  pub mint_token : Manager → ℕ → String → String → String → String → Outcome (l.Token × ℕ)
  mint_token m now agent action resource request =
      elim (l.signed (claims_of now agent action resource request) m.private_key) [
        | ok token ↦ ok (token, now + token_ttl)
        | err e ↦ err (wrapped "sign token" e)
      ]

  pub validate_with_key : l.Token → l.Public → ℕ → Outcome Claims
  validate_with_key token key now = elim (l.parsed key now "aip-gateway" token) [
    | ok claims ↦ ok claims
    | err e ↦ err (wrapped "parse token" e)
  ]

  -- `now.Sub(lastRotate) <= keyRotationGracePeriod`
  pub in_grace : Manager → ℕ → Bool
  in_grace m now = leb now (m.last_rotate + key_rotation_grace_period)

  -- The previous key, if there is one and it is still in its grace period.
  pub prev_validated : Manager → l.Token → ℕ → Err → Outcome Claims
  prev_validated m token now e = on_option m.prev_public (err e) (λ key.
      if in_grace m now
      then elim (validate_with_key token key now) [ ok claims ↦ ok claims | err _ ↦ err e ]
      else err e)

  pub validate_token : Manager → l.Token → ℕ → Outcome Claims
  validate_token m token now = elim (validate_with_key token m.public_key now) [
    | ok claims ↦ ok claims
    | err e ↦ prev_validated m token now e
  ]
