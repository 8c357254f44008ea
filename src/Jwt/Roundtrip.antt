-- ===== src/Jwt/Roundtrip.antt =====
-- A minted token validates until it expires, also across a change of the key.
use aip_k8s.Prelude.{
  ℕ, ◌+◌, ◌≤◌, ◌<◌, String, true, some, ◌≡◌, refl, ap, ◌∙◌, ◌⊎◌, inl, inr, arith, Bool-cases,
}
use aip_k8s.Effects.{Err, Outcome, ok, err, wrapped}
use aip_k8s.Jwt.{
  Claims, Library, Manager, key_rotation_grace_period, token_ttl, key_of, rotated, reloaded,
  reload_key, claims_of, mint_token, validate_with_key, in_grace, prev_validated, validate_token,
}

-- What the libraries document: dates are cut to seconds, a token that was signed validates under
-- its public key until it expires, with its issuer, and the claims that a token yields are the
-- signed ones.
pub record Documented (l : Library) : Type 0 where
  pub date_close : (t : ℕ) → t < l.numeric_date t + 1000000000
  pub signed_parses :
      (c : Claims) (k : l.Private) (token : l.Token) (now : ℕ)
      → l.signed c k ≡ ok token
      → now < c.expires_at
      → l.parsed (l.public_of k) now c.issuer token ≡ ok c
  pub parsed_signed :
      (c : Claims) (k : l.Private) (token : l.Token) (key : l.Public) (now : ℕ) (issuer : String)
      (c' : Claims)
      → l.signed c k ≡ ok token
      → l.parsed key now issuer token ≡ ok c'
      → c' ≡ c

module _ (l : Library) where
  -- The public key belongs to the private key.
  abbrev pub IsPaired : Manager l → Type 0
  IsPaired m = m.public_key ≡ l.public_of m.private_key

  module _ (d : Documented l) (token : l.Token) (c : Claims) (k : l.Private)
      (signs : l.signed c k ≡ ok token) (issuer : c.issuer ≡ "aip-gateway") (now : ℕ) where
    -- Whatever key accepts the token yields its claims.
    any_key :
        (key : l.Public) (r : Outcome Claims)
        → l.parsed key now "aip-gateway" token ≡ r
        → (validate_with_key l token key now ≡ ok c)
          ⊎ ((e : Err) × (validate_with_key l token key now ≡ err e))
    unfolding validate_with_key
    any_key key (ok c') e =
        let same : c' ≡ c = d.parsed_signed c k token key now "aip-gateway" c' signs e in
        inl (ground (arith, same))
    any_key key (err x) e = inr (wrapped "parse token" x, ground arith)

    own_key : now < c.expires_at → validate_with_key l token (l.public_of k) now ≡ ok c
    unfolding validate_with_key
    own_key h =
        let parsed : l.parsed (l.public_of k) now "aip-gateway" token ≡ ok c =
          rw (← issuer) (d.signed_parses c k token now signs h) in
        ground (arith, parsed)

    -- The signing key is the current one, or the previous one in its grace period.
    validates :
        (m : Manager l)
        → now < c.expires_at
        → (m.public_key ≡ l.public_of k)
          ⊎ ((m.prev_public ≡ some (l.public_of k)) × (in_grace l m now ≡ true))
        → validate_token l m token now ≡ ok c
    unfolding validate_token prev_validated
    validates m h (inl current) = ground (arith, own_key h)
    validates m h (inr (prev, grace)) = elim (any_key m.public_key _ refl) [
      | inl accepted ↦ ground arith
      | inr (e, refused) ↦ ground (arith, own_key h)
    ]

  in_grace-lem :
      (m : Manager l) (reload now : ℕ)
      → m.last_rotate ≡ reload
      → now ≤ reload + key_rotation_grace_period
      → in_grace l m now ≡ true
  unfolding in_grace
  in_grace-lem m reload now e h = ground arith

  -- After an attempt to reload, the public key is the same, or is kept as the previous one.
  reload_key-keeps :
      (m : Manager l) (reload : ℕ) (file : Outcome l.Bytes)
      → ((reload_key l m reload file).1.public_key ≡ m.public_key)
        ⊎ (((reload_key l m reload file).1.prev_public ≡ some m.public_key)
            × ((reload_key l m reload file).1.last_rotate ≡ reload))
  unfolding reload_key reloaded rotated
  reload_key-keeps m reload (err e) = inl refl
  reload_key-keeps m reload (ok pem) = from_key (key_of l pem)
    where
      from_key :
          (r : Outcome l.Private)
          → ((reloaded l m reload r).1.public_key ≡ m.public_key)
            ⊎ (((reloaded l m reload r).1.prev_public ≡ some m.public_key)
                × ((reloaded l m reload r).1.last_rotate ≡ reload))
      from_key (err e) = inl refl
      from_key (ok key) = elim (Bool-cases (l.public_eq (l.public_of key) m.public_key)) [
        | inl same ↦ inl (rw same refl)
        | inr new ↦ inr (rw new refl, rw new refl)
      ]

  module _ (d : Documented l) (m : Manager l) (paired : IsPaired m) (minted : ℕ)
      (agent action resource request : String) (token : l.Token) (expiry : ℕ)
      (mints : mint_token l m minted agent action resource request ≡ ok (token, expiry)) where
    signs :
        (l.signed (claims_of l minted agent action resource request) m.private_key ≡ ok token)
        × (minted + token_ttl ≡ expiry)
    unfolding mint_token
    signs = ground arith

    alive : (now : ℕ) → now + 1000000000 ≤ expiry → now < l.numeric_date (minted + token_ttl)
    alive now h = omega (arith, signs.1, d.date_close (minted + token_ttl))

    -- A token that a manager with a matching key pair has minted validates, with the claims that it
    -- was minted for, up to a second before its expiry: with that manager, and, within five minutes
    -- of an attempt to reload the key, with the manager after that attempt, whether it failed, found
    -- the same key or changed it.
    pub mint_token-validate_token :
        (reload now : ℕ) (file : Outcome l.Bytes)
        → now + 1000000000 ≤ expiry
        → now ≤ reload + key_rotation_grace_period
        → (validate_token l m token now ≡ ok (claims_of l minted agent action resource request))
          × (validate_token l (reload_key l m reload file).1 token now
              ≡ ok (claims_of l minted agent action resource request))
    unfolding claims_of
    mint_token-validate_token reload now file h k = (
      validates d token _ m.private_key signs.0 refl now m (alive now h) (inl paired),
      validates d token _ m.private_key signs.0 refl now (reload_key l m reload file).1
          (alive now h)
          elim (reload_key-keeps m reload file) [
            | inl same ↦ inl (same ∙ paired)
            | inr (prev, rotation) ↦
                inr (prev ∙ ap some paired, in_grace-lem _ reload now rotation k)
          ],
    )
