-- ===== src/TokenCache/Fresh.antt =====
-- The token cache hands out fresh tokens, and keeps what it fetched.
use aip_k8s.Prelude.{
  ℕ, ◌+◌, ◌≤◌, String, none, some, [], ◌∷◌, str_eq, eq_iff, lookup, ◌≡◌, refl, ◌∙◌, ◌⊎◌, inl, inr,
  arith, Bool-cases, Option-cases,
}
use aip_k8s.Effects.{ok, err}
use aip_k8s.TokenCache.{
  CachedEntry, Store, Fetched, Answer, refresh_buffer, remove, store_entry, is_fresh, fresh_token,
  fetched, flown, get_or_fetch,
}

lookup-remove : (key : String) (store : Store) → lookup key (remove key store) ≡ none
unfolding remove
lookup-remove key [] = refl
lookup-remove key ((k, e) ∷ store) = elim (Bool-cases (str_eq k key)) [
  | inl same ↦ rw same (lookup-remove key store)
  | inr other ↦ rw other (rw other (lookup-remove key store))
]

lookup-store_entry :
    (key : String) (e : CachedEntry) (store : Store) → lookup key (store_entry key e store) ≡ some e
unfolding store_entry
lookup-store_entry key e store = rw ((eq_iff key key).1 refl) refl

-- A token with five minutes to live is in the store.
abbrev pub InStore : String → String → ℕ → Store → Type 0
InStore key token now store =
    (e : CachedEntry) × (lookup key store ≡ some e)
    × (e.token ≡ token)
    × (now + refresh_buffer ≤ e.expiry)

fresh_token-InStore :
    (key : String) (store : Store) (now : ℕ) (token : String)
    → fresh_token key store now ≡ some token
    → InStore key token now store
unfolding fresh_token is_fresh
fresh_token-InStore key store now token h = elim (Option-cases (lookup key store)) [
  | inl missing ↦ absurd (ground (arith, missing))
  | inr (e, found) ↦ (e, found, ground (arith, found), ground (arith, found))
]

fresh_token-some :
    (key : String) (store : Store) (now : ℕ) (e : CachedEntry)
    → lookup key store ≡ some e
    → now + refresh_buffer ≤ e.expiry
    → fresh_token key store now ≡ some e.token
unfolding fresh_token is_fresh
fresh_token-some key store now e found h = ground arith

-- What is stale stays stale.
fresh_token-none :
    (key : String) (store : Store) (now later : ℕ)
    → now ≤ later
    → fresh_token key store now ≡ none
    → fresh_token key store later ≡ none
fresh_token-none key store now later le stale = elim (Option-cases (fresh_token key store later)) [
  | inl e ↦ e
  | inr (token, e) ↦
      let (entry, found, same, alive) = fresh_token-InStore key store later token e in
      absurd (cc (fresh_token-some key store now entry found (omega arith)))
]

-- `singleflight.Do` for a caller with no call of the key in flight.
abbrev pub CallsOnce : {S : Type 0} → ((S → Answer S) → S → Answer S) → Type 0
CallsOnce {S} flight = (f : S → Answer S) (s : S) → flight f s ≡ f s

module _ (flight : (Store → Answer Store) → Store → Answer Store) (once : CallsOnce flight) where
  -- A fresh entry is handed out.
  get_or_fetch-some :
      (key : String) (store : Store) (now later : ℕ) (fetch : Fetched) (token : String)
      → fresh_token key store now ≡ some token
      → get_or_fetch flight key now later fetch store ≡ (ok token, store)
  unfolding get_or_fetch
  get_or_fetch-some key store now later fetch token fresh = ground arith

  module _ (key : String) (store : Store) (now later : ℕ) (le : now ≤ later) where
    -- A stale or missing entry is fetched.
    get_or_fetch-fetched :
        (fetch : Fetched)
        → fresh_token key store now ≡ none
        → get_or_fetch flight key now later fetch store ≡ fetched key store fetch
    unfolding get_or_fetch flown
    get_or_fetch-fetched fetch stale =
        ground
          (arith, once (flown key later fetch) store, fresh_token-none key store now later le stale)

    stored :
        (fetch : Fetched) (token : String)
        → (fetched key store fetch).0 ≡ ok token
        → (expiry : ℕ) × (fetch ≡ ok (token, expiry))
          × (lookup key (fetched key store fetch).1
              ≡ some (record { token = token; expiry = expiry }))
    unfolding fetched
    stored (ok (t, expiry)) token h =
        let same : t ≡ token = cc in
        (expiry, rw same refl, rw same (lookup-store_entry key _ store))
    stored (err e) token h = absurd (cc h)

    -- For a caller with no call of the key in flight, on a clock that does not go back: a token that
    -- is handed out was in the cache with at least five minutes to its expiry, or was fetched now
    -- and is in the cache afterwards.
    pub get_or_fetch-fresh :
        (fetch : Fetched) (token : String)
        → (get_or_fetch flight key now later fetch store).0 ≡ ok token
        → InStore key token now store
          ⊎ ((expiry : ℕ) × (fetch ≡ ok (token, expiry))
              × (lookup key (get_or_fetch flight key now later fetch store).1
                  ≡ some (record { token = token; expiry = expiry })))
    get_or_fetch-fresh fetch token h = elim (Option-cases (fresh_token key store now)) [
      | inl stale ↦
          let run : get_or_fetch flight key now later fetch store ≡ fetched key store fetch =
            get_or_fetch-fetched fetch stale in
          inr (rw run (stored fetch token (rw run at h)))
      | inr (t, fresh) ↦ inl (fresh_token-InStore key store now token (fresh ∙ handed t fresh))
    ]
      where
        handed : (t : String) → fresh_token key store now ≡ some t → some t ≡ some token
        handed t fresh = cc (get_or_fetch-some key store now later fetch t fresh)

    -- For callers with no call of the key in flight, on a clock that does not go back: what was
    -- fetched into the cache for a stale or missing entry is handed out to every later caller,
    -- whatever its own fetch would answer, as long as there are five minutes to its expiry, and the
    -- cache stays as it is.
    pub get_or_fetch-cached :
        (token : String) (expiry : ℕ) (now' later' : ℕ) (fetch' : Fetched)
        → fresh_token key store now ≡ none
        → now' + refresh_buffer ≤ expiry
        → get_or_fetch flight key now' later' fetch'
            (get_or_fetch flight key now later (ok (token, expiry)) store).1
          ≡ (ok token, (get_or_fetch flight key now later (ok (token, expiry)) store).1)
    unfolding fetched
    get_or_fetch-cached token expiry now' later' fetch' stale h =
        rw (get_or_fetch-fetched (ok (token, expiry)) stale) again
      where
        held :
            lookup key (fetched key store (ok (token, expiry))).1
            ≡ some (record { token = token; expiry = expiry })
        held = lookup-store_entry key _ store

        again :
            get_or_fetch flight key now' later' fetch' (fetched key store (ok (token, expiry))).1
            ≡ (ok token, (fetched key store (ok (token, expiry))).1)
        again =
            get_or_fetch-some key _ now' later' fetch' token
              (fresh_token-some key _ now' (record { token = token; expiry = expiry }) held h)

  -- For callers with no call of the key in flight, on a clock that does not go back: after the
  -- entry of a key was removed, a caller gets what its own fetch answers.
  pub remove-get_or_fetch :
      (key : String) (now later : ℕ) (fetch : Fetched) (store : Store)
      → now ≤ later
      → get_or_fetch flight key now later fetch (remove key store)
        ≡ fetched key (remove key store) fetch
  unfolding fresh_token
  remove-get_or_fetch key now later fetch store le =
      get_or_fetch-fetched key (remove key store) now later le fetch
        (ground (arith, lookup-remove key store))
