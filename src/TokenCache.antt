-- ===== src/TokenCache.antt =====
-- internal/credential/cache.go: `TokenCache`, with many keys and in its legacy form. Times are in
-- nanoseconds. `flight` stands for singleflight.Group.Do under a key; the result of the function
-- that it calls carries the cache that the function leaves.
pub mod Fresh
mod Tests
use aip_k8s.Prelude.{
  ℕ, ◌+◌, String, Bool, not, ◌&&◌, Option, none, some, List, [], ◌∷◌, str_eq, leb, ltb, lookup,
  if◌then◌else◌,
}
use aip_k8s.Effects.{Outcome, ok, err}

abbrev pub refresh_buffer : ℕ
refresh_buffer = 300000000000

abbrev pub legacy_refresh_buffer : ℕ
legacy_refresh_buffer = 30000000000

pub record CachedEntry : Type 0 where
  pub token : String
  pub expiry : ℕ

abbrev pub Store : Type 0
Store = List (String × CachedEntry)

-- `delete(c.store, key)`
pub remove : String → Store → Store
remove key [] = []
remove key ((k, e) ∷ store) =
    let rest = remove key store in if str_eq k key then rest else (k, e) ∷ rest

-- `c.store[key] = …`
pub store_entry : String → CachedEntry → Store → Store
store_entry key entry store = (key, entry) ∷ remove key store

-- `exists && entry.expiry.Sub(c.now()) >= refreshBuffer`
pub is_fresh : ℕ → CachedEntry → Bool
is_fresh now entry = leb (now + refresh_buffer) entry.expiry

pub fresh_token : String → Store → ℕ → Option String
fresh_token key store now = elim (lookup key store) [
  | none ↦ none
  | some entry ↦ if is_fresh now entry then some entry.token else none
]

-- What the caller's fetch answers: a token and its expiry.
abbrev pub Fetched : Type 0
Fetched = Outcome (String × ℕ)

abbrev pub Answer : Type 0 → Type 0
Answer S = Outcome String × S

pub fetched : String → Store → Fetched → Answer Store
fetched key store (ok (token, expiry)) =
    (ok token, store_entry key (record { token = token; expiry = expiry }) store)
fetched key store (err e) = (err e, store)

-- The function that is called in the flight, at a time.
flown : String → ℕ → Fetched → Store → Answer Store
flown key now fetch store = elim (fresh_token key store now) [
  | some token ↦ (ok token, store)
  | none ↦ fetched key store fetch
]

-- `GetOrFetch` where the clock reads `now` and, in the flight, `later`.
pub get_or_fetch :
    ((Store → Answer Store) → Store → Answer Store)
    → String
    → ℕ
    → ℕ
    → Fetched
    → Store
    → Answer Store
get_or_fetch flight key now later fetch store = elim (fresh_token key store now) [
  | some token ↦ (ok token, store)
  | none ↦ flight (flown key later fetch) store
]

-- The legacy cache: a token, empty if there is none, and its expiry.
pub record Legacy : Type 0 where
  pub token : String
  pub expires_at : ℕ

pub is_expired : Legacy → ℕ → Bool
is_expired c now = not (str_eq c.token "") && ltb c.expires_at now

-- `c.token != "" && c.now().Add(legacyRefreshBuffer).Before(c.expiresAt)`
pub is_valid : Legacy → ℕ → Bool
is_valid c now = not (str_eq c.token "") && ltb (now + legacy_refresh_buffer) c.expires_at

legacy_fetched : Legacy → Fetched → Answer Legacy
legacy_fetched c (ok (token, expiry)) = (ok token, record { token = token; expires_at = expiry })
legacy_fetched c (err e) = (err e, c)

legacy_flown : ℕ → Fetched → Legacy → Answer Legacy
legacy_flown now fetch c = if is_valid c now then (ok c.token, c) else legacy_fetched c fetch

-- `Get` where the clock reads `now` and, in the flight, `later`.
pub get :
    ((Legacy → Answer Legacy) → Legacy → Answer Legacy) → ℕ → ℕ → Fetched → Legacy → Answer Legacy
get flight now later fetch c =
    if is_valid c now then (ok c.token, c) else flight (legacy_flown later fetch) c
