-- ===== src/TokenCache/Tests.antt =====
-- Callers of the token cache, one after the other.
use aip_k8s.Prelude.{ℕ, String, ◌≡◌, refl, ◌⊎◌, none, some, [], lookup, arith}
use aip_k8s.Effects.{Outcome, ok, err, not_found}
use aip_k8s.TokenCache.{Store, Answer, fresh_token, fetched, flown, get_or_fetch}
use aip_k8s.TokenCache.Fresh.{InStore, CallsOnce, get_or_fetch-fresh, get_or_fetch-cached}

-- No other call is in flight.
abbrev alone : (Store → Answer Store) → Store → Answer Store
alone f s = f s

alone-CallsOnce : CallsOnce alone
alone-CallsOnce f s = refl

empty_stale : fresh_token "github" [] 0 ≡ none
unfolding fresh_token
empty_stale = refl

fetch_runs : (get_or_fetch alone "github" 0 1 (ok ("token", 7)) []).0 ≡ ok "token"
unfolding get_or_fetch flown fetched fresh_token
fetch_runs = refl

get_or_fetch-fresh_example :
    InStore "github" "token" 0 []
    ⊎ ((expiry : ℕ) × (◌≡◌ {A = Outcome (String × ℕ)} (ok ("token", 7)) (ok ("token", expiry)))
        × (lookup "github" (get_or_fetch alone "github" 0 1 (ok ("token", 7)) []).1
            ≡ some (record { token = "token"; expiry = expiry })))
get_or_fetch-fresh_example =
    get_or_fetch-fresh alone alone-CallsOnce "github" [] 0 1 (omega arith) (ok ("token", 7)) "token"
      fetch_runs

-- The later fetch would fail.
get_or_fetch-cached_example :
    get_or_fetch alone "github" 5 6
      (err not_found)
      (get_or_fetch alone "github" 0 1 (ok ("token", 900000000000)) []).1
    ≡ (ok "token", (get_or_fetch alone "github" 0 1 (ok ("token", 900000000000)) []).1)
get_or_fetch-cached_example =
    get_or_fetch-cached alone alone-CallsOnce "github" [] 0 1 (omega arith) "token" 900000000000 5 6
      (err not_found) empty_stale (omega arith)
