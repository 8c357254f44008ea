-- ===== src/Controller/Lock/Expiry.antt =====
-- The expiry of a lease, as time passes.
use aip_k8s.Prelude.{ℕ, ◌≤◌, ◌≡◌, Bool, true, false, refl, sym, ◌∙◌, none, some, arith, Option}
use aip_k8s.Controller.Types.{Lease, ℤ, pos, negsuc}
use aip_k8s.Controller.Lock.{is_expired, after_seconds}

true_not_false : {b : Bool} → b ≡ true → b ≡ false → ⊥
true_not_false h e = cc

after_seconds-monotone :
    {a b : ℕ} (renew : ℕ) (s : ℤ)
    → a ≤ b
    → after_seconds a renew s ≡ true
    → after_seconds b renew s ≡ true
after_seconds-monotone renew (pos s) le h = ground arith
after_seconds-monotone renew (negsuc s) le h = ground arith

is_expired-eq :
    (time : ℕ) (l : Lease) {renew : ℕ} {s : ℤ}
    → l.renew_time ≡ some renew
    → l.duration_seconds ≡ some s
    → is_expired time l ≡ after_seconds time renew s
unfolding is_expired
is_expired-eq time l p q = rw (p, q) refl

-- A lease that has run out stays so: at every later time it counts as expired.
pub is_expired-monotone :
    {a b : ℕ} (l : Lease) → a ≤ b → is_expired a l ≡ true → is_expired b l ≡ true
unfolding is_expired
is_expired-monotone {a} {b} l le h = split l.renew_time refl l.duration_seconds refl
  where
    split :
        (o : Option ℕ)
        → l.renew_time ≡ o
        → (d : Option ℤ) → l.duration_seconds ≡ d
        → is_expired b l ≡ true
    split none p d q = let e : is_expired a l ≡ false = rw p refl in absurd (true_not_false h e)
    split (some r) p none q =
        let e : is_expired a l ≡ false = rw (p, q) refl in absurd (true_not_false h e)
    split (some r) p (some s) q =
        is_expired-eq b l p q ∙ after_seconds-monotone r s le (sym (is_expired-eq a l p q) ∙ h)
