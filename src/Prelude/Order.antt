-- ===== src/Prelude/Order.antt =====
-- The order of strings by code points, which for UTF-8 is the order by bytes of Go's `<`.
use Prim.Native.Nat.{ℕ, Ordering}
use Prim.Native.Nat.{compare as compare_nat}
use Prim.Native.Char.{Char, code}
use Prim.Native.String.{String, [], ◌∷◌, compare, then}
use Prim.Native.String.compare
use mathlib.Core.Path.{◌≡◌}
use mathlib.Core.Logic.{◌≢◌}
use mathlib.Core.Bool.{Bool, true, false}
use native.Mathlib.Omega.{arith}

abbrev pub str_lt : String → String → Bool
str_lt a b = elim (compare a b) [ Ordering.lt ↦ true | _ ↦ false ]

then_trans :
    (x y z : ℕ) (p q r : Ordering)
    → (p ≢ Ordering.lt → q ≢ Ordering.lt → r ≢ Ordering.lt)
    → then (compare_nat x y) p ≢ Ordering.lt
    → then (compare_nat y z) q ≢ Ordering.lt
    → then (compare_nat x z) r ≢ Ordering.lt
unfolding then
then_trans x y z p q r ih h k = ground (arith, ih)

nil_nil : compare [] [] ≡ Ordering.eq
nil_nil = λ i. compare.nil-nil i

nil_cons : (d : Char) (t : String) → compare [] (d ∷ t) ≡ Ordering.lt
nil_cons d t = λ i. compare.nil-cons d t i

cons_nil : (c : Char) (s : String) → compare (c ∷ s) [] ≡ Ordering.gt
cons_nil c s = λ i. compare.cons-nil c s i

cons_cons :
    (c d : Char) (s t : String)
    → compare (c ∷ s) (d ∷ t) ≡ then (compare_nat (code c) (code d)) (compare s t)
cons_cons c d s t = λ i. compare.cons-cons c d s t i

compare_trans :
    (a b c : String)
    → compare a b ≢ Ordering.lt
    → compare b c ≢ Ordering.lt
    → compare a c ≢ Ordering.lt
compare_trans [] [] c h k = k
compare_trans [] (y ∷ b) c h k = absurd (h (nil_cons y b))
compare_trans (x ∷ a) b [] h k = λ e. cc (cons_nil x a)
compare_trans (x ∷ a) [] (z ∷ c) h k = absurd (k (nil_cons z c))
compare_trans (x ∷ a) (y ∷ b) (z ∷ c) h k =
    let h' : then (compare_nat (code x) (code y)) (compare a b) ≢ Ordering.lt =
      rw (← cons_cons x y a b) h in
    let k' : then (compare_nat (code y) (code z)) (compare b c) ≢ Ordering.lt =
      rw (← cons_cons y z b c) k in
    rw (cons_cons x z a c) (then_trans (code x) (code y) (code z) _ _ _ (compare_trans a b c) h' k')

-- Of three strings, where the first is not below the second nor the second below the third, the
-- first is not below the third.
pub str_lt_trans : (a b c : String) → str_lt a b ≡ false → str_lt b c ≡ false → str_lt a c ≡ false
str_lt_trans a b c h k = ground (arith, compare_trans a b c)

then_asym :
    (x y : ℕ) (p q : Ordering)
    → (p ≡ Ordering.lt → q ≢ Ordering.lt)
    → then (compare_nat x y) p ≡ Ordering.lt
    → then (compare_nat y x) q ≢ Ordering.lt
unfolding then
then_asym x y p q ih h = ground (arith, ih)

compare_asym : (a b : String) → compare a b ≡ Ordering.lt → compare b a ≢ Ordering.lt
compare_asym [] [] h = λ e. cc nil_nil
compare_asym [] (y ∷ b) h = λ e. cc (cons_nil y b)
compare_asym (x ∷ a) [] h = absurd (cc (cons_nil x a))
compare_asym (x ∷ a) (y ∷ b) h =
    let h' : then (compare_nat (code x) (code y)) (compare a b) ≡ Ordering.lt =
      rw (← cons_cons x y a b) h in
    rw (cons_cons y x b a) (then_asym (code x) (code y) _ _ (compare_asym a b) h')

pub str_lt_asym : (a b : String) → str_lt a b ≡ true → str_lt b a ≡ false
str_lt_asym a b h = ground (arith, compare_asym a b)

pub str_lt_irrefl : (a : String) → str_lt a a ≡ false
str_lt_irrefl a = ground (arith, str_lt_asym a a)
