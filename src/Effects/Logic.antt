-- ===== src/Effects/Logic.antt =====
-- A logic for actions: every call meets a predicate on the call and the trace before it, and facts
-- about the trace pass from step to step.
use aip_k8s.Prelude.{
  Option, none, some, on_option, ◌≡◌, refl, Bool, true, false, List, [], ◌∷◌, if◌then◌else◌,
}
use aip_k8s.Effects.{
  Err, Outcome, ok, err, Act, pure, raise, invoke, attempt, continue, ignore, ◌>>=◌, ◌>>◌,
}

-- Every call of the trace meets `P` at the calls made before it.
abbrev pub Hist : {C : Type 0} → (C → List C → Type 0) → List C → Type 0
Hist P [] = Unit
Hist P (c ∷ t) = P c t × Hist P t

pub Hist-map :
    {C : Type 0} {P R : C → List C → Type 0}
    → ((c : C) (t : List C) → P c t → R c t)
    → (t : List C) → Hist P t
    → Hist R t
Hist-map w [] h = tt
Hist-map w (c ∷ t) h = (w c t h.0, Hist-map w t h.1)

abbrev pub After : {C A : Type 0} → Outcome A → (A → List C → Type 0) → List C → Type 0
After (ok a) Q t = Q a t
After (err e) Q t = Unit

module _ {C : Type 0} (P : C → List C → Type 0) where
  -- From a trace with `Ev`, the calls of `m` meet `P`, and a returned value has `Q`.
  pub record Runs {A : Type 0} (Ev : List C → Type 0) (m : Act C A) (Q : A → List C → Type 0)
      : Type 0 where
    pub at : (t : List C) → Hist P t → Ev t → Hist P (m t).1 × After (m t).0 Q (m t).1

  -- The calls of `m` meet `P` and keep `Ev`, also where `m` fails.
  pub record Keeps {A : Type 0} (Ev : List C → Type 0) (m : Act C A) : Type 0 where
    pub keep : (t : List C) → Hist P t → Ev t → Hist P (m t).1 × Ev (m t).1

-- What is known of the value of a success.
pub After-ok :
    {C A : Type 0} (Q : A → List C → Type 0) (r : Outcome A) (t : List C)
    → After r Q t
    → (a : A) → r ≡ ok a
    → Q a t
After-ok Q (ok b) t q a e = let p : a ≡ b = cc in rw p q
After-ok Q (err x) t q a e = cc

module _ {C A : Type 0} (Q : A → List C → Type 0) where
  After-all : (r : Outcome A) (t : List C) → ((a : A) → r ≡ ok a → Q a t) → After r Q t
  After-all (ok a) t q = q a refl
  After-all (err x) t q = tt

  After-map :
      (R : A → List C → Type 0) (r : Outcome A) (t : List C)
      → ((a : A) → Q a t → R a t)
      → After r Q t
      → After r R t
  After-map R (ok a) t w q = w a q
  After-map R (err x) t w q = tt

module _ {C : Type 0} {P : C → List C → Type 0} {Ev : List C → Type 0} where
  module _ {A : Type 0} where
    pub Keeps-pure : (a : A) → Keeps P Ev (pure a)
    unfolding pure
    Keeps-pure a = record { keep = λ t h e. (h, e) }

    pub Keeps-raise : (e : Err) → Keeps P Ev (raise {A = A} e)
    unfolding raise
    Keeps-raise x = record { keep = λ t h e. (h, e) }

    pub Keeps-invoke :
        (c : C) (f : List C → Outcome A)
        → ((t : List C) → Ev t → P c t)
        → ((t : List C) → Ev t → Ev (c ∷ t))
        → Keeps P Ev (invoke c f)
    unfolding invoke
    Keeps-invoke c f p g = record { keep = λ t h e. ((p t e, h), g t e) }

    pub Keeps-attempt : {m : Act C A} → Keeps P Ev m → Keeps P Ev (attempt m)
    unfolding attempt
    Keeps-attempt k = record { keep = k.keep }

    pub Keeps-if :
        (b : Bool) {m n : Act C A} → Keeps P Ev m → Keeps P Ev n → Keeps P Ev (if b then m else n)
    Keeps-if true k l = k
    Keeps-if false k l = l

    -- The value of the test is known in its branches.
    pub Keeps-when :
        (b : Bool) {m n : Act C A}
        → (b ≡ true → Keeps P Ev m)
        → (b ≡ false → Keeps P Ev n)
        → Keeps P Ev (if b then m else n)
    Keeps-when true k l = k refl
    Keeps-when false k l = l refl

    pub Keeps-option :
        {B : Type 0} (o : Option B) {m : Act C A} {f : B → Act C A}
        → Keeps P Ev m
        → ((c : B) → Keeps P Ev (f c))
        → Keeps P Ev (on_option o m f)
    Keeps-option none k l = k
    Keeps-option (some c) k l = l c

  module _ {A B : Type 0} where
    Keeps-continue :
        (r : Outcome A) {f : A → Act C B} (t : List C)
        → ((a : A) → Keeps P Ev (f a))
        → Hist P t
        → Ev t
        → Hist P (continue r f t).1 × Ev (continue r f t).1
    Keeps-continue (ok a) t k h e = (k a).keep t h e
    Keeps-continue (err x) t k h e = (h, e)

    pub Keeps-bind :
        {m : Act C A} {f : A → Act C B}
        → Keeps P Ev m
        → ((a : A) → Keeps P Ev (f a))
        → Keeps P Ev (m >>= f)
    unfolding ◌>>=◌
    Keeps-bind {m} {f} k l = record {
      keep = λ t h e. let step = k.keep t h e in Keeps-continue (m t).0 (m t).1 l step.0 step.1;
    }

  pub Keeps-then :
      {A B : Type 0} {m : Act C A} {k : Act C B} → Keeps P Ev m → Keeps P Ev k → Keeps P Ev (m >> k)
  Keeps-then k l = Keeps-bind k (λ _. l)

  pub Keeps-ignore : {A : Type 0} {m : Act C A} → Keeps P Ev m → Keeps P Ev (ignore m)
  unfolding ignore
  Keeps-ignore k = Keeps-bind (Keeps-attempt k) (λ _. Keeps-pure tt)

module _ {C : Type 0} {P : C → List C → Type 0} where
  module _ {A : Type 0} {Ev : List C → Type 0} where
    pub Runs-keep : {m : Act C A} → Keeps P Ev m → Runs P Ev m (λ _. Ev)
    Runs-keep {m} k = record {
      at = λ t h e.
          let step = k.keep t h e in (step.0, After-all (λ _. Ev) (m t).0 (m t).1 (λ _ _. step.1));
    }

    pub Runs-pure :
        {Q : A → List C → Type 0} (a : A) → ((t : List C) → Ev t → Q a t) → Runs P Ev (pure a) Q
    unfolding pure
    Runs-pure a q = record { at = λ t h e. (h, q t e) }

    pub Runs-raise : {Q : A → List C → Type 0} (e : Err) → Runs P Ev (raise e) Q
    unfolding raise
    Runs-raise x = record { at = λ t h e. (h, tt) }

    pub Runs-invoke :
        {Q : A → List C → Type 0} (c : C) (f : List C → Outcome A)
        → ((t : List C) → Ev t → P c t)
        → ((t : List C) → Ev t → (a : A) → f t ≡ ok a → Q a (c ∷ t))
        → Runs P Ev (invoke c f) Q
    unfolding invoke
    Runs-invoke {Q} c f p q = record {
      at = λ t h e. ((p t e, h), After-all Q (f t) (c ∷ t) (q t e));
    }

    -- The answer of an attempted call, an error included.
    pub Runs-attempt_invoke :
        {Q : Outcome A → List C → Type 0} (c : C) (f : List C → Outcome A)
        → ((t : List C) → Ev t → P c t)
        → ((t : List C) → Ev t → Q (f t) (c ∷ t))
        → Runs P Ev (attempt (invoke c f)) Q
    unfolding attempt invoke
    Runs-attempt_invoke c f p q = record { at = λ t h e. ((p t e, h), q t e) }

    pub Runs-attempt :
        {Q : A → List C → Type 0} {m : Act C A}
        → Runs P Ev m Q
        → Runs P Ev (attempt m) (λ r t. After r Q t)
    unfolding attempt
    Runs-attempt k = record { at = k.at }

    -- The answer of an attempted action, with the trace that it is from.
    pub Runs-attempt_keep :
        {m : Act C A} → Keeps P Ev m → Runs P Ev (attempt m) (λ r u. (t : List C) × ((m t).0 ≡ r))
    unfolding attempt
    Runs-attempt_keep k = record { at = λ t h e. ((k.keep t h e).0, (t, refl)) }

    -- A stronger fact at the start.
    pub Runs-pre :
        {Ev' : List C → Type 0} {Q : A → List C → Type 0} {m : Act C A}
        → Runs P Ev' m Q
        → ((t : List C) → Ev t → Ev' t)
        → Runs P Ev m Q
    Runs-pre k w = record { at = λ t h e. k.at t h (w t e) }

    -- What is known at the start, as an argument.
    pub Runs-given :
        {Q : A → List C → Type 0} {m : Act C A}
        → ((t : List C) → Ev t → Runs P (λ _. Unit) m Q)
        → Runs P Ev m Q
    Runs-given k = record { at = λ t h e. (k t e).at t h tt }

    pub Runs-weaken :
        {Q R : A → List C → Type 0} {m : Act C A}
        → Runs P Ev m Q
        → ((a : A) (t : List C) → Q a t → R a t)
        → Runs P Ev m R
    Runs-weaken {Q} {R} {m} k w = record {
      at = λ t h e.
          let step = k.at t h e in
          (step.0, After-map Q R (m t).0 (m t).1 (λ a. w a (m t).1) step.1);
    }

    pub Runs-if :
        {Q : A → List C → Type 0} (b : Bool) {m n : Act C A}
        → (b ≡ true → Runs P Ev m Q)
        → (b ≡ false → Runs P Ev n Q)
        → Runs P Ev (if b then m else n) Q
    Runs-if true k l = k refl
    Runs-if false k l = l refl

    pub Runs-option :
        {B : Type 0} {Q : A → List C → Type 0} (o : Option B) {m : Act C A} {f : B → Act C A}
        → (o ≡ none → Runs P Ev m Q)
        → ((c : B) → o ≡ some c → Runs P Ev (f c) Q)
        → Runs P Ev (on_option o m f) Q
    Runs-option none k l = k refl
    Runs-option (some c) k l = l c refl

  module _ {A B : Type 0} (Q : A → List C → Type 0) (R : B → List C → Type 0) where
    Runs-continue :
        (r : Outcome A) {f : A → Act C B} (t : List C)
        → ((a : A) → Runs P (Q a) (f a) R)
        → Hist P t
        → After r Q t
        → Hist P (continue r f t).1 × After (continue r f t).0 R (continue r f t).1
    Runs-continue (ok a) t k h q = (k a).at t h q
    Runs-continue (err x) t k h q = (h, tt)

  module _ {A B : Type 0} {Ev : List C → Type 0} where
    pub Runs-bind :
        {m : Act C A} {f : A → Act C B} {Q : A → List C → Type 0} {R : B → List C → Type 0}
        → Runs P Ev m Q
        → ((a : A) → Runs P (Q a) (f a) R)
        → Runs P Ev (m >>= f) R
    unfolding ◌>>=◌
    Runs-bind {m} {Q = Q} {R = R} k l = record {
      at = λ t h e. let step = k.at t h e in Runs-continue Q R (m t).0 (m t).1 l step.0 step.1;
    }
