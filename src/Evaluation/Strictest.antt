-- ===== src/Evaluation/Strictest.antt =====
-- The order of actions behind `actionPriority`: joins, and their laws.
use aip_k8s.Prelude.{
  ◌≤◌, Bool, true, false, ◌||◌, ◌≡◌, refl, List, [], ◌∷◌, ◌++◌, any, arith, ltb, if◌then◌else◌,
}
use aip_k8s.Api.Policy.{Action, allow, deny}
use aip_k8s.Evaluation.State.{action_priority}

-- The stricter of two actions.
unfoldable pub stricter : Action → Action → Action
unfolding action_priority
stricter a b = if ltb (action_priority a) (action_priority b) then b else a

-- The strictest of an action and a list.
unfoldable pub join : Action → List Action → Action
join a [] = a
join a (b ∷ bs) = join (stricter a b) bs

abbrev pub is_deny : Action → Bool
is_deny deny = true
is_deny _ = false

pub stricter_assoc : (a b c : Action) → stricter (stricter a b) c ≡ stricter a (stricter b c)
unfolding stricter
stricter_assoc a b c = ground arith

pub stricter_comm : (a b : Action) → stricter a b ≡ stricter b a
unfolding stricter
stricter_comm a b = ground arith

pub stricter_allow : (a : Action) → stricter a allow ≡ a
unfolding stricter
stricter_allow a = ground arith

le-stricter : (a b : Action) → action_priority a ≤ action_priority (stricter a b)
unfolding stricter
le-stricter a b = ground arith

pub join-append : (a : Action) (xs ys : List Action) → join a (xs ++ ys) ≡ join (join a xs) ys
unfolding join
join-append a [] ys = refl
join-append a (x ∷ xs) ys = join-append (stricter a x) xs ys

-- The starting action comes out of the join.
pub join-stricter : (a : Action) (xs : List Action) → join a xs ≡ stricter a (join allow xs)
unfolding join
join-stricter a [] = rw (stricter_allow a)
join-stricter a (x ∷ xs) = rw (
  join-stricter (stricter a x) xs,
  join-stricter (stricter allow x) xs,
  stricter_comm allow x,
  stricter_allow x,
  stricter_assoc a x (join allow xs),
)

pub join_swap : (a : Action) (xs ys : List Action) → join (join a xs) ys ≡ join (join a ys) xs
join_swap a xs ys =
    let x = join allow xs in
    let y = join allow ys in
    cc (
      join-stricter (join a xs) ys,
      join-stricter (join a ys) xs,
      join-stricter a xs,
      join-stricter a ys,
      stricter_assoc a x y,
      stricter_assoc a y x,
      stricter_comm x y,
    )

pub le-join : (a : Action) (xs : List Action) → action_priority a ≤ action_priority (join a xs)
unfolding join
le-join a [] = omega arith
le-join a (x ∷ xs) = omega (arith, le-stricter a x, le-join (stricter a x) xs)

-- A join is `deny` exactly when an item is.
pub join-deny :
    (a : Action) (xs : List Action) → is_deny (join a xs) ≡ (is_deny a || any is_deny xs)
unfolding join stricter
join-deny a [] = ground arith
join-deny a (x ∷ xs) = ground (arith, join-deny (stricter a x) xs)

pub join_mono :
    (a b : Action) (xs : List Action)
    → action_priority a ≤ action_priority b
    → action_priority (join a xs) ≤ action_priority (join b xs)
unfolding join stricter
join_mono a b [] h = h
join_mono a b (x ∷ xs) h = join_mono (stricter a x) (stricter b x) xs (ground arith)
