-- ===== src/Incident/Walk.antt =====
-- What every history of moves that `check_transition` lets through has in common.
use sre_blackboard.Common.{
  ◌<◌, ◌≡◌, refl, sym, subst, Bool, true, false, ◌||◌, none, some, List, [], ◌∷◌, any, arith,
  Bool-cases, inl, inr,
}
use sre_blackboard.Incident.State.{
  State, received, triaged, investigating, diagnosed, planned, safety_reviewed, awaiting_approval,
  executing, verifying, resolved, escalated, is_terminal, place, same_state, same_state_eq,
  same_state_refl, terminal, check_transition,
}

abbrev pub IsLegal : State → State → Type 0
IsLegal s t = check_transition s t ≡ none

-- The moves of an incident from its creation.
pub data Walk : State → Type 0 where
  start : Walk received
  move : {s : State} (t : State) → Walk s → IsLegal s t → Walk t

-- The states that a walk has been in, its last one included.
abbrev pub visited : {s : State} → Walk s → State → Bool
visited start x = same_state x received
visited (move t w h) x = same_state x t || visited w x

-- The states without which a state is not reached.
abbrev pub needed : State → List State
needed received = []
needed triaged = received ∷ []
needed investigating = triaged ∷ received ∷ []
needed diagnosed = investigating ∷ triaged ∷ received ∷ []
needed planned = diagnosed ∷ investigating ∷ triaged ∷ received ∷ []
needed safety_reviewed = planned ∷ diagnosed ∷ investigating ∷ triaged ∷ received ∷ []
needed awaiting_approval =
    safety_reviewed ∷ planned ∷ diagnosed ∷ investigating ∷ triaged ∷ received ∷ []
needed executing = safety_reviewed ∷ planned ∷ diagnosed ∷ investigating ∷ triaged ∷ received ∷ []
needed verifying =
    executing ∷ safety_reviewed ∷ planned ∷ diagnosed ∷ investigating ∷ triaged ∷ received ∷ []
needed resolved =
    verifying ∷ executing ∷ safety_reviewed ∷ planned ∷ diagnosed ∷ investigating ∷ triaged
    ∷ received ∷ []
needed escalated = received ∷ []

-- Over all moves: what is needed for the new state is the old state or was needed for it.
needed_step :
    (s t x : State)
    → IsLegal s t
    → any (same_state x) (needed t) ≡ true
    → (same_state x s || any (same_state x) (needed s)) ≡ true
unfolding check_transition
needed_step s t x h k = ground arith

visited_last : {s : State} (w : Walk s) → visited w s ≡ true
visited_last start = refl
visited_last (move {s} t w h) = ground (arith, same_state_refl t)

-- However an incident came to a state, it was before in each state that the design wants it to
-- have passed: it is not executed before it was diagnosed, planned and reviewed, nor resolved
-- before it was verified.
pub walk-needed :
    {s : State} (w : Walk s) (x : State) → any (same_state x) (needed s) ≡ true → visited w x ≡ true
walk-needed start x k = absurd (ground arith)
walk-needed (move {s} t w h) x k = elim (Bool-cases (same_state x s)) [
  | inl e ↦
      let last : visited w x ≡ true =
        subst (λ y. visited w y ≡ true) (sym (same_state_eq x s e)) (visited_last w) in
      ground arith
  | inr e ↦
      let older : visited w x ≡ true = walk-needed w x (ground (arith, needed_step s t x h k)) in
      ground arith
]

-- The way on from a state: the number of moves to RESOLVED, and the next of them.
abbrev onward : State → State
onward received = triaged
onward triaged = investigating
onward investigating = diagnosed
onward diagnosed = planned
onward planned = safety_reviewed
onward safety_reviewed = executing
onward awaiting_approval = executing
onward executing = verifying
onward verifying = resolved
onward s = s

-- What the moves out of a state allow.
abbrev pub Open : State → Type 0
Open s =
    (is_terminal s ≡ true → (t : State) → check_transition s t ≡ some (terminal s))
    × (is_terminal s ≡ false → IsLegal s escalated)
    × ((t : State) → IsLegal s t → t ≡ received → ⊥)
    × (is_terminal s ≡ false
        → (t : State) × IsLegal s t × (same_state t escalated ≡ false) × (place s < place t))

-- The moves are sound and leave no incident stuck: a terminal state has no move out of it; any
-- other state can be given up, and has a move that brings it nearer to RESOLVED; and no move goes
-- back to RECEIVED.
pub transitions-Open : (s : State) → Open s
unfolding check_transition
transitions-Open s = (
  (λ e t. ground arith),
  (λ e. ground arith),
  (λ t h r. ground arith),
  (λ e. (onward s, ground arith, ground arith, ground arith)),
)
