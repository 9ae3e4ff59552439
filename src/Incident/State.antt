-- ===== src/Incident/State.antt =====
-- app/db/incidents.py: TERMINAL, TRANSITIONS and `check_transition`.
use sre_blackboard.Common.{
  ℕ, zero, suc, ◌≡◌, refl, sym, ap, ◌∙◌, Bool, true, false, not, ◌&&◌, Option, none, some, List, [],
  ◌∷◌, any, ◌==◌, ==_iff, ==_refl, if◌then◌else◌,
}

pub data State : Type 0 where
  received triaged investigating diagnosed planned safety_reviewed : State
  awaiting_approval executing verifying resolved escalated : State

abbrev pub is_terminal : State → Bool
is_terminal resolved = true
is_terminal escalated = true
is_terminal _ = false

-- TRANSITIONS.get(state, frozenset())
abbrev pub transitions : State → List State
transitions received = triaged ∷ []
transitions triaged = investigating ∷ []
transitions investigating = diagnosed ∷ []
transitions diagnosed = planned ∷ investigating ∷ []
transitions planned = safety_reviewed ∷ []
transitions safety_reviewed = awaiting_approval ∷ executing ∷ []
transitions awaiting_approval = executing ∷ planned ∷ []
transitions executing = verifying ∷ []
transitions verifying = resolved ∷ []
transitions resolved = []
transitions escalated = []

-- The place of a state in INCIDENT_STATES, by which two states are compared.
abbrev pub place : State → ℕ
place received = 0
place triaged = 1
place investigating = 2
place diagnosed = 3
place planned = 4
place safety_reviewed = 5
place awaiting_approval = 6
place executing = 7
place verifying = 8
place resolved = 9
place escalated = 10

abbrev pub same_state : State → State → Bool
same_state s t = place s == place t

abbrev state_at : ℕ → State
state_at zero = received
state_at (suc zero) = triaged
state_at (suc (suc zero)) = investigating
state_at (suc (suc (suc zero))) = diagnosed
state_at (suc (suc (suc (suc zero)))) = planned
state_at (suc (suc (suc (suc (suc zero))))) = safety_reviewed
state_at (suc (suc (suc (suc (suc (suc zero)))))) = awaiting_approval
state_at (suc (suc (suc (suc (suc (suc (suc zero))))))) = executing
state_at (suc (suc (suc (suc (suc (suc (suc (suc zero)))))))) = verifying
state_at (suc (suc (suc (suc (suc (suc (suc (suc (suc zero))))))))) = resolved
state_at _ = escalated

state_at-place : (s : State) → state_at (place s) ≡ s
state_at-place received = refl
state_at-place triaged = refl
state_at-place investigating = refl
state_at-place diagnosed = refl
state_at-place planned = refl
state_at-place safety_reviewed = refl
state_at-place awaiting_approval = refl
state_at-place executing = refl
state_at-place verifying = refl
state_at-place resolved = refl
state_at-place escalated = refl

pub same_state_eq : (s t : State) → same_state s t ≡ true → s ≡ t
same_state_eq s t h =
    sym (state_at-place s) ∙ ap state_at ((==_iff (place s) (place t)).0 h) ∙ state_at-place t

pub same_state_refl : (s : State) → same_state s s ≡ true
same_state_refl s = ==_refl (place s)

pub data Illegal : Type 0 where
  terminal : State → Illegal
  not_allowed : State → State → Illegal

-- `none`: the move may be made; else the IllegalTransition that is raised.
unfoldable pub check_transition : State → State → Option Illegal
check_transition from to =
    if is_terminal from
    then some (terminal from)
    else if not (same_state to escalated) && not (any (same_state to) (transitions from))
    then some (not_allowed from to)
    else none
