-- ===== src/Controller/AgentTracker/Paths.antt =====
-- Histories of an agent's state in the controller.
use sai3_bench.Prelude.{
  ℕ, ◌<◌, ◌∙◌, Bool-cases, ◌≡◌, ◌≢◌, ◌⊎◌, inl, inr, refl, true, false, none, some, List, [], ◌∷◌,
  arith,
}
use sai3_bench.Controller.AgentTracker.{
  ControllerAgentState, connecting, validating, ready, preparing, running, cleaning, completed,
  failed, disconnected, aborting, AgentTracker, can_transition, transition_to, is_terminal,
  is_active,
}

-- The states that a tracker takes after `s`, each by an admitted transition.
pub data Reach (s : ControllerAgentState) : ControllerAgentState → Type 0 where
  here : Reach s s
  next : {t u : ControllerAgentState} → Reach s t → can_transition t u ≡ true → Reach s u

terminal_step :
    (s t : ControllerAgentState) → is_terminal s ≡ true → can_transition s t ≡ true → t ≡ s
unfolding is_terminal can_transition
terminal_step completed t h k = ground arith
terminal_step failed t h k = ground arith
terminal_step _ t h k = cc

terminal-Reach : {s t : ControllerAgentState} → Reach s t → is_terminal s ≡ true → t ≡ s
terminal-Reach here h = refl
terminal-Reach {s} (next {t = t} {u = u} r k) h =
    let e = terminal-Reach r h in terminal_step t u (rw e h) k ∙ e

-- A tracker that is told of one state after the other; a transition that is refused is dropped.
pub attempts {ℓ} :
    {LiveStats : Type ℓ}
    → List (ℕ × ControllerAgentState)
    → AgentTracker LiveStats
    → AgentTracker LiveStats
attempts [] t = t
attempts ((now, new_state) ∷ rest) t = elim (transition_to now new_state t) [
  | none ↦ attempts rest t
  | some t' ↦ attempts rest t'
]

attempt-Reach {ℓ} :
    {LiveStats : Type ℓ} (s : ControllerAgentState) (ms : List (ℕ × ControllerAgentState))
    (t : AgentTracker LiveStats)
    → Reach s t.state
    → Reach s (attempts ms t).state
unfolding attempts transition_to
attempt-Reach s [] t r = r
attempt-Reach s ((now, u) ∷ ms) t r = elim (Bool-cases (can_transition t.state u)) [
  | inl k ↦ rw (k, transition_to, attempts) (attempt-Reach s ms _ (next r k))
  | inr k ↦ rw (k, transition_to, attempts) (attempt-Reach s ms t r)
]

-- An agent that has completed or failed keeps that state through all later messages: a completed
-- agent is never marked failed, nor a failed one completed.
terminal_forever {ℓ} :
    {LiveStats : Type ℓ} (ms : List (ℕ × ControllerAgentState)) (t : AgentTracker LiveStats)
    → is_terminal t.state ≡ true
    → (attempts ms t).state ≡ t.state
terminal_forever ms t h = terminal-Reach (attempt-Reach t.state ms t here) h

-- How far an agent has come; an abort comes after all phases and before the end.
abbrev pub rank : ControllerAgentState → ℕ
rank connecting = 0
rank validating = 1
rank ready = 2
rank preparing = 3
rank running = 4
rank cleaning = 5
rank aborting = 6
rank completed = 7
rank failed = 7
rank disconnected = 7

-- A transition that changes the state, and does not leave `disconnected`, goes to a state of higher
-- rank.
pub transition_forward :
    (s t : ControllerAgentState)
    → can_transition s t ≡ true
    → s ≢ t
    → s ≢ disconnected
    → rank s < rank t
unfolding can_transition
transition_forward connecting t k n d = ground arith
transition_forward validating t k n d = ground arith
transition_forward ready t k n d = ground arith
transition_forward preparing t k n d = ground arith
transition_forward running t k n d = ground arith
transition_forward cleaning t k n d = ground arith
transition_forward aborting t k n d = ground arith
transition_forward completed t k n d = ground arith
transition_forward failed t k n d = ground arith
transition_forward disconnected t k n d = absurd (d refl)

-- Every agent that has not finished can be marked as lost, and every agent at work as aborting.
pub lost_or_aborted :
    (s : ControllerAgentState)
    → ((is_terminal s ≡ true) ⊎ (can_transition s disconnected ≡ true))
      × ((is_active s ≡ false) ⊎ (can_transition s aborting ≡ true))
unfolding can_transition is_terminal is_active
lost_or_aborted connecting = ground arith
lost_or_aborted completed = ground arith
lost_or_aborted s = ground arith
