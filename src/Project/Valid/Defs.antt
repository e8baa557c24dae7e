-- ===== src/Project/Valid/Defs.antt =====
-- The invariant of the domain state of internal/project.
use duo.Prelude.{◌≡◌, ◌⊎◌, Bool, true, ◌||◌, not, is_empty}
use duo.Project.Mode.{Mode, mode_eq, Phase, phase_eq, valid_phase}
use duo.Project.Steps.{first_open_step}
use duo.Project.Switch.{is_known_mode}
use duo.Project.State.{State, Result, ok, err, Transition}

-- No queue is being worked.
abbrev pub is_parked : State → Bool
is_parked s =
    not (mode_eq s.mode Mode.step) || (phase_eq s.phase Phase.plan || phase_eq s.phase Phase.done)

-- The mode is one of the four, its chain has the phase, and the cursor is at the first open step,
-- or there is no queue and none is being worked.
pub record IsValid (s : State) : Type 0 where
  pub known : is_known_mode s.mode ≡ true
  pub in_mode : valid_phase s.mode s.phase ≡ true
  pub cursor :
      (s.step ≡ first_open_step s.steps) ⊎ ((is_empty s.steps ≡ true) × (is_parked s ≡ true))

-- The state that a method of a policy leaves: an error changes nothing.
abbrev pub after : State → Result (State × Transition) → State
after s (ok (s', t)) = s'
after s (err e) = s

abbrev pub after_state : State → Result State → State
after_state s (ok s') = s'
after_state s (err e) = s
