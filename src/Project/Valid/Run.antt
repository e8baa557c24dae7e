-- ===== src/Project/Valid/Run.antt =====
-- The invariant holds after every history.
use duo.Prelude.{◌≡◌, true, List, [], ◌∷◌, arith}
use duo.Text.{Text}
use duo.Project.Agent.{AgentId}
use duo.Project.Mode.{Mode, valid_phase}
use duo.Project.Verification.{Time}
use duo.Project.State.{State, new_state_for}
use duo.Project.Snapshot.{Snapshot}
use duo.Project.Session
use duo.Project.Switch
use duo.Project.Restore
use duo.Project.Operation.{Op, apply, run}
use duo.Project.Valid.Defs.{IsValid}
use duo.Project.Valid.Policies
use duo.Project.Valid.StepPolicy
use duo.Project.Kept.Frame.{LoopFrame}
use duo.Project.Kept.Defs.{Kept}
use duo.Project.Kept.Lift.{apply-Kept}

pub new_state_for-IsValid : (now : Time) (mode : Mode) → IsValid (new_state_for now mode)
unfolding new_state_for valid_phase
new_state_for-IsValid now mode = ground arith

frame-IsValid : (s t : State) → IsValid s → LoopFrame s t → IsValid t
unfolding valid_phase
frame-IsValid s t v f = ground arith

escalate_locked-IsValid :
    (now : Time) (reason : Text) (s : State)
    → IsValid s
    → IsValid (Switch.escalate_locked now reason s)
unfolding Switch.escalate_locked valid_phase
escalate_locked-IsValid now reason s v = ground arith

switch_locked-IsValid :
    (now : Time) (target : Mode) (reason : Text) (s : State)
    → Switch.is_known_mode target ≡ true
    → IsValid s
    → IsValid (Switch.switch_locked now target reason s)
unfolding Switch.switch_locked valid_phase
switch_locked-IsValid now target reason s k v = ground arith

restore-IsValid :
    (now : Time) (snap : Snapshot) (s : State)
    → IsValid s
    → IsValid (Restore.restore now snap s).state
unfolding Restore.restore
restore-IsValid now snap s v = ground arith

revoke_ready-IsValid :
    (now : Time) (agent : AgentId) (note : Text) (s : State)
    → IsValid s
    → IsValid (Session.revoke_ready now agent note s).state
unfolding Session.revoke_ready valid_phase
revoke_ready-IsValid now agent note s v = ground arith

module _ (now : Time) (s : State) (v : IsValid s) (m : s.mode ≡ Mode.loop) where
  loop_complete-IsValid : IsValid (Session.finish_loop s)
  unfolding valid_phase
  loop_complete-IsValid = ground arith

  loop_reopen-IsValid : IsValid (Session.reopened_loop s)
  unfolding valid_phase
  loop_reopen-IsValid = ground arith

IsValid-kept : Kept (λ op s t. IsValid t)
IsValid-kept = record {
  frame = λ op s t v f. frame-IsValid s t v f;
  goal_set_plan = λ now agent plan s v m. Policies.goal-set_plan-IsValid now s v m _;
  step_set_plan = λ now agent plan s v m. Policies.step-set_plan-IsValid now s v m _;
  step_set_steps =
      λ now agent list append s v m. Policies.step-set_steps-IsValid now s v m _ append;
  goal_set_ready = λ now agent ready note evidence s v m.
      Policies.goal-set_ready-IsValid now s v m agent ready note evidence;
  fast_set_ready = λ now agent ready note evidence s v m.
      Policies.fast-set_ready-IsValid now s v m agent ready note evidence;
  step_set_ready = λ now agent ready note evidence p s v m e.
      StepPolicy.step-set_ready-IsValid now s v m p e agent ready note evidence;
  fast_set_verification = λ now agent result note head s v m.
      Policies.fast-set_verification-IsValid now s v m agent result note head;
  step_set_verification = λ now agent result note head s v m.
      StepPolicy.step-set_verification-IsValid now s v m agent result note head;
  goal_complete = λ now s v m. Policies.goal-complete-IsValid now s v m;
  fast_complete = λ now s v m. Policies.fast-complete-IsValid now s v m;
  step_complete = λ now s v m. Policies.step-complete-IsValid now s v m;
  loop_complete = λ now s v m p f. loop_complete-IsValid now s v m;
  goal_reopen = λ now s v m. Policies.goal-reopen-IsValid now s v m;
  fast_reopen = λ now s v m. Policies.fast-reopen-IsValid now s v m;
  step_reopen = λ now s v m. Policies.step-reopen-IsValid now s v m;
  loop_reopen = λ now s v m. loop_reopen-IsValid now s v m;
  step_land_step = λ now at head s v m. StepPolicy.step-land_step-IsValid now s v m at _;
  step_revoke_step = λ now reason s v m. StepPolicy.step-revoke_step-IsValid now s v m reason;
  escalate = λ op now reason s v o. escalate_locked-IsValid now reason s v;
  switch = λ now target reason s v k. switch_locked-IsValid now target reason s k v;
  revoke_ready = λ now agent note s v. revoke_ready-IsValid now agent note s v;
  restore = λ now snap s v. restore-IsValid now snap s v;
}

-- Every public operation keeps the invariant, also the restoring of any snapshot at all.
pub apply-IsValid : (op : Op) (s : State) → IsValid s → IsValid (apply op s).state
apply-IsValid op s v = apply-Kept (λ op s t. IsValid t) IsValid-kept s v op

pub run_from-IsValid : (ops : List Op) (s : State) → IsValid s → IsValid (run ops s)
unfolding run
run_from-IsValid [] s v = v
run_from-IsValid (op ∷ ops) s v = run_from-IsValid ops (apply op s).state (apply-IsValid op s v)

-- After every history of a new session in any mode, restores of arbitrary snapshots included: the
-- mode is one of the four, the phase belongs to its chain, and the cursor is at the first open step
-- of the queue, or there is no queue and none is being worked.
pub run-IsValid :
    (now : Time) (mode : Mode) (ops : List Op) → IsValid (run ops (new_state_for now mode))
run-IsValid now mode ops =
    run_from-IsValid ops (new_state_for now mode) (new_state_for-IsValid now mode)
