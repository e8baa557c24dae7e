-- ===== src/Project/Gates/History.antt =====
-- The step gate over histories: internal/project, every operation on a Step session.
use duo.Prelude.{◌≡◌, ◌≢◌, inl, inr, Option-cases, Bool, true, none, some, List, [], ◌∷◌, arith}
use duo.Text.{Text, trim_space}
use duo.Project.Agent.{AgentId}
use duo.Project.Mode.{Mode, Phase}
use duo.Project.Verification.{Time, VerificationResult}
use duo.Project.Steps.{Step}
use duo.Project.State.{State, current_step, new_state_for}
use duo.Project.Snapshot.{Snapshot}
use duo.Project.Session
use duo.Project.Switch
use duo.Project.Restore
use duo.Project.Operation.{Op, apply, run}
use duo.Project.Workflow.Goal
use duo.Project.Workflow.Fast
use duo.Project.Workflow.Dispatch.{run_land_step, workflow}
use duo.Project.Workflow.Step
use duo.Project.Valid.Defs.{IsValid, after, after_state}
use duo.Project.Valid.Run.{apply-IsValid, new_state_for-IsValid}
use duo.Project.Kept.Defs.{Kept}
use duo.Project.Kept.Lift.{apply-Kept}
use duo.Project.Gates.Landing.{
  IsReviewed, GateHolds, sign_gate, verdict_gate, land_gate, queue_gate, plan_gate, complete_gate,
  reopen_gate, revoke_gate,
}

-- No queue is extended in INTEGRATE once it has no current step, and no snapshot is restored that
-- stands in INTEGRATE.
abbrev pub Allowed : Op → State → Type 0
Allowed (Op.set_steps now agent list append) s = s.phase ≡ Phase.integrate → current_step s ≢ none
Allowed (Op.restore now snap) s = snap.phase ≢ Phase.integrate
Allowed _ s = Unit

-- Every operation of a history is allowed where it is applied.
abbrev pub AllAllowed : List Op → State → Type 0
AllAllowed [] s = Unit
AllAllowed (op ∷ ops) s = Allowed op s × AllAllowed ops (apply op s).state

abbrev KeepsGate : Op → State → State → Type 0
KeepsGate op s t = Allowed op s → GateHolds s → GateHolds t

module _ (now : Time) (s : State) where
  goal_plan : (plan : Text) → (after_state s (Goal.set_plan now s plan)).mode ≡ s.mode
  unfolding Goal.set_plan
  goal_plan plan = ground arith

  goal_sign :
      (agent : AgentId) (ready : Bool) (note evidence : Text)
      → (after s (Goal.set_ready now s agent ready note evidence)).mode ≡ s.mode
  unfolding Goal.set_ready
  goal_sign agent ready note evidence = ground arith

  goal_complete : (after_state s (Goal.complete now s)).mode ≡ s.mode
  unfolding Goal.complete
  goal_complete = ground arith

  goal_reopen : (after_state s (Goal.reopen now s)).mode ≡ s.mode
  unfolding Goal.reopen
  goal_reopen = ground arith

  fast_sign :
      (agent : AgentId) (ready : Bool) (note evidence : Text)
      → (after s (Fast.set_ready now s agent ready note evidence)).mode ≡ s.mode
  unfolding Fast.set_ready
  fast_sign agent ready note evidence = ground arith

  fast_verdict :
      (agent : AgentId) (result : VerificationResult) (note head : Text)
      → (after s (Fast.set_verification now s agent result note head)).mode ≡ s.mode
  unfolding Fast.set_verification
  fast_verdict agent result note head = ground arith

  fast_complete : (after_state s (Fast.complete now s)).mode ≡ s.mode
  unfolding Fast.complete
  fast_complete = ground arith

  fast_reopen : (after_state s (Fast.reopen now s)).mode ≡ s.mode
  unfolding Fast.reopen
  fast_reopen = ground arith

  escalate : (reason : Text) → (Switch.escalate_locked now reason s).mode ≡ Mode.goal
  unfolding Switch.escalate_locked
  escalate reason = ground arith

  switch :
      (target : Mode) (reason : Text)
      → Switch.is_known_mode target ≡ true
      → (Switch.switch_locked now target reason s).mode ≡ Mode.step
      → (Switch.switch_locked now target reason s).phase ≢ Phase.integrate
  unfolding Switch.switch_locked
  switch target reason k m p = ground arith

  revoke_ready :
      (agent : AgentId) (note : Text)
      → GateHolds s
      → GateHolds (Session.revoke_ready now agent note s).state
  unfolding Session.revoke_ready current_step
  revoke_ready agent note g = ground arith

  restore :
      (snap : Snapshot)
      → snap.phase ≢ Phase.integrate
      → GateHolds s
      → GateHolds (Restore.restore now snap s).state
  unfolding Restore.restore
  restore snap n g = ground arith

gate_kept : Kept KeepsGate
unfolding current_step
gate_kept = record {
  frame = λ op s t v f a g m p. ground arith;
  goal_set_plan = λ now agent plan s v m a g n p. cc (goal_plan now s (trim_space plan));
  step_set_plan = λ now agent plan s v m a g. plan_gate now s m _ g;
  step_set_steps = λ now agent list append s v m a g. queue_gate now s m _ append a g;
  goal_set_ready =
      λ now agent ready note evidence s v m a g n p. cc (goal_sign now s agent ready note evidence);
  fast_set_ready =
      λ now agent ready note evidence s v m a g n p. cc (fast_sign now s agent ready note evidence);
  step_set_ready = λ now agent ready note evidence p s v m e a g.
      sign_gate now s m p agent ready note evidence e g;
  fast_set_verification =
      λ now agent result note head s v m a g n p. cc (fast_verdict now s agent result note head);
  step_set_verification =
      λ now agent result note head s v m a g. verdict_gate now s m agent result note head g;
  goal_complete = λ now s v m a g n p. cc (goal_complete now s);
  fast_complete = λ now s v m a g n p. cc (fast_complete now s);
  step_complete = λ now s v m a g. complete_gate now s m g;
  loop_complete = λ now s v m p f a g n q. cc;
  goal_reopen = λ now s v m a g n p. cc (goal_reopen now s);
  fast_reopen = λ now s v m a g n p. cc (fast_reopen now s);
  step_reopen = λ now s v m a g. reopen_gate now s m g;
  loop_reopen = λ now s v m a g n p. cc;
  step_land_step = λ now at head s v m a g. land_gate now s m at _ g;
  step_revoke_step = λ now reason s v m a g. revoke_gate now s m reason g;
  escalate = λ op now reason s v o a g n p. cc (escalate now s reason);
  switch = λ now target reason s v k a g n p. absurd (switch now s target reason k n p);
  revoke_ready = λ now agent note s v a g. revoke_ready now s agent note g;
  restore = λ now snap s v a g. restore now s snap a g;
}

run-GateHolds :
    (ops : List Op) (s : State) → IsValid s → AllAllowed ops s → GateHolds s → GateHolds (run ops s)
unfolding run
run-GateHolds [] s v a g = g
run-GateHolds (op ∷ ops) s v a g =
    run-GateHolds ops (apply op s).state (apply-IsValid op s v) a.1
      (apply-Kept KeepsGate gate_kept s v op a.0 g)

land_accepted :
    (now : Time) (at head : Text) (s : State)
    → (Session.land_step now at head s).error ≡ none
    → (s.mode ≡ Mode.step) × (s.phase ≡ Phase.integrate) × (current_step s ≢ none)
unfolding Session.land_step run_land_step Step.land_step workflow
land_accepted now at head s e = (ground arith, ground arith, λ c. ground arith)

land_needs_gate :
    (now : Time) (at head : Text) (s : State)
    → GateHolds s
    → (Session.land_step now at head s).error ≡ none
    → (st : Step) × (current_step s ≡ some st) × IsReviewed st
land_needs_gate now at head s g e =
    let (m, p, c) = land_accepted now at head s e in
    elim (Option-cases (current_step s)) [
      | inl n ↦ absurd (c n)
      | inr (st, found) ↦ (st, found, ground (arith, g m p))
    ]

new_state_for-GateHolds : (now : Time) (mode : Mode) → GateHolds (new_state_for now mode)
unfolding new_state_for
new_state_for-GateHolds now mode m p = ground arith

-- After every history of a new session that neither restores a snapshot in INTEGRATE nor extends a
-- queue that is finished in INTEGRATE, a step that `LandStep` accepts is a GOAL step, or Tony's verdict
-- on it is `passed` and bound to the head that Austin submitted for it.
pub landed_step-IsReviewed :
    (start : Time) (mode : Mode) (ops : List Op) (now : Time) (at head : Text)
    → AllAllowed ops (new_state_for start mode)
    → (Session.land_step now at head (run ops (new_state_for start mode))).error ≡ none
    → (st : Step) × (current_step (run ops (new_state_for start mode)) ≡ some st) × IsReviewed st
landed_step-IsReviewed start mode ops now at head a e =
    let s = new_state_for start mode in
    land_needs_gate now at head (run ops s)
      (run-GateHolds ops s (new_state_for-IsValid start mode) a
        (new_state_for-GateHolds start mode))
      e
