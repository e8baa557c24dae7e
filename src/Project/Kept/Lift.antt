-- ===== src/Project/Kept/Lift.antt =====
-- A relation that meets the obligations holds across every operation on a valid state.
use duo.Prelude.{◌≡◌, refl, inl, inr, Bool, true, arith}
use duo.Text.{Text, trim_space}
use duo.Project.Agent.{AgentId}
use duo.Project.Mode.{Mode}
use duo.Project.Verification.{Time, VerificationResult}
use duo.Project.Steps.Parse.{parse_steps}
use duo.Project.State.{State}
use duo.Project.Session
use duo.Project.Switch
use duo.Project.Loop.Turn
use duo.Project.Operation.{Op, apply}
use duo.Project.Workflow.Dispatch.{
  workflow, run_set_plan, run_set_ready, run_set_verification, run_complete, run_set_steps,
  run_land_step, run_revoke_step, run_reopen,
}
use duo.Project.Workflow.Step
use duo.Project.Valid.Defs.{IsValid, after, after_state}
use duo.Project.Kept.Frame.{
  LoopFrame, loop_send-LoopFrame, loop_events-LoopFrame, loop_human-LoopFrame,
  loop_observe-LoopFrame, loop_ask-LoopFrame, loop_reply-LoopFrame, loop_finish-LoopFrame,
  loop_wait-LoopFrame, loop_activity-LoopFrame, loop_timers-LoopFrame,
}
use duo.Project.Kept.Defs.{Kept}

LoopFrame-refl : (s : State) → LoopFrame s s
LoopFrame-refl s = ground arith

module _ {κ} (R : Op → State → State → Type κ) (kept : Kept R) (s : State) (v : IsValid s) where
  same : (op : Op) → R op s s
  same op = kept.frame op s s v (LoopFrame-refl s)

  dispatch_set_plan :
      (mode : Mode) (now : Time) (agent : AgentId) (plan : Text)
      → s.mode ≡ mode
      → R
          (Op.set_plan now agent plan)
          s
          (after_state s (run_set_plan (workflow mode) now s (trim_space plan)))
  unfolding run_set_plan workflow
  dispatch_set_plan Mode.goal now agent plan e = kept.goal_set_plan now agent plan s v e
  dispatch_set_plan Mode.step now agent plan e = kept.step_set_plan now agent plan s v e
  dispatch_set_plan Mode.fast now agent plan e = same _
  dispatch_set_plan Mode.loop now agent plan e = same _
  dispatch_set_plan (Mode.other t) now agent plan e = absurd (ground (arith, v.known))

  dispatch_set_ready :
      (mode : Mode) (now : Time) (agent : AgentId) (ready : Bool) (note evidence : Text)
      → s.mode ≡ mode
      → R
          (Op.set_ready now agent ready note evidence)
          s
          (after s (run_set_ready (workflow mode) now s agent ready note evidence))
  unfolding run_set_ready workflow Step.set_ready
  dispatch_set_ready Mode.goal now agent ready note evidence e =
      kept.goal_set_ready now agent ready note evidence s v e
  dispatch_set_ready Mode.step now agent ready note evidence e =
      kept.step_set_ready now agent ready note evidence s.phase s v e refl
  dispatch_set_ready Mode.fast now agent ready note evidence e =
      kept.fast_set_ready now agent ready note evidence s v e
  dispatch_set_ready Mode.loop now agent ready note evidence e = same _
  dispatch_set_ready (Mode.other t) now agent ready note evidence e =
      absurd (ground (arith, v.known))

  dispatch_set_verification :
      (mode : Mode) (now : Time) (agent : AgentId) (result : VerificationResult) (note head : Text)
      → s.mode ≡ mode
      → R
          (Op.set_verification now agent result note head)
          s
          (after s (run_set_verification (workflow mode) now s agent result note head))
  unfolding run_set_verification workflow
  dispatch_set_verification Mode.fast now agent result note head e =
      kept.fast_set_verification now agent result note head s v e
  dispatch_set_verification Mode.step now agent result note head e =
      kept.step_set_verification now agent result note head s v e
  dispatch_set_verification _ now agent result note head e = same _

  dispatch_complete :
      (mode : Mode) (now : Time)
      → s.mode ≡ mode
      → R (Op.complete now) s (after_state s (run_complete (workflow mode) now s))
  unfolding run_complete workflow
  dispatch_complete Mode.goal now e = kept.goal_complete now s v e
  dispatch_complete Mode.fast now e = kept.fast_complete now s v e
  dispatch_complete Mode.step now e = kept.step_complete now s v e
  dispatch_complete Mode.loop now e = same _
  dispatch_complete (Mode.other t) now e = absurd (ground (arith, v.known))

  dispatch_reopen :
      (mode : Mode) (now : Time)
      → s.mode ≡ mode
      → R (Op.reopen now) s (after_state s (run_reopen (workflow mode) now s))
  unfolding run_reopen workflow
  dispatch_reopen Mode.goal now e = kept.goal_reopen now s v e
  dispatch_reopen Mode.fast now e = kept.fast_reopen now s v e
  dispatch_reopen Mode.step now e = kept.step_reopen now s v e
  dispatch_reopen Mode.loop now e = same _
  dispatch_reopen (Mode.other t) now e = absurd (ground (arith, v.known))

  dispatch_set_steps :
      (mode : Mode) (now : Time) (agent : AgentId) (list : Text) (append : Bool)
      → s.mode ≡ mode
      → R
          (Op.set_steps now agent list append)
          s
          (after_state s (run_set_steps (workflow mode) now s (parse_steps list) append))
  unfolding run_set_steps workflow
  dispatch_set_steps Mode.step now agent list append e =
      kept.step_set_steps now agent list append s v e
  dispatch_set_steps _ now agent list append e = same _

  dispatch_land_step :
      (mode : Mode) (now : Time) (at head : Text)
      → s.mode ≡ mode
      → R
          (Op.land_step now at head)
          s
          (after s (run_land_step (workflow mode) now at s (trim_space head)))
  unfolding run_land_step workflow
  dispatch_land_step Mode.step now at head e = kept.step_land_step now at head s v e
  dispatch_land_step _ now at head e = same _

  dispatch_revoke_step :
      (mode : Mode) (now : Time) (reason : Text)
      → s.mode ≡ mode
      → R
          (Op.revoke_step_submission now reason)
          s
          (after s (run_revoke_step (workflow mode) now s reason))
  unfolding run_revoke_step workflow
  dispatch_revoke_step Mode.step now reason e = kept.step_revoke_step now reason s v e
  dispatch_revoke_step _ now reason e = same _

  across_set_plan :
      (now : Time) (agent : AgentId) (plan : Text)
      → R (Op.set_plan now agent plan) s (Session.set_plan now agent plan s).state
  unfolding Session.set_plan
  across_set_plan now agent plan =
      ground
        (arith, same (Op.set_plan now agent plan), dispatch_set_plan s.mode now agent plan refl)

  across_set_steps :
      (now : Time) (agent : AgentId) (list : Text) (append : Bool)
      → R (Op.set_steps now agent list append) s (Session.set_steps now agent list append s).state
  unfolding Session.set_steps
  across_set_steps now agent list append = ground (
    arith,
    same (Op.set_steps now agent list append),
    dispatch_set_steps s.mode now agent list append refl,
  )

  across_set_ready :
      (now : Time) (agent : AgentId) (ready : Bool) (note evidence : Text)
      → R
          (Op.set_ready now agent ready note evidence)
          s
          (Session.set_ready now agent ready note evidence s).state
  unfolding Session.set_ready
  across_set_ready now agent ready note evidence = ground (
    arith,
    same (Op.set_ready now agent ready note evidence),
    dispatch_set_ready s.mode now agent ready note evidence refl,
  )

  across_set_verification :
      (now : Time) (agent : AgentId) (result : VerificationResult) (note head : Text)
      → R
          (Op.set_verification now agent result note head)
          s
          (Session.set_verification now agent result note head s).state
  unfolding Session.set_verification
  across_set_verification now agent result note head = ground (
    arith,
    same (Op.set_verification now agent result note head),
    dispatch_set_verification s.mode now agent result note head refl,
  )

  across_land_step :
      (now : Time) (at head : Text)
      → R (Op.land_step now at head) s (Session.land_step now at head s).state
  unfolding Session.land_step
  across_land_step now at head = ground (arith, dispatch_land_step s.mode now at head refl)

  across_revoke_step :
      (now : Time) (reason : Text)
      → R
          (Op.revoke_step_submission now reason)
          s
          (Session.revoke_step_submission now reason s).state
  unfolding Session.revoke_step_submission
  across_revoke_step now reason = ground (arith, dispatch_revoke_step s.mode now reason refl)

  across_complete : (now : Time) → R (Op.complete now) s (Session.complete now s).state
  unfolding Session.complete
  across_complete now =
      ground (arith, dispatch_complete s.mode now refl, kept.loop_complete now s v)

  across_reopen : (now : Time) → R (Op.reopen now) s (Session.reopen now s).state
  unfolding Session.reopen
  across_reopen now = ground (arith, dispatch_reopen s.mode now refl, kept.loop_reopen now s v)

  across_escalate :
      (now : Time) (reason : Text)
      → R (Op.escalate_to_goal now reason) s (Switch.escalate_to_goal now reason s).state
  unfolding Switch.escalate_to_goal
  across_escalate now reason = ground (
    arith,
    same (Op.escalate_to_goal now reason),
    kept.escalate (Op.escalate_to_goal now reason) now reason s v (inl refl),
  )

  across_switch :
      (now : Time) (target : Mode) (reason : Text)
      → R (Op.switch_mode now target reason) s (Switch.switch_mode now target reason s).state
  unfolding Switch.switch_mode
  across_switch now target reason = ground (
    arith,
    same (Op.switch_mode now target reason),
    kept.escalate (Op.switch_mode now Mode.goal reason) now reason s v (inr refl),
    λ (k : Switch.is_known_mode target ≡ true). kept.switch now target reason s v k,
  )

  -- The relation holds across every operation.
  pub apply-Kept : (op : Op) → R op s (apply op s).state
  unfolding apply Session.mark_started Session.set_persistence Turn.loop_wake Turn.reset_loop_wakes
  apply-Kept Op.mark_started = kept.frame _ s _ v (ground arith)
  apply-Kept (Op.set_plan now agent plan) = across_set_plan now agent plan
  apply-Kept (Op.set_steps now agent list append) = across_set_steps now agent list append
  apply-Kept (Op.land_step now at head) = across_land_step now at head
  apply-Kept (Op.revoke_step_submission now reason) = across_revoke_step now reason
  apply-Kept (Op.set_ready now agent ready note evidence) =
      across_set_ready now agent ready note evidence
  apply-Kept (Op.set_verification now agent result note head) =
      across_set_verification now agent result note head
  apply-Kept (Op.complete now) = across_complete now
  apply-Kept (Op.reopen now) = across_reopen now
  apply-Kept (Op.escalate_to_goal now reason) = across_escalate now reason
  apply-Kept (Op.switch_mode now target reason) = across_switch now target reason
  apply-Kept (Op.revoke_ready now agent note) = kept.revoke_ready now agent note s v
  apply-Kept (Op.set_persistence installed) = kept.frame _ s _ v (ground arith)
  apply-Kept (Op.restore now snap) = kept.restore now snap s v
  apply-Kept (Op.loop_send now from text) = kept.frame _ s _ v (loop_send-LoopFrame s now from text)
  apply-Kept (Op.loop_events id ack through) =
      kept.frame _ s _ v (loop_events-LoopFrame s id ack through)
  apply-Kept (Op.loop_human now text) = kept.frame _ s _ v (loop_human-LoopFrame s now text)
  apply-Kept (Op.loop_observe now tool detail) =
      kept.frame _ s _ v (loop_observe-LoopFrame s now tool detail)
  apply-Kept (Op.loop_ask now id question) =
      kept.frame _ s _ v (loop_ask-LoopFrame s now id question)
  apply-Kept (Op.loop_reply now id question_id answer) =
      kept.frame _ s _ v (loop_reply-LoopFrame s now id question_id answer)
  apply-Kept (Op.loop_finish id summary approve reject) =
      kept.frame _ s _ v (loop_finish-LoopFrame s id summary approve reject)
  apply-Kept (Op.loop_wait now id until reason) =
      kept.frame _ s _ v (loop_wait-LoopFrame s now id until reason)
  apply-Kept (Op.loop_activity id activity tool) =
      kept.frame _ s _ v (loop_activity-LoopFrame s id activity tool)
  apply-Kept (Op.loop_wake limit) = kept.frame _ s _ v (ground arith)
  apply-Kept Op.reset_loop_wakes = kept.frame _ s _ v (ground arith)
  apply-Kept (Op.loop_timers now order) = kept.frame _ s _ v (loop_timers-LoopFrame s now order)
