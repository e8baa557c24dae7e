-- ===== src/Project/Kept/Defs.antt =====
-- The obligations that make a relation hold across every operation on a valid state.
use duo.Prelude.{◌≡◌, Bool, true, ◌⊎◌}
use duo.Text.{Text, trim_space}
use duo.Project.Agent.{AgentId}
use duo.Project.Mode.{Mode, Phase}
use duo.Project.Verification.{Time, VerificationResult}
use duo.Project.Steps.Parse.{parse_steps}
use duo.Project.State.{State}
use duo.Project.Snapshot.{Snapshot}
use duo.Project.Session
use duo.Project.Switch
use duo.Project.Restore
use duo.Project.Operation.{Op}
use duo.Project.Valid.Defs.{IsValid, after, after_state}
use duo.Project.Workflow.Goal
use duo.Project.Workflow.Fast
use duo.Project.Workflow.Step
use duo.Project.Kept.Frame.{LoopFrame}

pub record Kept {κ} (R : Op → State → State → Type κ) : Type κ where
  -- An operation that changes nothing, and one that changes what a LOOP operation may.
  pub frame : (op : Op) (s t : State) → IsValid s → LoopFrame s t → R op s t
  pub goal_set_plan :
      (now : Time) (agent : AgentId) (plan : Text) (s : State)
      → IsValid s
      → s.mode ≡ Mode.goal
      → R (Op.set_plan now agent plan) s (after_state s (Goal.set_plan now s (trim_space plan)))
  pub step_set_plan :
      (now : Time) (agent : AgentId) (plan : Text) (s : State)
      → IsValid s
      → s.mode ≡ Mode.step
      → R (Op.set_plan now agent plan) s (after_state s (Step.set_plan now s (trim_space plan)))
  pub step_set_steps :
      (now : Time) (agent : AgentId) (list : Text) (append : Bool) (s : State)
      → IsValid s
      → s.mode ≡ Mode.step
      → R
          (Op.set_steps now agent list append)
          s
          (after_state s (Step.set_steps now s (parse_steps list) append))
  pub goal_set_ready :
      (now : Time) (agent : AgentId) (ready : Bool) (note evidence : Text) (s : State)
      → IsValid s
      → s.mode ≡ Mode.goal
      → R
          (Op.set_ready now agent ready note evidence)
          s
          (after s (Goal.set_ready now s agent ready note evidence))
  pub fast_set_ready :
      (now : Time) (agent : AgentId) (ready : Bool) (note evidence : Text) (s : State)
      → IsValid s
      → s.mode ≡ Mode.fast
      → R
          (Op.set_ready now agent ready note evidence)
          s
          (after s (Fast.set_ready now s agent ready note evidence))
  pub step_set_ready :
      (now : Time) (agent : AgentId) (ready : Bool) (note evidence : Text) (p : Phase) (s : State)
      → IsValid s
      → s.mode ≡ Mode.step
      → s.phase ≡ p
      → R
          (Op.set_ready now agent ready note evidence)
          s
          (after s (Step.set_ready_at p now s agent ready note evidence))
  pub fast_set_verification :
      (now : Time) (agent : AgentId) (result : VerificationResult) (note head : Text) (s : State)
      → IsValid s
      → s.mode ≡ Mode.fast
      → R
          (Op.set_verification now agent result note head)
          s
          (after s (Fast.set_verification now s agent result note head))
  pub step_set_verification :
      (now : Time) (agent : AgentId) (result : VerificationResult) (note head : Text) (s : State)
      → IsValid s
      → s.mode ≡ Mode.step
      → R
          (Op.set_verification now agent result note head)
          s
          (after s (Step.set_verification now s agent result note head))
  pub goal_complete :
      (now : Time) (s : State)
      → IsValid s
      → s.mode ≡ Mode.goal
      → R (Op.complete now) s (after_state s (Goal.complete now s))
  pub fast_complete :
      (now : Time) (s : State)
      → IsValid s
      → s.mode ≡ Mode.fast
      → R (Op.complete now) s (after_state s (Fast.complete now s))
  pub step_complete :
      (now : Time) (s : State)
      → IsValid s
      → s.mode ≡ Mode.step
      → R (Op.complete now) s (after_state s (Step.complete now s))
  pub loop_complete :
      (now : Time) (s : State)
      → IsValid s
      → s.mode ≡ Mode.loop
      → s.phase ≡ Phase.integrate
      → s.loop.finishing ≡ true
      → R (Op.complete now) s (Session.finish_loop s)
  pub goal_reopen :
      (now : Time) (s : State)
      → IsValid s
      → s.mode ≡ Mode.goal
      → R (Op.reopen now) s (after_state s (Goal.reopen now s))
  pub fast_reopen :
      (now : Time) (s : State)
      → IsValid s
      → s.mode ≡ Mode.fast
      → R (Op.reopen now) s (after_state s (Fast.reopen now s))
  pub step_reopen :
      (now : Time) (s : State)
      → IsValid s
      → s.mode ≡ Mode.step
      → R (Op.reopen now) s (after_state s (Step.reopen now s))
  pub loop_reopen :
      (now : Time) (s : State)
      → IsValid s
      → s.mode ≡ Mode.loop
      → R (Op.reopen now) s (Session.reopened_loop s)
  pub step_land_step :
      (now : Time) (at head : Text) (s : State)
      → IsValid s
      → s.mode ≡ Mode.step
      → R (Op.land_step now at head) s (after s (Step.land_step now at s (trim_space head)))
  pub step_revoke_step :
      (now : Time) (reason : Text) (s : State)
      → IsValid s
      → s.mode ≡ Mode.step
      → R (Op.revoke_step_submission now reason) s (after s (Step.revoke_step now s reason))
  pub escalate :
      (op : Op) (now : Time) (reason : Text) (s : State)
      → IsValid s
      → (op ≡ Op.escalate_to_goal now reason) ⊎ (op ≡ Op.switch_mode now Mode.goal reason)
      → R op s (Switch.escalate_locked now reason s)
  pub switch :
      (now : Time) (target : Mode) (reason : Text) (s : State)
      → IsValid s
      → Switch.is_known_mode target ≡ true
      → R (Op.switch_mode now target reason) s (Switch.switch_locked now target reason s)
  pub revoke_ready :
      (now : Time) (agent : AgentId) (note : Text) (s : State)
      → IsValid s
      → R (Op.revoke_ready now agent note) s (Session.revoke_ready now agent note s).state
  pub restore :
      (now : Time) (snap : Snapshot) (s : State)
      → IsValid s
      → R (Op.restore now snap) s (Restore.restore now snap s).state
