-- ===== src/Project/Gates/Done.antt =====
-- DONE is behind the gate of the mode: internal/project, Complete and the policies' `complete`.
use duo.Prelude.{◌≡◌, ◌≢◌, sym, ◌∙◌, ◌⊎◌, inl, inr, Bool, true, false, arith}
use duo.Text.{Text, is_blank}
use duo.Project.Agent.{AgentId}
use duo.Project.Mode.{Mode, Phase, next}
use duo.Project.Verification.{Time, VerificationResult}
use duo.Project.Steps.{Steps, queue_finished}
use duo.Project.Snapshot.{Snapshot}
use duo.Project.State.{State}
use duo.Project.Session
use duo.Project.Switch
use duo.Project.Restore
use duo.Project.Operation.{Op, apply}
use duo.Project.Valid.Defs.{IsValid, after, after_state}
use duo.Project.Workflow.Goal
use duo.Project.Workflow.Fast
use duo.Project.Workflow.Step
use duo.Project.Kept.Defs.{Kept}
use duo.Project.Kept.Lift.{apply-Kept}

-- What each mode wants before DONE: both signatures with evidence in INTEGRATE; a passed verdict in
-- VERIFY; a finished queue that both have signed in INTEGRATE; the owner's finish in INTEGRATE.
abbrev pub MayFinish : Mode → State → Type 0
MayFinish Mode.goal s =
    (s.phase ≡ Phase.integrate)
    × (s.ready AgentId.austin ≡ true)
    × (s.ready AgentId.tony ≡ true)
    × (is_blank (s.evidence AgentId.austin) ≡ false)
    × (is_blank (s.evidence AgentId.tony) ≡ false)
MayFinish Mode.fast s =
    (s.phase ≡ Phase.verify) × (s.verification.status ≡ VerificationResult.passed)
MayFinish Mode.step s =
    (s.phase ≡ Phase.integrate)
    × (queue_finished s.steps ≡ true)
    × (s.ready AgentId.austin ≡ true)
    × (s.ready AgentId.tony ≡ true)
MayFinish Mode.loop s = (s.phase ≡ Phase.integrate) × (s.loop.finishing ≡ true)
MayFinish (Mode.other t) s = ⊥

-- The two operations that may end in DONE: `Complete`, and `Restore` of a snapshot that is DONE.
abbrev pub Finishes : Op → State → Type 0
Finishes (Op.complete now) s = MayFinish s.mode s
Finishes (Op.restore now snap) s = snap.phase ≡ Phase.done
Finishes _ s = ⊥

abbrev Gated : Op → State → State → Type 0
Gated op s t = t.phase ≡ Phase.done → (s.phase ≡ Phase.done) ⊎ Finishes op s

module _ (now : Time) (s : State) where
  module _ (m : s.mode ≡ Mode.goal) where
    goal_set_plan : (plan : Text) → (after_state s (Goal.set_plan now s plan)).phase ≡ s.phase
    unfolding Goal.set_plan
    goal_set_plan plan = ground arith

    goal_set_ready :
        (agent : AgentId) (ready : Bool) (note evidence : Text)
        → (after s (Goal.set_ready now s agent ready note evidence)).phase ≡ Phase.done
        → s.phase ≡ Phase.done
    unfolding Goal.set_ready next
    goal_set_ready agent ready note evidence = ground arith

    goal_complete :
        (after_state s (Goal.complete now s)).phase ≡ Phase.done
        → (s.phase ≡ Phase.done) ⊎ MayFinish Mode.goal s
    unfolding Goal.complete
    goal_complete = ground arith

    goal_reopen : (after_state s (Goal.reopen now s)).phase ≡ Phase.done → s.phase ≡ Phase.done
    unfolding Goal.reopen
    goal_reopen = ground arith

  fast_set_ready :
      (agent : AgentId) (ready : Bool) (note evidence : Text)
      → (after s (Fast.set_ready now s agent ready note evidence)).phase ≡ Phase.done
      → s.phase ≡ Phase.done
  unfolding Fast.set_ready
  fast_set_ready agent ready note evidence = ground arith

  fast_set_verification :
      (agent : AgentId) (result : VerificationResult) (note head : Text)
      → (after s (Fast.set_verification now s agent result note head)).phase ≡ Phase.done
      → s.phase ≡ Phase.done
  unfolding Fast.set_verification
  fast_set_verification agent result note head = ground arith

  fast_complete :
      (after_state s (Fast.complete now s)).phase ≡ Phase.done
      → (s.phase ≡ Phase.done) ⊎ MayFinish Mode.fast s
  unfolding Fast.complete
  fast_complete = ground arith

  fast_reopen : (after_state s (Fast.reopen now s)).phase ≡ Phase.done → s.phase ≡ Phase.done
  unfolding Fast.reopen
  fast_reopen = ground arith

  step_set_plan : (plan : Text) → (after_state s (Step.set_plan now s plan)).phase ≡ s.phase
  unfolding Step.set_plan
  step_set_plan plan = ground arith

  step_set_ready :
      (p : Phase) (agent : AgentId) (ready : Bool) (note evidence : Text)
      → s.phase ≡ p
      → (after s (Step.set_ready_at p now s agent ready note evidence)).phase ≡ Phase.done
      → s.phase ≡ Phase.done
  unfolding Step.set_ready_at
  step_set_ready Phase.plan agent ready note evidence e = ground arith
  step_set_ready Phase.execute agent ready note evidence e = ground arith
  step_set_ready Phase.review agent ready note evidence e = ground arith
  step_set_ready Phase.integrate agent ready note evidence e = ground arith
  step_set_ready _ agent ready note evidence e = λ d. d

  step_set_verification :
      (agent : AgentId) (result : VerificationResult) (note head : Text)
      → (after s (Step.set_verification now s agent result note head)).phase ≡ Phase.done
      → s.phase ≡ Phase.done
  unfolding Step.set_verification
  step_set_verification agent result note head = ground arith

  step_complete :
      (after_state s (Step.complete now s)).phase ≡ Phase.done
      → (s.phase ≡ Phase.done) ⊎ MayFinish Mode.step s
  unfolding Step.complete
  step_complete = ground arith

  step_set_steps :
      (steps : Steps) (append : Bool)
      → (after_state s (Step.set_steps now s steps append)).phase ≡ s.phase
  unfolding Step.set_steps
  step_set_steps steps append = ground arith

  step_reopen : (after_state s (Step.reopen now s)).phase ≡ Phase.done → s.phase ≡ Phase.done
  unfolding Step.reopen
  step_reopen = ground arith

  step_land_step :
      (at head : Text)
      → (after s (Step.land_step now at s head)).phase ≡ Phase.done
      → s.phase ≡ Phase.done
  unfolding Step.land_step
  step_land_step at head = ground arith

  step_revoke_step :
      (reason : Text)
      → (after s (Step.revoke_step now s reason)).phase ≡ Phase.done
      → s.phase ≡ Phase.done
  unfolding Step.revoke_step
  step_revoke_step reason = ground arith

  escalate : (reason : Text) → (Switch.escalate_locked now reason s).phase ≡ Phase.plan
  unfolding Switch.escalate_locked
  escalate reason = ground arith

  switch :
      (target : Mode) (reason : Text)
      → Switch.is_known_mode target ≡ true
      → (Switch.switch_locked now target reason s).phase ≡ Phase.done
      → s.phase ≡ Phase.done
  unfolding Switch.switch_locked
  switch target reason k = ground arith

  revoke_ready :
      (agent : AgentId) (note : Text)
      → (Session.revoke_ready now agent note s).state.phase ≡ Phase.done
      → s.phase ≡ Phase.done
  unfolding Session.revoke_ready
  revoke_ready agent note = ground arith

  restore :
      (snap : Snapshot)
      → (Restore.restore now snap s).state.phase ≡ Phase.done
      → (s.phase ≡ Phase.done) ⊎ (snap.phase ≡ Phase.done)
  unfolding Restore.restore
  restore snap = ground arith

Gated-kept : Kept Gated
Gated-kept = record {
  frame = λ op s t v f d. ground arith;
  goal_set_plan = λ now agent plan s v m d. inl (sym (goal_set_plan now s m _) ∙ d);
  step_set_plan = λ now agent plan s v m d. inl (sym (step_set_plan now s _) ∙ d);
  step_set_steps = λ now agent list append s v m d. inl (sym (step_set_steps now s _ append) ∙ d);
  goal_set_ready = λ now agent ready note evidence s v m d.
      inl (goal_set_ready now s m agent ready note evidence d);
  fast_set_ready = λ now agent ready note evidence s v m d.
      inl (fast_set_ready now s agent ready note evidence d);
  step_set_ready = λ now agent ready note evidence p s v m e d.
      inl (step_set_ready now s p agent ready note evidence e d);
  fast_set_verification = λ now agent result note head s v m d.
      inl (fast_set_verification now s agent result note head d);
  step_set_verification = λ now agent result note head s v m d.
      inl (step_set_verification now s agent result note head d);
  goal_complete = λ now s v m d. rw m (goal_complete now s m d);
  fast_complete = λ now s v m d. rw m (fast_complete now s d);
  step_complete = λ now s v m d. rw m (step_complete now s d);
  loop_complete = λ now s v m p f d. rw m (inr (p, f));
  goal_reopen = λ now s v m d. inl (goal_reopen now s m d);
  fast_reopen = λ now s v m d. inl (fast_reopen now s d);
  step_reopen = λ now s v m d. inl (step_reopen now s d);
  loop_reopen = λ now s v m d. cc;
  step_land_step = λ now at head s v m d. inl (step_land_step now s at _ d);
  step_revoke_step = λ now reason s v m d. inl (step_revoke_step now s reason d);
  escalate = λ op now reason s v o d. cc (escalate now s reason);
  switch = λ now target reason s v k d. inl (switch now s target reason k d);
  revoke_ready = λ now agent note s v d. inl (revoke_ready now s agent note d);
  restore = λ now snap s v d. restore now s snap d;
}

-- On a valid state that is not DONE, an operation that ends in DONE is `Complete` with the gate of the
-- mode met (Goal: INTEGRATE signed by both with evidence; Fast: VERIFY passed; Step: a finished queue
-- signed by both in INTEGRATE; Loop: INTEGRATE after the owner's finish), or the restoring of a
-- snapshot that was DONE.
pub done_is_gated :
    (op : Op) (s : State)
    → IsValid s
    → s.phase ≢ Phase.done
    → (apply op s).state.phase ≡ Phase.done
    → Finishes op s
done_is_gated op s v open_ d = elim (apply-Kept Gated Gated-kept s v op d) [
  | inl e ↦ absurd (open_ e)
  | inr f ↦ f
]
