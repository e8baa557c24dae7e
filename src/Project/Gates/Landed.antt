-- ===== src/Project/Gates/Landed.antt =====
-- What a landed step's record survives: internal/project, every operation on a session with a queue.
use duo.Prelude.{
  ◌≡◌, ◌≢◌, inl, inr, ◌∙◌, ℕ, zero, suc, ◌-◌, Bool, true, false, some, List, [], ◌∷◌, arith,
  get_elem?, get_elem?-append, get_elem?-modify_ne,
}
use duo.Text.{Text, trim_space}
use duo.Project.Agent.{AgentId}
use duo.Project.Mode.{Phase, phase_eq}
use duo.Project.Verification.{Time, VerificationResult, no_verification}
use duo.Project.Steps.{Step, Steps, first_open_step, update_step}
use duo.Project.Steps.Laws.{first_open_pos}
use duo.Project.State.{State, current_step}
use duo.Project.Session
use duo.Project.Switch
use duo.Project.Operation.{Op, apply, run}
use duo.Project.Workflow.Goal
use duo.Project.Workflow.Fast
use duo.Project.Workflow.Step
use duo.Project.Valid.Defs.{IsValid, after, after_state}
use duo.Project.Valid.Run.{apply-IsValid}
use duo.Project.Kept.Defs.{Kept}
use duo.Project.Kept.Lift.{apply-Kept}

-- The operations that put another queue in the place of this one.
abbrev pub may_rewrite : Op → State → Bool
may_rewrite (Op.set_steps now agent list append) s = phase_eq s.phase Phase.plan
may_rewrite (Op.reopen now) s = true
may_rewrite (Op.switch_mode now target reason) s = true
may_rewrite (Op.restore now snap) s = true
may_rewrite _ s = false

-- None of the operations replaces the queue where it is applied.
abbrev pub NoneRewrites : List Op → State → Type 0
NoneRewrites [] s = Unit
NoneRewrites (op ∷ ops) s = (may_rewrite op s ≡ false) × NoneRewrites ops (apply op s).state

abbrev KeepsLanded : Op → State → State → Type 0
KeepsLanded op s t =
    may_rewrite op s ≡ false
    → (i : ℕ) (st : Step) → get_elem? s.steps i ≡ some st
    → st.done ≡ true
    → get_elem? t.steps i ≡ some st

cursor_beside :
    (q : Steps) (i : ℕ) (st : Step)
    → get_elem? q i ≡ some st
    → st.done ≡ true
    → first_open_step q - 1 ≢ i
unfolding first_open_step
cursor_beside [] i st e d = cc
cursor_beside (x ∷ q) zero st e d = ground (arith, first_open_pos q)
cursor_beside (x ∷ q) (suc i) st e d = ground (arith, cursor_beside q i st e d, first_open_pos q)

module _ (now : Time) (s : State) (v : IsValid s) (i : ℕ) (st : Step)
    (e : get_elem? s.steps i ≡ some st) (d : st.done ≡ true) where
  -- A write to the current step.
  beside : (f : Step → Step) → get_elem? (update_step s.steps s.step f) i ≡ some st
  unfolding update_step
  beside f = elim v.cursor [
    | inl c ↦ rw c (
        get_elem?-modify_ne s.steps (first_open_step s.steps - 1) i f
          (cursor_beside s.steps i st e d)
        ∙ e)
    | inr (n, p) ↦ ground arith
  ]

  sign :
      (p : Phase) (agent : AgentId) (ready : Bool) (note evidence : Text)
      → get_elem? (after s (Step.set_ready_at p now s agent ready note evidence)).steps i ≡ some st
  unfolding Step.set_ready_at current_step
  sign Phase.plan agent ready note evidence = ground arith
  sign Phase.execute agent ready note evidence =
      ground (
        arith,
        beside (λ x. record x { head = trim_space evidence; verification = no_verification }),
      )
  sign Phase.review agent ready note evidence =
      ground (arith, beside (λ x. record x { verification = no_verification }))
  sign Phase.integrate agent ready note evidence = ground arith
  sign _ agent ready note evidence = e

  judge :
      (agent : AgentId) (result : VerificationResult) (note head : Text)
      → get_elem? (after s (Step.set_verification now s agent result note head)).steps i ≡ some st
  unfolding Step.set_verification current_step
  judge agent result note head = ground (arith, beside (Step.judged now result (trim_space note)))

  queue :
      (steps : Steps) (append : Bool)
      → phase_eq s.phase Phase.plan ≡ false
      → get_elem? (after_state s (Step.set_steps now s steps append)).steps i ≡ some st
  unfolding Step.set_steps
  queue steps append n = ground (arith, get_elem?-append s.steps steps i st e)

  land : (at head : Text) → get_elem? (after s (Step.land_step now at s head)).steps i ≡ some st
  unfolding Step.land_step
  land at head = ground (arith, beside (Step.landed head at))

  revoke : (reason : Text) → get_elem? (after s (Step.revoke_step now s reason)).steps i ≡ some st
  unfolding Step.revoke_step
  revoke reason = ground (arith, beside Step.withdrawn)

-- The rules of Goal and Fast, and what ends a round, do not write to the queue.
module _ (now : Time) (s : State) where
  goal_plan : (plan : Text) → (after_state s (Goal.set_plan now s plan)).steps ≡ s.steps
  unfolding Goal.set_plan
  goal_plan plan = ground arith

  step_plan : (plan : Text) → (after_state s (Step.set_plan now s plan)).steps ≡ s.steps
  unfolding Step.set_plan
  step_plan plan = ground arith

  goal_sign :
      (agent : AgentId) (ready : Bool) (note evidence : Text)
      → (after s (Goal.set_ready now s agent ready note evidence)).steps ≡ s.steps
  unfolding Goal.set_ready
  goal_sign agent ready note evidence = ground arith

  fast_sign :
      (agent : AgentId) (ready : Bool) (note evidence : Text)
      → (after s (Fast.set_ready now s agent ready note evidence)).steps ≡ s.steps
  unfolding Fast.set_ready
  fast_sign agent ready note evidence = ground arith

  fast_judge :
      (agent : AgentId) (result : VerificationResult) (note head : Text)
      → (after s (Fast.set_verification now s agent result note head)).steps ≡ s.steps
  unfolding Fast.set_verification
  fast_judge agent result note head = ground arith

  goal_complete : (after_state s (Goal.complete now s)).steps ≡ s.steps
  unfolding Goal.complete
  goal_complete = ground arith

  fast_complete : (after_state s (Fast.complete now s)).steps ≡ s.steps
  unfolding Fast.complete
  fast_complete = ground arith

  step_complete : (after_state s (Step.complete now s)).steps ≡ s.steps
  unfolding Step.complete
  step_complete = ground arith

  escalate : (reason : Text) → (Switch.escalate_locked now reason s).steps ≡ s.steps
  unfolding Switch.escalate_locked
  escalate reason = ground arith

  revoke_ready :
      (agent : AgentId) (note : Text)
      → (Session.revoke_ready now agent note s).state.steps ≡ s.steps
  unfolding Session.revoke_ready
  revoke_ready agent note = ground arith

-- A queue that an operation did not write to.
same : {q r : Steps} {st : Step} (i : ℕ) → r ≡ q → get_elem? q i ≡ some st → get_elem? r i ≡ some st
same i p e = cc

KeepsLanded-kept : Kept KeepsLanded
KeepsLanded-kept = record {
  frame = λ op s t v f n i st e d. same i f.steps e;
  goal_set_plan = λ now agent plan s v m n i st e d. same i (goal_plan now s (trim_space plan)) e;
  step_set_plan = λ now agent plan s v m n i st e d. same i (step_plan now s (trim_space plan)) e;
  step_set_steps = λ now agent list append s v m n i st e d. queue now s v i st e d _ append n;
  goal_set_ready = λ now agent ready note evidence s v m n i st e d.
      same i (goal_sign now s agent ready note evidence) e;
  fast_set_ready = λ now agent ready note evidence s v m n i st e d.
      same i (fast_sign now s agent ready note evidence) e;
  step_set_ready = λ now agent ready note evidence p s v m h n i st e d.
      sign now s v i st e d p agent ready note evidence;
  fast_set_verification = λ now agent result note head s v m n i st e d.
      same i (fast_judge now s agent result note head) e;
  step_set_verification =
      λ now agent result note head s v m n i st e d. judge now s v i st e d agent result note head;
  goal_complete = λ now s v m n i st e d. same i (goal_complete now s) e;
  fast_complete = λ now s v m n i st e d. same i (fast_complete now s) e;
  step_complete = λ now s v m n i st e d. same i (step_complete now s) e;
  loop_complete = λ now s v m p f n i st e d. e;
  goal_reopen = λ now s v m n. cc;
  fast_reopen = λ now s v m n. cc;
  step_reopen = λ now s v m n. cc;
  loop_reopen = λ now s v m n. cc;
  step_land_step = λ now at head s v m n i st e d. land now s v i st e d at _;
  step_revoke_step = λ now reason s v m n i st e d. revoke now s v i st e d reason;
  escalate = λ op now reason s v o n i st e d. same i (escalate now s reason) e;
  switch = λ now target reason s v k n. cc;
  revoke_ready = λ now agent note s v n i st e d. same i (revoke_ready now s agent note) e;
  restore = λ now snap s v n. cc;
}

-- Over every history of a valid session that neither submits a queue in PLAN, nor reopens, nor switches
-- the mode, nor restores a snapshot, a step that is done keeps its place and its whole record: title,
-- head, verdict and delivery.
pub landed_steps_stay :
    (ops : List Op) (s : State) (i : ℕ) (st : Step)
    → IsValid s
    → NoneRewrites ops s
    → get_elem? s.steps i ≡ some st
    → st.done ≡ true
    → get_elem? (run ops s).steps i ≡ some st
unfolding run
landed_steps_stay [] s i st v n e d = e
landed_steps_stay (op ∷ ops) s i st v n e d =
    landed_steps_stay ops (apply op s).state i st (apply-IsValid op s v) n.1
      (apply-Kept KeepsLanded KeepsLanded-kept s v op n.0 i st e d) d
