-- ===== src/Project/Operation.antt =====
-- The public operations of internal/project as one type, so that a history is a list of them. The
-- mutex makes each one atomic, so any interleaving of callers is such a list.
use duo.Prelude.{ℕ, Bool, List, [], ◌∷◌}
use duo.Text.{Text}
use duo.Project.Agent.{AgentId, Activity}
use duo.Project.Mode.{Mode}
use duo.Project.Verification.{Time, VerificationResult}
use duo.Project.State.{State}
use duo.Project.Snapshot.{Snapshot, Reply, silent}
use duo.Project.Session
use duo.Project.Switch
use duo.Project.Restore
use duo.Project.Loop.Inbox
use duo.Project.Loop.Consult
use duo.Project.Loop.Turn

pub data Op : Type 0 where
  mark_started : Op
  set_plan : Time → AgentId → Text → Op
  set_steps : Time → AgentId → Text → Bool → Op
  land_step : Time → Text → Text → Op
  revoke_step_submission : Time → Text → Op
  set_ready : Time → AgentId → Bool → Text → Text → Op
  set_verification : Time → AgentId → VerificationResult → Text → Text → Op
  complete : Time → Op
  reopen : Time → Op
  escalate_to_goal : Time → Text → Op
  switch_mode : Time → Mode → Text → Op
  revoke_ready : Time → AgentId → Text → Op
  set_persistence : Bool → Op
  restore : Time → Snapshot → Op
  loop_send : Time → AgentId → Text → Op
  loop_events : AgentId → Text → Bool → Op
  loop_human : Time → Text → Op
  loop_observe : Time → Text → Text → Op
  loop_ask : Time → AgentId → Text → Op
  loop_reply : Time → AgentId → Text → Text → Op
  loop_finish : AgentId → Text → Text → Text → Op
  loop_wait : Time → AgentId → Time → Text → Op
  loop_activity : AgentId → Activity → Text → Op
  loop_wake : ℕ → Op
  reset_loop_wakes : Op
  loop_timers : Time → List AgentId → Op

-- A reply without its value.
abbrev pub forget {ℓ} : {A : Type ℓ} → Reply A → Reply (Unit {0})
forget r = record { state = r.state; value = tt; error = r.error; notified = r.notified }

unfoldable pub apply : Op → State → Reply (Unit {0})
apply Op.mark_started s = forget (Session.mark_started s)
apply (Op.set_plan now agent plan) s = forget (Session.set_plan now agent plan s)
apply (Op.set_steps now agent list append) s = forget (Session.set_steps now agent list append s)
apply (Op.land_step now at head) s = forget (Session.land_step now at head s)
apply (Op.revoke_step_submission now reason) s =
    forget (Session.revoke_step_submission now reason s)
apply (Op.set_ready now agent ready note evidence) s =
    forget (Session.set_ready now agent ready note evidence s)
apply (Op.set_verification now agent result note head) s =
    forget (Session.set_verification now agent result note head s)
apply (Op.complete now) s = forget (Session.complete now s)
apply (Op.reopen now) s = forget (Session.reopen now s)
apply (Op.escalate_to_goal now reason) s = forget (Switch.escalate_to_goal now reason s)
apply (Op.switch_mode now target reason) s = forget (Switch.switch_mode now target reason s)
apply (Op.revoke_ready now agent note) s = forget (Session.revoke_ready now agent note s)
apply (Op.set_persistence installed) s = silent (Session.set_persistence installed s) tt
apply (Op.restore now snap) s = Restore.restore now snap s
apply (Op.loop_send now from text) s = Inbox.loop_send now from text s
apply (Op.loop_events id ack through) s = forget (Inbox.loop_events id ack through s)
apply (Op.loop_human now text) s = Inbox.loop_human now text s
apply (Op.loop_observe now tool detail) s = Inbox.loop_observe now tool detail s
apply (Op.loop_ask now id question) s = forget (Consult.loop_ask now id question s)
apply (Op.loop_reply now id question_id answer) s = Consult.loop_reply now id question_id answer s
apply (Op.loop_finish id summary approve reject) s =
    forget (Consult.loop_finish id summary approve reject s)
apply (Op.loop_wait now id until reason) s = forget (Turn.loop_wait now id until reason s)
apply (Op.loop_activity id activity tool) s = Turn.loop_activity id activity tool s
apply (Op.loop_wake limit) s = forget (Turn.loop_wake limit s)
apply Op.reset_loop_wakes s = Turn.reset_loop_wakes s
apply (Op.loop_timers now order) s = Turn.loop_timers now order s

-- The state after a history.
unfoldable pub run : List Op → State → State
run [] s = s
run (op ∷ ops) s = run ops (apply op s).state
