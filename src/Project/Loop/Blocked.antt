-- ===== src/Project/Loop/Blocked.antt =====
-- internal/project/loop.go: nothing but its acknowledgement, or a new round, ends a consultation.
use duo.Prelude.{
  Option-cases, if◌then◌else◌, ℕ, ◌≡◌, ◌≢◌, refl, inl, inr, Bool, true, false, ◌||◌, Option, none,
  some, List, [], ◌∷◌, arith,
}
use duo.Text.{Text, text_eq}
use duo.Project.Agent.{AgentId, agent_eq}
use duo.Project.Mode.{Mode, Phase}
use duo.Project.Verification.{Time}
use duo.Project.LoopState.{LoopState, LoopConsultation}
use duo.Project.State.{State, Error}
use duo.Project.Session
use duo.Project.Workflow.Dispatch.{
  run_set_plan, run_set_steps, run_set_ready, run_set_verification, run_complete, run_land_step,
  run_revoke_step, run_reopen,
}
use duo.Project.Operation.{Op, apply, run}
use duo.Project.Loop.Inbox
use duo.Project.Loop.Consult
use duo.Project.Loop.Consult.{is_waiting, loop_can_act}
use duo.Project.Loop.Turn

-- A LOOP session at work whose owner waits for a reply.
pub record IsBlocked (s : State) : Type 0 where
  pub mode : s.mode ≡ Mode.loop
  pub phase : s.phase ≡ Phase.running
  pub waiting : is_waiting s.loop.consultation ≡ true
  pub unfinished : s.loop.finishing ≡ false

abbrev answers : Text → Option LoopConsultation → Bool
answers ack none = false
answers ack (some q) = text_eq q.reply_id ack

-- What may end the wait: an acknowledgement by Austin of the reply or of a whole stretch of his inbox,
-- a change of the mode, and a restored snapshot.
abbrev pub may_release : Op → State → Bool
may_release (Op.loop_events id ack through) s =
    if agent_eq id AgentId.austin then through || answers ack s.loop.consultation else false
may_release (Op.switch_mode now target reason) s = true
may_release (Op.escalate_to_goal now reason) s = true
may_release (Op.restore now snap) s = true
may_release _ s = false

acknowledge-waiting :
    (id : AgentId) (ack : Text) (through : Bool) (i : ℕ) (l : LoopState)
    → (if agent_eq id AgentId.austin then through || answers ack l.consultation else false) ≡ false
    → is_waiting l.consultation ≡ true
    → let l' = Inbox.acknowledge id ack through i l in
      (is_waiting l'.consultation ≡ true) × (l'.finishing ≡ l.finishing)
unfolding Inbox.acknowledge
acknowledge-waiting id ack through i l r w = ground arith

fire_all-waiting :
    (now : Time) (order : List AgentId) (l : LoopState)
    → let l' = (Turn.fire_all now order l).0 in
      (l'.consultation ≡ l.consultation) × (l'.finishing ≡ l.finishing)
unfolding Turn.fire_all
fire_all-waiting now [] l = (refl, refl)
fire_all-waiting now (id ∷ ids) l = ground (arith, fire_all-waiting now ids (Turn.fire now l id).0)

-- An operation that may not end the wait leaves the session blocked.
apply-IsBlocked :
    (op : Op) (s : State) → may_release op s ≡ false → IsBlocked s → IsBlocked (apply op s).state
unfolding apply
apply-IsBlocked Op.mark_started s r b = unfold Session.mark_started in ground arith
apply-IsBlocked (Op.set_plan now agent plan) s r b =
    unfold Session.set_plan run_set_plan in ground arith
apply-IsBlocked (Op.set_steps now agent list append) s r b =
    unfold Session.set_steps run_set_steps in ground arith
apply-IsBlocked (Op.land_step now at head) s r b =
    unfold Session.land_step run_land_step in ground arith
apply-IsBlocked (Op.revoke_step_submission now reason) s r b =
    unfold Session.revoke_step_submission run_revoke_step in ground arith
apply-IsBlocked (Op.set_ready now agent ready note evidence) s r b =
    unfold Session.set_ready run_set_ready in ground arith
apply-IsBlocked (Op.set_verification now agent result note head) s r b =
    unfold Session.set_verification run_set_verification in ground arith
apply-IsBlocked (Op.complete now) s r b = unfold Session.complete run_complete in ground arith
apply-IsBlocked (Op.reopen now) s r b = unfold Session.reopen run_reopen in ground arith
apply-IsBlocked (Op.escalate_to_goal now reason) s r b = cc
apply-IsBlocked (Op.switch_mode now target reason) s r b = cc
apply-IsBlocked (Op.revoke_ready now agent note) s r b = unfold Session.revoke_ready in ground arith
apply-IsBlocked (Op.set_persistence installed) s r b =
    unfold Session.set_persistence in ground arith
apply-IsBlocked (Op.restore now snap) s r b = cc
apply-IsBlocked (Op.loop_send now from text) s r b = unfold Inbox.loop_send in ground arith
apply-IsBlocked (Op.loop_events id ack through) s r b =
    elim (Option-cases (Inbox.find_event ack (s.loop.events id))) [
      | inl e ↦ unfold Inbox.loop_events in ground arith
      | inr (i, e) ↦
          unfold Inbox.loop_events in
          ground (arith, acknowledge-waiting id ack through i s.loop r b.waiting)
    ]
apply-IsBlocked (Op.loop_human now text) s r b =
    unfold Inbox.loop_human Inbox.loop_event Inbox.tag_last in ground arith
apply-IsBlocked (Op.loop_observe now tool detail) s r b =
    unfold Inbox.loop_observe Inbox.loop_event Inbox.tag_last in ground arith
apply-IsBlocked (Op.loop_ask now id question) s r b = unfold Consult.loop_ask in ground arith
apply-IsBlocked (Op.loop_reply now id question_id answer) s r b =
    unfold Consult.loop_reply Consult.answer_with Inbox.loop_event Inbox.tag_last in ground arith
apply-IsBlocked (Op.loop_finish id summary approve reject) s r b =
    unfold Consult.loop_finish in ground arith
apply-IsBlocked (Op.loop_wait now id until reason) s r b = unfold Turn.loop_wait in ground arith
apply-IsBlocked (Op.loop_activity id activity tool) s r b =
    unfold Turn.loop_activity Turn.react Turn.end_turn in ground arith
apply-IsBlocked (Op.loop_wake limit) s r b = unfold Turn.loop_wake in ground arith
apply-IsBlocked Op.reset_loop_wakes s r b = unfold Turn.reset_loop_wakes in ground arith
apply-IsBlocked (Op.loop_timers now order) s r b =
    unfold Turn.loop_timers in ground (arith, fire_all-waiting now order s.loop)

-- None of the operations may end the wait where it is applied.
abbrev pub NoneReleases : List Op → State → Type 0
NoneReleases [] s = Unit
NoneReleases (op ∷ ops) s = (may_release op s ≡ false) × NoneReleases ops (apply op s).state

run-IsBlocked :
    (ops : List Op) (s : State) → NoneReleases ops s → IsBlocked s → IsBlocked (run ops s)
unfolding run
run-IsBlocked [] s n b = b
run-IsBlocked (op ∷ ops) s n b =
    run-IsBlocked ops (apply op s).state n.1 (apply-IsBlocked op s n.0 b)

blocked_refused :
    (now : Time) (summary : Text) (s : State)
    → IsBlocked s
    → (loop_can_act AgentId.austin s ≡ some Error.consultation_pending)
      × ((Consult.loop_finish AgentId.austin summary [] [] s).error ≢ none)
unfolding loop_can_act Consult.loop_finish
blocked_refused now summary s b = (ground arith, λ e. ground arith)

-- While Austin waits for a consultation, no history without an acknowledgement by him of the reply (or
-- of a stretch of his inbox), a change of mode or a restored snapshot lets him act or finish: no
-- deadline, human message, advice, activity or further reply does.
pub consultation_is_not_bypassed :
    (ops : List Op) (now : Time) (summary : Text) (s : State)
    → IsBlocked s
    → NoneReleases ops s
    → (loop_can_act AgentId.austin (run ops s) ≡ some Error.consultation_pending)
      × ((Consult.loop_finish AgentId.austin summary [] [] (run ops s)).error ≢ none)
consultation_is_not_bypassed ops now summary s b n =
    blocked_refused now summary (run ops s) (run-IsBlocked ops s n b)
