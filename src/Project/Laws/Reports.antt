-- ===== src/Project/Laws/Reports.antt =====
-- internal/project: what the persistence callback is told, and that a refusal changes nothing.
use duo.Prelude.{◌≡◌, ◌≢◌, refl, ◌⊎◌, Bool, none, arith}
use duo.Project.State.{State}
use duo.Project.Snapshot.{Reply, notify}
use duo.Project.Session
use duo.Project.Switch
use duo.Project.Restore
use duo.Project.Loop.Inbox
use duo.Project.Loop.Consult
use duo.Project.Loop.Turn
use duo.Project.Operation.{Op, apply}

-- Success, with the snapshot of the new state for an installed callback; or no change and no call.
abbrev pub IsReported {ℓ} : {A : Type ℓ} → State → Reply A → Type 0
IsReported s r =
    ((r.error ≡ none) × (r.notified ≡ notify r.state)) ⊎ ((r.state ≡ s) × (r.notified ≡ none))

-- Every operation but the installing of the callback either succeeds and hands the callback, if there
-- is one, the snapshot of the state that it leaves, or changes nothing and calls nothing.
pub apply-IsReported :
    (op : Op) (s : State)
    → ((installed : Bool) → op ≢ Op.set_persistence installed)
    → IsReported s (apply op s)
unfolding apply
apply-IsReported Op.mark_started s n = unfold Session.mark_started in (ground arith)
apply-IsReported (Op.set_plan now agent plan) s n = unfold Session.set_plan in ground arith
apply-IsReported (Op.set_steps now agent list append) s n = unfold Session.set_steps in ground arith
apply-IsReported (Op.land_step now at head) s n = unfold Session.land_step in ground arith
apply-IsReported (Op.revoke_step_submission now reason) s n =
    unfold Session.revoke_step_submission in ground arith
apply-IsReported (Op.set_ready now agent ready note evidence) s n =
    unfold Session.set_ready in ground arith
apply-IsReported (Op.set_verification now agent result note head) s n =
    unfold Session.set_verification in ground arith
apply-IsReported (Op.complete now) s n = unfold Session.complete in ground arith
apply-IsReported (Op.reopen now) s n = unfold Session.reopen in ground arith
apply-IsReported (Op.escalate_to_goal now reason) s n =
    unfold Switch.escalate_to_goal in ground arith
apply-IsReported (Op.switch_mode now target reason) s n = unfold Switch.switch_mode in ground arith
apply-IsReported (Op.revoke_ready now agent note) s n = unfold Session.revoke_ready in ground arith
apply-IsReported (Op.set_persistence installed) s n = absurd (n installed refl)
apply-IsReported (Op.restore now snap) s n = unfold Restore.restore in ground arith
apply-IsReported (Op.loop_send now from text) s n = unfold Inbox.loop_send in ground arith
apply-IsReported (Op.loop_events id ack through) s n = unfold Inbox.loop_events in ground arith
apply-IsReported (Op.loop_human now text) s n = unfold Inbox.loop_human in ground arith
apply-IsReported (Op.loop_observe now tool detail) s n = unfold Inbox.loop_observe in ground arith
apply-IsReported (Op.loop_ask now id question) s n = unfold Consult.loop_ask in ground arith
apply-IsReported (Op.loop_reply now id question_id answer) s n =
    unfold Consult.loop_reply in ground arith
apply-IsReported (Op.loop_finish id summary approve reject) s n =
    unfold Consult.loop_finish in ground arith
apply-IsReported (Op.loop_wait now id until reason) s n = unfold Turn.loop_wait in ground arith
apply-IsReported (Op.loop_activity id activity tool) s n =
    unfold Turn.loop_activity Turn.react in ground arith
apply-IsReported (Op.loop_wake limit) s n = unfold Turn.loop_wake in ground arith
apply-IsReported Op.reset_loop_wakes s n = unfold Turn.reset_loop_wakes in ground arith
apply-IsReported (Op.loop_timers now order) s n = unfold Turn.loop_timers in ground arith
