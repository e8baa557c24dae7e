-- ===== src/Service/Reconcile.antt =====
-- internal/session/delivery.go: ReconcileDelivery, before a resume starts the agents.
use duo.Prelude.{Bool, true, false, ◌&&◌, ◌||◌, not, none, some, if◌then◌else◌}
use duo.Text.{codes}
use duo.Project.Mode.{Mode, Phase, mode_eq, phase_eq}
use duo.Project.Steps.{queue_finished}
use duo.Store.Record.{StoredSnapshot, DeliveryStatus, is_applied, stored_mode}
use duo.Store.Needs.{step_delivery_is_current, needs_delivery}
use duo.Service.World.{Env, World, Entry, Ended, Failure, only, fail, return, noted, saving}
use duo.Service.Head.{current_step_landed, step_verdict_binds, current_policy, is_mode}
use duo.Service.Settle.{land_step_snapshot, complete_snapshot, awaits_landing}
use duo.Service.Persist.{deliver_and_persist, changes_to}

-- How a resume goes on: whether it stops here, so that no agent is started.
pub record Reconciled (W : Type 0) : Type 0 where
  pub ended : Ended W
  pub stop : Bool

abbrev goes_on : {W : Type 0} → Ended W → Reconciled W
goes_on e = record { ended = e; stop = false }

-- `true` only where no error came before.
abbrev stops_unless_failed : {W : Type 0} → Ended W → Reconciled W
stops_unless_failed e = record { ended = e; stop = elim e.failure [ none ↦ true | some f ↦ false ] }

-- A landing that is not of the step under the cursor, or that no verdict binds, is forgotten.
unfoldable pub dropped : StoredSnapshot → StoredSnapshot
dropped snap = record snap {
  delivery = record {
    status = DeliveryStatus.unattempted;
    final_head = codes "";
    final_branch = snap.delivery.final_branch;
    target_repo = snap.delivery.target_repo;
    target_branch = snap.delivery.target_branch;
    applied_head = codes "";
    reason = codes "";
    attempted_at = none;
    completed_at = none;
  };
}

-- The record is the step's own landing, which was interrupted before the queue moved.
unfoldable pub is_interrupted : StoredSnapshot → Bool
unfolding step_delivery_is_current current_policy step_verdict_binds
is_interrupted snap =
    step_delivery_is_current snap
    && (is_mode (current_policy snap) Mode.goal || step_verdict_binds snap snap.delivery.final_head)

-- A Step session whose last landing is recorded, in INTEGRATE.
abbrev pub holds_landing : StoredSnapshot → Bool
unfolding stored_mode
holds_landing snap =
    mode_eq (stored_mode snap) Mode.step
    && (is_applied snap.delivery.status && phase_eq snap.phase Phase.integrate)

module _ {W : Type 0} (env : Env W) where
  -- The transaction that the crash left half-done is finished.
  unfoldable pub finish_step : World W → StoredSnapshot → Reconciled W
  unfolding land_step_snapshot
  finish_step w snap = elim (land_step_snapshot env.now env.stamp snap snap.delivery.final_head) [
    | none ↦ goes_on (fail w snap Failure.unlanded)
    | some landed ↦ goes_on (
        saving env w (only landed)
          (λ w'. return (noted Entry.step_landed w') (record (only landed) { applied = true })))
  ]

  -- The landing was recorded, and DONE was not.
  unfoldable pub finish_session : World W → StoredSnapshot → Reconciled W
  unfolding complete_snapshot
  finish_session w snap = elim (complete_snapshot env.now snap) [
    | none ↦ goes_on (fail w snap Failure.incomplete)
    | some done ↦ stops_unless_failed (
        saving env w (only done) (λ w'.
          return (noted Entry.session_delivered w') (record (only done) {
            changes = changes_to env w.repo done done.delivery.applied_head;
            applied = true;
          })))
  ]

  -- What a transaction without an error means for the resume.
  unfoldable pub judge_delivery : Ended W → Reconciled W
  unfolding stored_mode queue_finished
  judge_delivery e =
      if not e.outcome.applied
      then record { ended = record e { world = noted Entry.delivery_pending e.world }; stop = true }
      else record {
        ended = record e { world = noted Entry.session_delivered e.world };
        stop =
            not (mode_eq (stored_mode e.outcome.snapshot) Mode.step)
            || queue_finished e.outcome.snapshot.steps;
      }

  unfoldable pub resume_after : Ended W → Reconciled W
  unfolding judge_delivery
  resume_after e = elim e.failure [ none ↦ judge_delivery e | some f ↦ goes_on e ]

  unfoldable pub deliver_now : World W → StoredSnapshot → Reconciled W
  unfolding deliver_and_persist resume_after
  deliver_now w snap = resume_after (deliver_and_persist env w snap)

  -- From the crash window of Goal and Fast on.
  unfoldable pub reconcile_session : World W → StoredSnapshot → Reconciled W
  unfolding finish_session needs_delivery deliver_now
  reconcile_session w snap =
      if awaits_landing snap.phase && is_applied snap.delivery.status
      then finish_session w snap
      else if not (needs_delivery snap)
      then goes_on (return w (only snap))
      else deliver_now w snap

  -- `ReconcileDelivery`.
  unfoldable pub reconcile_delivery : World W → StoredSnapshot → Reconciled W
  unfolding finish_step reconcile_session current_step_landed is_interrupted dropped stored_mode
  reconcile_delivery w snap =
      if not (holds_landing snap)
      then reconcile_session w snap
      else if current_step_landed snap
      then goes_on (return (noted Entry.step_landed w) (record (only snap) { applied = true }))
      else if is_interrupted snap
      then finish_step w snap
      else reconcile_session w (dropped snap)
