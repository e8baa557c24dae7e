-- ===== src/Service/Transact.antt =====
-- internal/session/delivery.go: DeliverAndPersistTo, from the gates to the checkpoint that follows a
-- landing.
use duo.Prelude.{true, not, Option, none, some, if◌then◌else◌, is_empty}
use duo.Text.{Text, codes, trim_space}
use duo.Project.Mode.{Mode, mode_eq}
use duo.Project.Steps.{queue_finished}
use duo.Store.Record.{StoredSnapshot, Delivery, DeliveryStatus, stored_mode}
use duo.Delivery.Check.{Manager}
use duo.Delivery.Push.{PushCheck, check_push, push}
use duo.Delivery.Deliver.{Delivered, deliver}
use duo.Service.World.{
  Env, World, Ended, Failure, DeliveryOptions, PushReason, only, with_result, fail, fail_with,
  return, saving, stored_in,
}
use duo.Service.Head.{manager_for}
use duo.Service.Settle.{land_step_snapshot, complete_snapshot, failed_delivery, awaits_landing}

abbrev pub or_else : Text → Text → Text
or_else t d = if is_empty t then d else t

-- The record while the landing is pending, less the times of the attempt.
unfoldable pub pending_record : StoredSnapshot → Text → DeliveryOptions → Text → Delivery
unfolding trim_space
pending_record snap branch opts head = record (snap.delivery) {
  status = DeliveryStatus.pending;
  final_head = head;
  reason = codes "";
  final_branch = or_else snap.delivery.final_branch (trim_space branch);
  target_repo = or_else snap.delivery.target_repo (trim_space snap.repository);
  target_branch =
      or_else (trim_space opts.branch)
        (or_else snap.delivery.target_branch (trim_space snap.base_branch));
}

-- The record of a step that has landed before is dropped for the step under the cursor.
unfoldable pub renewed : StoredSnapshot → StoredSnapshot
renewed snap = record snap {
  delivery = record {
    status = DeliveryStatus.unattempted;
    final_head = codes "";
    final_branch = codes "";
    target_repo = snap.delivery.target_repo;
    target_branch = snap.delivery.target_branch;
    applied_head = codes "";
    reason = codes "";
    attempted_at = none;
    completed_at = none;
  };
}

module _ {W : Type 0} (env : Env W) where
  -- `finishDelivery`.
  unfoldable pub finish_delivery : World W → StoredSnapshot → Delivered → Option PushCheck → Ended W
  unfolding push
  finish_delivery w snap d none = return w (record (with_result snap (some d)) { applied = true })
  finish_delivery w snap d (some c) =
      let (repo, pushed) = push env.git w.repo c in
      return (record w { repo = repo })
        (record (with_result snap (some d)) {
          applied = true;
          pushed = pushed;
          push_reason = if pushed then none else some PushReason.failed;
        })

  -- The last checkpoint, and the push.
  abbrev pub conclude : World W → StoredSnapshot → Delivered → Option PushCheck → Ended W
  unfolding finish_delivery
  conclude w snap d c = saving env w (with_result snap (some d)) (λ w'. finish_delivery w' snap d c)

  -- A session that has nothing left to land becomes DONE.
  unfoldable pub complete_landed : World W → StoredSnapshot → Delivered → Option PushCheck → Ended W
  unfolding conclude complete_snapshot
  complete_landed w snap d c = elim (complete_snapshot env.now snap) [
    | none ↦ fail_with w (with_result snap (some d)) Failure.incomplete
    | some done ↦ conclude w done d c
  ]

  -- In Step, once the queue has moved.
  unfoldable pub settle_queue : World W → StoredSnapshot → Delivered → Option PushCheck → Ended W
  unfolding complete_landed conclude queue_finished
  settle_queue w snap d c =
      if queue_finished snap.steps then complete_landed w snap d c else conclude w snap d c

  unfoldable pub settle_step :
      World W → StoredSnapshot → Text → Delivered → Option PushCheck → Ended W
  unfolding settle_queue land_step_snapshot queue_finished
  settle_step w snap head d c =
      if queue_finished snap.steps
      then settle_queue w snap d c
      else elim (land_step_snapshot env.now env.stamp snap head) [
        | none ↦ fail_with w (with_result snap (some d)) Failure.unlanded
        | some landed ↦ settle_queue w landed d c
      ]

  -- After the landing is recorded.
  unfoldable pub settle_landing :
      World W → StoredSnapshot → Text → Delivered → Option PushCheck → Ended W
  unfolding settle_step complete_landed conclude stored_mode
  settle_landing w snap head d c =
      if mode_eq (stored_mode snap) Mode.step
      then settle_step w snap head d c
      else if awaits_landing snap.phase
      then complete_landed w snap d c
      else conclude w snap d c

  -- The record of a landing.
  unfoldable pub applied_record : StoredSnapshot → Delivered → StoredSnapshot
  applied_record snap d = record snap {
    delivery = record (snap.delivery) {
      status = DeliveryStatus.applied;
      applied_head = d.check.current_head;
      reason = codes "";
      completed_at = some env.now;
    };
  }

  -- A landing that did not happen: the record stays pending, with the reason.
  unfoldable pub postpone : World W → StoredSnapshot → Option Delivered → Text → Ended W
  unfolding failed_delivery
  postpone w snap d reason =
      let snap' = record snap { delivery = failed_delivery snap.delivery reason } in
      saving env w (with_result snap' d)
        (λ w'. return w' (record (with_result snap' d) { reason = snap'.delivery.reason }))

  -- What the delivery's result means.
  unfoldable pub after_delivery :
      World W → StoredSnapshot → Text → Option PushCheck → Option Delivered → Ended W
  unfolding postpone settle_landing applied_record
  after_delivery w snap head c none = postpone w snap none env.error_text
  after_delivery w snap head c (some d) =
      if not d.applied
      then postpone w snap (some d) (env.refusal_text d.check)
      else settle_landing w (applied_record snap d) head d c

  -- From the pending checkpoint, which is on disk, on.
  unfoldable pub land : World W → StoredSnapshot → Manager → Option PushCheck → Ended W
  unfolding after_delivery deliver
  land w snap m c =
      let (repo, out) = deliver env.git w.repo m in
      after_delivery (record w { repo = repo }) snap m.final_head c out

  -- The manager of a landing.
  abbrev pub manager_to : StoredSnapshot → DeliveryOptions → Text → Manager
  unfolding manager_for trim_space
  manager_to snap opts head = record (manager_for snap head) { branch = trim_space opts.branch }

  -- The checkpoint before a landing.
  unfoldable pub pending_checkpoint : StoredSnapshot → DeliveryOptions → Text → StoredSnapshot
  unfolding pending_record
  pending_checkpoint snap opts head = record snap {
    delivery = record (pending_record snap env.set.austin.branch opts head) {
      attempted_at = some env.now;
      completed_at = none;
    };
  }

  -- The checkpoint is written before the user's repository is touched.
  unfoldable pub write_ahead :
      World W → StoredSnapshot → DeliveryOptions → Text → Option PushCheck → Ended W
  unfolding land pending_checkpoint manager_to
  write_ahead w snap opts head c =
      let p = pending_checkpoint snap opts head in
      if env.can_save w.saved p
      then land (stored_in env w p) p (manager_to snap opts head) c
      else fail w p Failure.unsaved

  -- A push that is not safe refuses the landing.
  unfoldable pub refuse_push :
      World W → StoredSnapshot → DeliveryOptions → Text → PushCheck → Ended W
  unfolding pending_record
  refuse_push w snap opts head c =
      let snap' = record snap {
        delivery = record (pending_record snap env.set.austin.branch opts head) {
          reason = env.push_text c;
          attempted_at = some env.now;
        };
      } in
      saving env w (only snap') (λ w'. return w' (record (only snap') { reason = env.push_text c }))

  -- The push is checked before anything moves.
  unfoldable pub check_target : World W → StoredSnapshot → DeliveryOptions → Text → Ended W
  unfolding write_ahead refuse_push check_push pending_record
  check_target w snap opts head =
      let p = pending_record snap env.set.austin.branch opts head in
      if not opts.push
      then write_ahead w snap opts head none
      else elim (check_push env.git w.repo p.target_repo p.target_branch head) [
        | none ↦ fail w snap Failure.push_unchecked
        | some c ↦
            if not c.can_push
            then refuse_push w snap opts head c
            else write_ahead w snap opts head (some c)
      ]
