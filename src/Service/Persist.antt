-- ===== src/Service/Persist.antt =====
-- internal/session/delivery.go: DeliverAndPersistTo and DeliverAndPersist.
use duo.Prelude.{Bool, true, ◌&&◌, ◌||◌, not, none, some, List, [], if◌then◌else◌, is_empty}
use duo.Text.{Text, codes, text_eq, trim_space}
use duo.Project.Mode.{Mode, Phase, mode_eq, phase_eq}
use duo.Store.Record.{StoredSnapshot, is_applied, stored_mode}
use duo.Delivery.Changes.{Change, changed_paths, or_no_changes}
use duo.Delivery.Push.{check_push, push}
use duo.Service.World.{
  Env, World, Ended, Failure, DeliveryOptions, no_options, DeliveryOutcome, PushReason, only, fail,
  return, saving, Status, austin_status,
}
use duo.Service.Head.{delivered_head, current_step_landed, manager_for, resolve_final_head}
use duo.Service.Settle.{complete_snapshot, failed_delivery, awaits_landing}
use duo.Service.Gates.{gate}
use duo.Service.Transact.{renewed, check_target, or_else}

-- The record names a head that Austin has left.
unfoldable pub moved : StoredSnapshot → Status → Bool
unfolding trim_space text_eq
moved snap st =
    let recorded = trim_space snap.delivery.final_head in
    not (is_empty recorded) && not (text_eq recorded st.head)

abbrev pub dirty_text : Text
dirty_text = codes "Austin worktree has uncommitted changes"

abbrev pub moved_text : Text
moved_text = codes "Austin HEAD changed after the delivery checkpoint"

module _ {W : Type 0} (env : Env W) where
  -- The changes from the base commit to a head, for a report.
  abbrev pub changes_to : W → StoredSnapshot → Text → List Change
  unfolding changed_paths manager_for
  changes_to r snap head = or_no_changes (changed_paths env.git r (manager_for snap head))

  -- `pushDelivered`, and what it adds to an outcome.
  unfoldable pub push_delivered : World W → StoredSnapshot → DeliveryOutcome → Ended W
  unfolding trim_space delivered_head check_push push
  push_delivered w snap o =
      let branch = or_else (trim_space snap.delivery.target_branch) (trim_space snap.base_branch) in
      elim (check_push env.git w.repo (trim_space snap.delivery.target_repo) branch
        (delivered_head snap)) [
          | none ↦ fail w snap Failure.push_unchecked
          | some c ↦
              if not c.can_push
              then return w (record o { push_reason = some (PushReason.refused c) })
              else (let (repo, pushed) = push env.git w.repo c in
                  return (record w { repo = repo })
                    (record o {
                      pushed = pushed;
                      push_reason = if pushed then none else some PushReason.failed;
                    }))
        ]

  -- The outcome for an artifact that was delivered before.
  unfoldable pub delivered_before : W → StoredSnapshot → DeliveryOutcome
  unfolding delivered_head changes_to
  delivered_before r snap =
      let head = delivered_head snap in
      record (only snap) {
        applied = true;
        changes = if is_empty head then [] else changes_to r snap head;
      }

  -- The report on it, and the push that may still be wanted.
  unfoldable pub report : World W → StoredSnapshot → DeliveryOptions → Ended W
  unfolding push_delivered delivered_before
  report w snap opts =
      let o = delivered_before w.repo snap in
      if opts.push then push_delivered w snap o else return w o

  -- The artifact was delivered before: only DONE may be missing.
  unfoldable pub retry : World W → StoredSnapshot → DeliveryOptions → Ended W
  unfolding report complete_snapshot
  retry w snap opts =
      if awaits_landing snap.phase
      then elim (complete_snapshot env.now snap) [
        | none ↦ fail w snap Failure.incomplete
        | some done ↦ saving env w (only done) (λ w'. report w' done opts)
      ]
      else report w snap opts

  -- The gates, for a head that may be empty.
  unfoldable pub attempt : World W → StoredSnapshot → DeliveryOptions → Text → Ended W
  unfolding gate check_target
  attempt w snap opts head =
      if is_empty head then fail w snap Failure.no_artifact else elim (gate env w.repo snap head) [
        | some e ↦ fail w snap e
        | none ↦ check_target env w snap opts head
      ]

  -- A LOOP delivery that Austin's worktree forbids.
  unfoldable pub block : World W → StoredSnapshot → Text → Ended W
  unfolding failed_delivery
  block w snap reason =
      let snap' = record snap { delivery = failed_delivery snap.delivery reason } in
      saving env w (only snap')
        (λ w'. return w' (record (only snap') { reason = snap'.delivery.reason }))

  unfoldable pub attempt_loop : World W → StoredSnapshot → DeliveryOptions → Status → Ended W
  unfolding block attempt resolve_final_head moved
  attempt_loop w snap opts st =
      if st.dirty
      then block w snap dirty_text
      else if moved snap st
      then block w snap moved_text
      else attempt w snap opts (or_else st.head (resolve_final_head env w.repo snap))

  -- From the choice of the final head on.
  unfoldable pub transact : World W → StoredSnapshot → DeliveryOptions → Ended W
  unfolding attempt_loop attempt resolve_final_head stored_mode austin_status
  transact w snap opts =
      if not (mode_eq (stored_mode snap) Mode.loop)
      then attempt w snap opts (resolve_final_head env w.repo snap)
      else if not (phase_eq snap.phase Phase.integrate) || not snap.loop.finishing
      then fail w snap Failure.unsettled
      else elim (austin_status env w.repo) [
        | none ↦ fail w snap Failure.unreadable
        | some st ↦ attempt_loop w snap opts st
      ]

  -- `DeliverAndPersistTo`.
  unfoldable pub deliver_and_persist_to : World W → StoredSnapshot → DeliveryOptions → Ended W
  unfolding retry transact renewed current_step_landed stored_mode
  deliver_and_persist_to w snap opts =
      if not (is_applied snap.delivery.status)
      then transact w snap opts
      else if mode_eq (stored_mode snap) Mode.step && not (current_step_landed snap)
      then transact w (renewed snap) opts
      else retry w snap opts

  unfoldable pub deliver_and_persist : World W → StoredSnapshot → Ended W
  unfolding deliver_and_persist_to
  deliver_and_persist w snap = deliver_and_persist_to w snap no_options
