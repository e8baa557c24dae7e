-- ===== src/Service/Settled.antt =====
-- How a transaction that returns no error has settled the session: internal/session/delivery.go.
use duo.Prelude.{
  ◌≡◌, ◌≢◌, ◌⊎◌, inl, inr, arith, true, false, none, some, Option-cases, Bool-cases, >>=-eq-some,
}
use duo.Text.{Text}
use duo.Project.Mode.{Mode, Phase, mode_eq}
use duo.Project.Verification.{Time}
use duo.Project.Steps.{queue_finished, step_at}
use duo.Project.State.{State}
use duo.Project.Session
use duo.Project.Snapshot.{snapshot, effective_mode}
use duo.Project.Restore
use duo.Project.Workflow.Dispatch.{run_land_step}
use duo.Project.Workflow.Step
use duo.Store.Record.{StoredSnapshot, stored_mode, is_applied, step_under}
use duo.Store.Needs.{needs_delivery}
use duo.Recovery.Compose.{project_snapshot}
use duo.Service.Settle.{value_of, restored_state, land_step_snapshot, complete_snapshot}

-- Nothing is left to deliver, or the session is not in Step, or its queue is finished.
abbrev pub IsQuiet : StoredSnapshot → Type 0
IsQuiet snap =
    (needs_delivery snap ≡ false)
    ⊎ (stored_mode snap ≢ Mode.step)
    ⊎ (queue_finished snap.steps ≡ true)

-- Completion changes the phase and the inbox.
pub complete_snapshot_lem :
    (now : Time) (snap done : StoredSnapshot)
    → complete_snapshot now snap ≡ some done
    → (done.delivery ≡ snap.delivery)
      × (done.mode ≡ snap.mode)
      × (done.steps ≡ snap.steps)
      × (done.step ≡ snap.step)
unfolding complete_snapshot
complete_snapshot_lem now snap done h =
    let (s, e, h1) = >>=-eq-some (restored_state now snap) _ h in
    let (v, f, h2) = >>=-eq-some (value_of (Session.complete now s)) _ h1 in (cc, cc, cc, cc)

-- After a landing the work goes on in EXECUTE, or no step is under the cursor.
abbrev pub HasMoved : StoredSnapshot → Type 0
HasMoved snap = (snap.phase ≡ Phase.execute) ⊎ (step_under snap.steps snap.step ≡ none)

land-moves :
    (now : Time) (stamp head : Text) (s : State)
    → s.mode ≡ Mode.step
    → let r = Session.land_step now stamp head s in
      r.error ≡ none
      → (r.value.0.phase ≡ Phase.execute) ⊎ (step_at r.value.0.steps r.value.0.step ≡ none)
unfolding Session.land_step run_land_step Step.land_step snapshot step_at
land-moves now stamp head s m e = ground (arith, m)

restored-mode :
    (now : Time) (snap : StoredSnapshot) (s : State)
    → restored_state now snap ≡ some s
    → s.mode ≡ stored_mode snap
unfolding restored_state Restore.restore project_snapshot stored_mode effective_mode
restored-mode now snap s h = ground arith

-- A landing changes the phase, the queue and its cursor.
pub land_step_snapshot_lem :
    (now : Time) (stamp head : Text) (snap landed : StoredSnapshot)
    → stored_mode snap ≡ Mode.step
    → land_step_snapshot now stamp snap head ≡ some landed
    → (landed.delivery ≡ snap.delivery) × (landed.mode ≡ snap.mode) × HasMoved landed
unfolding land_step_snapshot step_under
land_step_snapshot_lem now stamp head snap landed m h =
    elim (Option-cases (restored_state now snap)) [
      | inl e ↦ ground arith
      | inr (s, e) ↦ ground (arith, restored-mode now snap s e, land-moves now stamp head s)
    ]

-- In Step, after a landing that is recorded, nothing is left to deliver.
pub moved-IsQuiet :
    (snap : StoredSnapshot) → is_applied snap.delivery.status ≡ true → HasMoved snap → IsQuiet snap
unfolding needs_delivery
moved-IsQuiet snap a h = elim (Bool-cases (mode_eq (stored_mode snap) Mode.step)) [
  | inl m ↦ inl (ground arith)
  | inr m ↦ inr (inl (λ e. ground arith))
]
