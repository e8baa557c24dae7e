-- ===== src/Service/Settle.antt =====
-- internal/session/delivery.go: how a landing moves the session, by the rules of internal/project.
use duo.Prelude.{Bool, ◌||◌, Option, none, some, pos, ◌>>=◌}
use duo.Text.{Text, trim_space}
use duo.Project.Mode.{Phase, phase_eq}
use duo.Project.Verification.{Time}
use duo.Project.State.{State}
use duo.Project.Snapshot.{Snapshot, Reply}
use duo.Project.Session
use duo.Project.Restore
use duo.Store.Record.{StoredSnapshot, Delivery, DeliveryStatus}
use duo.Recovery.Compose.{project_snapshot}

-- A new session restored from the checkpoint; `none` is an error.
unfoldable pub restored_state : Time → StoredSnapshot → Option State
unfolding Session.new_state project_snapshot Restore.restore
restored_state now snap =
    let r = Restore.restore now (project_snapshot snap) (Session.new_state now) in
    elim r.error [ none ↦ some r.state | some e ↦ none ]

-- The value of an operation that returned no error.
abbrev pub value_of {ℓ} : {A : Type ℓ} → Reply A → Option A
value_of r = elim r.error [ none ↦ some r.value | some e ↦ none ]

-- The step, the queue and the phase of a landed snapshot.
abbrev pub with_queue : StoredSnapshot → Snapshot → StoredSnapshot
with_queue snap next = record snap { phase = next.phase; step = pos next.step; steps = next.steps }

-- `LandStepSnapshot`; `none` is an error.
unfoldable pub land_step_snapshot : Time → Text → StoredSnapshot → Text → Option StoredSnapshot
unfolding restored_state Session.land_step
land_step_snapshot now stamp snap head = do
  s ← restored_state now snap
  landing ← value_of (Session.land_step now stamp head s)
  some (with_queue snap landing.0)

-- `CompleteSnapshot`; `none` is an error.
unfoldable pub complete_snapshot : Time → StoredSnapshot → Option StoredSnapshot
unfolding restored_state Session.complete
complete_snapshot now snap = do
  s ← restored_state now snap
  done ← value_of (Session.complete now s)
  some (record snap { phase = done.phase; loop = done.loop })

-- `FailedDelivery`.
unfoldable pub failed_delivery : Delivery → Text → Delivery
unfolding trim_space
failed_delivery d reason = record d { status = DeliveryStatus.pending; reason = trim_space reason }

-- INTEGRATE or VERIFY.
abbrev pub awaits_landing : Phase → Bool
awaits_landing p = phase_eq p Phase.integrate || phase_eq p Phase.verify
