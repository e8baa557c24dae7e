-- ===== src/Project/Laws/Snapshots.antt =====
-- internal/project/state.go: what a snapshot keeps, and what the persistence callback is told.
use duo.Prelude.{◌≡◌, ◌⊎◌, true, false, none, arith, is_empty, if◌then◌else◌}
use duo.Project.Agent.{AgentId, is_peer}
use duo.Project.Mode.{Phase, phase_eq}
use duo.Project.Verification.{Time}
use duo.Project.State.{State}
use duo.Project.Snapshot.{snapshot, effective_mode}
use duo.Project.Restore
use duo.Project.Valid.Defs.{IsValid}

-- A valid state that is stored as a snapshot is restored, onto any state, with the same mode, phase,
-- plan and version, signatures of both agents, verification, queue and inbox. The cursor is the same
-- unless there is no queue, and a LOOP finish is forgotten in RUNNING.
pub restore-snapshot :
    (now : Time) (agent : AgentId) (s t : State)
    → IsValid s
    → is_peer agent ≡ true
    → let r = Restore.restore now (snapshot s) t in
      (r.error ≡ none)
      × (r.state.mode ≡ s.mode)
      × (r.state.phase ≡ s.phase)
      × (r.state.plan ≡ s.plan)
      × (r.state.plan_version ≡ s.plan_version)
      × (r.state.ready agent ≡ s.ready agent)
      × (r.state.notes agent ≡ s.notes agent)
      × (r.state.evidence agent ≡ s.evidence agent)
      × (r.state.verification ≡ s.verification)
      × (r.state.started ≡ s.started)
      × (r.state.steps ≡ s.steps)
      × ((r.state.step ≡ s.step) ⊎ (is_empty s.steps ≡ true))
      × (r.state.loop ≡ (
          if phase_eq s.phase Phase.running then record (s.loop) { finishing = false } else s.loop))
unfolding Restore.restore snapshot effective_mode
restore-snapshot now agent s t v a = ground arith
