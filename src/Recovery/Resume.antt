-- ===== src/Recovery/Resume.antt =====
-- internal/recovery/recovery.go: ReconcileAndApply, from a checkpoint to a live session.
use duo.Prelude.{◌≡◌, ◌⊎◌, true, false, Option, none, some, [], arith, if◌then◌else◌}
use duo.Project.Agent.{AgentId, is_peer}
use duo.Project.Mode.{Phase, phase_eq}
use duo.Project.Verification.{Time, Verification, VerificationResult, no_verification}
use duo.Project.State.{State}
use duo.Project.Snapshot.{Reply, snapshot, effective_mode}
use duo.Project.Restore
use duo.Project.Valid.Defs.{IsValid}
use duo.Store.Record.{StoredSnapshot}
use duo.Recovery.Report.{Git, Recovered}
use duo.Recovery.Reconcile.{reconcile}
use duo.Recovery.Compose.{ComposeInput, compose, project_snapshot}

-- `Result.Apply` of a reply: `none` is an error.
abbrev applied {ℓ} : {A : Type ℓ} → Recovered → Reply A → Option (Recovered × State)
applied r reply = elim reply.error [ none ↦ some (r, reply.state) | some e ↦ none ]

-- `ReconcileAndApply`; `none` is an error, which leaves the live state as it was.
unfoldable pub reconcile_and_apply :
    Time → Git → StoredSnapshot → State → Option (Recovered × State)
reconcile_and_apply now git snap s = elim (reconcile git snap) [
  | none ↦ none
  | some r ↦ applied r (Restore.restore now (project_snapshot r.snapshot) s)
]

-- The verification that was stored, but for the time of a blank one.
abbrev pub SameVerification : Verification → Verification → Type 0
SameVerification v w =
    (w ≡ v)
    ⊎ ((v.status ≡ VerificationResult.no_verdict)
        × (v.head ≡ [])
        × (v.note ≡ [])
        × (w ≡ no_verification))

-- A valid session that is composed into a checkpoint and read back is restored, onto any state, with
-- the same mode, phase, plan and version, signatures, notes and evidence of both agents, verification,
-- queue and inbox; a LOOP finish is forgotten in RUNNING.
pub restore-compose :
    (now : Time) (agent : AgentId) (input : ComposeInput) (s t : State)
    → IsValid s
    → is_peer agent ≡ true
    → input.project ≡ snapshot s
    → let r = Restore.restore now (project_snapshot (compose input)) t in
      (r.error ≡ none)
      × (r.state.mode ≡ s.mode)
      × (r.state.phase ≡ s.phase)
      × (r.state.plan ≡ s.plan)
      × (r.state.plan_version ≡ s.plan_version)
      × (r.state.ready agent ≡ s.ready agent)
      × (r.state.notes agent ≡ s.notes agent)
      × (r.state.evidence agent ≡ s.evidence agent)
      × SameVerification s.verification r.state.verification
      × (r.state.started ≡ s.started)
      × (r.state.steps ≡ s.steps)
      × (r.state.loop ≡ (
          if phase_eq s.phase Phase.running then record (s.loop) { finishing = false } else s.loop))
unfolding Restore.restore project_snapshot compose snapshot effective_mode
restore-compose now agent input s t v a e = ground (arith, e)
