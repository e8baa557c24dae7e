-- ===== src/Tests/Resume.antt =====
-- The theorems on checkpoints and recovery at concrete sessions.
use duo.Prelude.{◌≡◌, refl, inl, inr, true, none, some, Option, pos, arith}
use duo.Text.{codes, is_space}
use duo.Project.Agent.{AgentId}
use duo.Project.Mode.{Mode, Phase, valid_phase}
use duo.Project.Steps.{first_open_step}
use duo.Project.Verification.{VerificationResult}
use duo.Project.Snapshot.{Snapshot, Reply}
use duo.Project.State.{Transition}
use duo.Project.Session
use duo.Project.Restore
use duo.Project.Workflow.Dispatch.{run_set_ready}
use duo.Project.Workflow.Goal
use duo.Store.Record.{StoredSnapshot, stored_mode}
use duo.Store.Migrate.{migrate}
use duo.Store.Migrate.Laws.{SameSession, migrate-SameSession}
use duo.Store.Needs.{needs_delivery}
use duo.Recovery.Report.{Recovered, new_report}
use duo.Recovery.Merge.{recover_merge}
use duo.Recovery.Reconcile.{reconcile}
use duo.Recovery.Safe.{IsTrustworthy, reconcile-IsTrustworthy}
use duo.Recovery.Again.{reconcile_again}
use duo.Recovery.Compose.{compose, project_snapshot}
use duo.Recovery.Resume.{reconcile_and_apply, restore-compose}
use duo.Recovery.Modes.{fast_merge_blocks_resume}
use duo.Recovery.Durable.{delivery_request_is_durable}
use duo.Tests.Sessions.{session, half_signed}
use duo.Tests.Checkpoints.{stored, no_merge, open_merge, worktrees, composed}

migrate-SameSession_example :
    (t : StoredSnapshot) × (migrate (stored Mode.goal Phase.integrate) ≡ some t)
    × (t.schema_version ≡ pos 5)
    × (t.persisted_schema_version ≡ pos 2)
    × SameSession (stored Mode.goal Phase.integrate) t
migrate-SameSession_example =
    migrate-SameSession 2 (stored Mode.goal Phase.integrate) refl (omega arith) (omega arith)

reconcile-IsTrustworthy_example :
    (r : Recovered) × (reconcile (worktrees no_merge) (stored Mode.goal Phase.integrate) ≡ some r)
    × IsTrustworthy (worktrees no_merge) (stored Mode.goal Phase.integrate) r.snapshot
reconcile-IsTrustworthy_example =
    reconcile-IsTrustworthy (worktrees no_merge) no_merge (codes "abc") (codes "abc") true
      (stored Mode.goal Phase.integrate) refl refl refl refl

fast_merge_blocks_resume_example :
    reconcile_and_apply 1
      (worktrees open_merge)
      (stored Mode.fast Phase.running)
      (session Mode.fast Phase.running)
    ≡ none
unfolding stored_mode
fast_merge_blocks_resume_example =
    fast_merge_blocks_resume 1 (worktrees open_merge) open_merge (stored Mode.fast Phase.running)
      (session Mode.fast Phase.running) refl refl refl

restore-compose_example :
    (Restore.restore 1
      (project_snapshot (compose (composed (session Mode.goal Phase.plan))))
      (session Mode.fast Phase.running)).error
    ≡ none
unfolding valid_phase first_open_step
restore-compose_example =
    (restore-compose 1 AgentId.austin (composed (session Mode.goal Phase.plan))
      (session Mode.goal Phase.plan) (session Mode.fast Phase.running)
      (record { known = refl; in_mode = refl; cursor = inr (refl, refl) }) refl refl).0

abbrev recovered_from : StoredSnapshot → Option Recovered → Recovered
recovered_from snap none = new_report snap
recovered_from snap (some r) = r

-- The recovery of the checkpoint.
abbrev recovered : Recovered
recovered =
    recovered_from (stored Mode.goal Phase.integrate)
      (reconcile (worktrees no_merge) (stored Mode.goal Phase.integrate))

reconcile_again_example :
    (x : Recovered) × (reconcile (worktrees no_merge) recovered.snapshot ≡ some x)
    × (x.snapshot ≡ recovered.snapshot)
unfolding reconcile recover_merge new_report
reconcile_again_example =
    reconcile_again (worktrees no_merge) (stored Mode.goal Phase.integrate) recovered refl

-- Tony's signature on INTEGRATE after Austin's.
abbrev requested : Reply (Snapshot × Transition)
requested = Session.set_ready 1 AgentId.tony true (codes "") (codes "abc") half_signed

delivery_request_is_durable_example : needs_delivery (compose (composed requested.state)) ≡ true
unfolding Session.set_ready run_set_ready Goal.set_ready is_space
delivery_request_is_durable_example =
    delivery_request_is_durable 1 AgentId.tony true VerificationResult.passed (codes "")
      (codes "abc") half_signed (composed requested.state) refl (inl (refl, refl)) refl
