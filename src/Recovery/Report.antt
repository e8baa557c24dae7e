-- ===== src/Recovery/Report.antt =====
-- internal/recovery/recovery.go and internal/workspace/workspace.go: what is read from Git, and the
-- report.
use duo.Prelude.{Bool, Option, false, List, [], ℤ}
use duo.Text.{Text}
use duo.Project.Agent.{AgentId}
use duo.Project.Mode.{Phase}
use duo.Store.Record.{StoredSnapshot}

-- `workspace.MergeState` and `workspace.StepSync`.
pub record MergeState : Type 0 where
  pub in_progress : Bool
  pub merge_head : Text
  pub conflicted : Bool

pub record StepSync : Type 0 where
  pub head : Text
  pub moved : Bool
  pub skipped : Bool
  pub reason : Text

-- What the worktrees answer while a recovery runs; `none` is an error. `capture` is the commit of
-- `CaptureArtifact`, which fails on a worktree that is not clean. `sync_tony` moves Tony's worktree; it
-- is called last, so no other answer depends on it.
pub record Git : Type 0 where
  pub capture : AgentId → Option Text
  pub head : AgentId → Option Text
  pub merge_state : AgentId → Option MergeState
  pub is_ancestor : AgentId → Text → Text → Option Bool
  pub sync_tony : Text → Option StepSync

-- The lines of a report, one constructor for each text.
pub data RecoveryNote : Type 0 where
  unfinished_merge interrupted_merge already_merged stale_verification sync_failed : RecoveryNote
  under_review : ℤ → RecoveryNote
  sync_skipped : Text → RecoveryNote
  sync_moved : Text → RecoveryNote

pub record Report : Type 0 where
  pub phase : Phase
  pub revoked : List AgentId
  pub integration_recovered : Bool
  pub notes : List RecoveryNote

-- `Result`: the snapshot as recovered so far, and what has changed.
pub record Recovered : Type 0 where
  pub snapshot : StoredSnapshot
  pub report : Report

unfoldable pub new_report : StoredSnapshot → Recovered
new_report snap = record {
  snapshot = snap;
  report = record { phase = snap.phase; revoked = []; integration_recovered = false; notes = [] };
}
