-- ===== src/Store/Record.antt =====
-- internal/sessionstore/snapshot.go: the checkpoint that is written to disk.
use duo.Prelude.{Bool, Option, none, some, ℤ, true, false}
use duo.Text.{Text}
use duo.Project.Agent.{AgentId}
use duo.Project.Mode.{Mode, Phase, normalize}
use duo.Project.Verification.{Time, Verification, no_verification}
use duo.Project.Steps.{Step, Steps, step_at}
use duo.Project.LoopState.{LoopState}

pub record Worktree : Type 0 where
  pub path : Text
  pub branch : Text

pub record Integration : Type 0 where
  pub started : Bool
  pub conflicted : Bool
  pub head : Text
  pub merged_tony : Text

-- `Delivery.Status` is a string; `unattempted` is the empty one, `other` what the code never writes.
pub data DeliveryStatus : Type 0 where
  unattempted pending applied blocked : DeliveryStatus
  other : Text → DeliveryStatus

pub record Delivery : Type 0 where
  pub status : DeliveryStatus
  pub final_head : Text
  pub final_branch : Text
  pub target_repo : Text
  pub target_branch : Text
  pub applied_head : Text
  pub reason : Text
  pub attempted_at : Option Time
  pub completed_at : Option Time

abbrev pub is_applied : DeliveryStatus → Bool
is_applied DeliveryStatus.applied = true
is_applied _ = false

-- `Snapshot`, less what no rule here reads: the pause and usage records and the opaque state of the
-- drivers.
pub record StoredSnapshot : Type 0 where
  pub schema_version : ℤ
  pub persisted_schema_version : ℤ
  pub duo_version : Text
  pub session_id : Text
  pub title : Text
  pub repo_id : Text
  pub repository : Text
  pub scope_path : Text
  pub base_branch : Text
  pub base_commit : Text
  pub loop : LoopState
  pub phase : Phase
  pub plan : Text
  pub plan_version : ℤ
  pub started : Bool
  pub step : ℤ
  pub steps : Steps
  pub mode : Mode
  pub driver : Text
  pub ready : AgentId → Bool
  pub notes : AgentId → Text
  pub evidence : AgentId → Text
  pub verification : Option Verification
  pub worktrees : AgentId → Option Worktree
  pub integration : Integration
  pub delivery : Delivery
  pub created_at : Time

unfoldable pub stored_mode : StoredSnapshot → Mode
unfolding normalize
stored_mode snap = normalize snap.mode

unfoldable pub verification_result : StoredSnapshot → Verification
verification_result snap = elim snap.verification [ none ↦ no_verification | some v ↦ v ]

-- The cursor is an int that a file may hold below 1.
unfoldable pub step_under : Steps → ℤ → Option Step
unfolding step_at
step_under steps (ℤ.negsuc n) = none
step_under steps (ℤ.pos n) = step_at steps n
