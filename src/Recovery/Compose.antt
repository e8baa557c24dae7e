-- ===== src/Recovery/Compose.antt =====
-- internal/recovery/recovery.go: Compose and ProjectSnapshot, between the live session and its
-- checkpoint.
use duo.Prelude.{
  ℕ, Bool, true, false, ◌||◌, not, Option, none, some, if◌then◌else◌, is_empty, ℤ, pos, negsuc,
}
use duo.Text.{Text, codes}
use duo.Project.Agent.{AgentId}
use duo.Project.Mode.{Mode}
use duo.Project.Verification.{Time, VerificationResult, Verification}
use duo.Project.Snapshot.{Snapshot, effective_mode, of_agents}
use duo.Store.Record.{Worktree, Delivery, StoredSnapshot, stored_mode, verification_result}
use duo.Store.Migrate.{current_schema}

-- `workspace.Set`, as far as it is stored.
pub record WorktreeSet : Type 0 where
  pub scope_path : Text
  pub austin : Worktree
  pub tony : Worktree

-- `workspace.IntegrationResult`, as far as it is stored.
pub record IntegrationResult : Type 0 where
  pub head : Text
  pub merged_tony : Text
  pub conflicted : Bool

pub record ComposeInput : Type 0 where
  pub duo_version : Text
  pub session_id : Text
  pub repo_id : Text
  pub repository : Text
  pub base_branch : Text
  pub base_commit : Text
  pub created_at : Time
  pub project : Snapshot
  pub worktrees : WorktreeSet
  pub integration : IntegrationResult
  pub delivery : Delivery

driver_of : Mode → Text
driver_of Mode.fast = codes "Austin"
driver_of Mode.step = codes "Austin"
driver_of _ = codes ""

abbrev is_none_verdict : VerificationResult → Bool
is_none_verdict VerificationResult.no_verdict = true
is_none_verdict _ = false

-- A verification without status, head and note is not stored.
unfoldable pub store_verification : Verification → Option Verification
store_verification v =
    if not (is_none_verdict v.status) || (not (is_empty v.head) || not (is_empty v.note))
    then some v
    else none

worktree_for : WorktreeSet → AgentId → Option Worktree
worktree_for set AgentId.austin = some set.austin
worktree_for set AgentId.tony = some set.tony
worktree_for set _ = none

unfoldable pub compose : ComposeInput → StoredSnapshot
unfolding driver_of store_verification worktree_for effective_mode
compose input = record {
  schema_version = pos current_schema;
  persisted_schema_version = pos 0;
  duo_version = input.duo_version;
  session_id = input.session_id;
  title = codes "";
  repo_id = input.repo_id;
  repository = input.repository;
  scope_path = input.worktrees.scope_path;
  base_branch = input.base_branch;
  base_commit = input.base_commit;
  loop = input.project.loop;
  phase = input.project.phase;
  plan = input.project.plan;
  plan_version = input.project.plan_version;
  started = input.project.started;
  step = pos input.project.step;
  steps = input.project.steps;
  mode = effective_mode input.project;
  driver = driver_of (effective_mode input.project);
  ready = of_agents false input.project.ready;
  notes = of_agents (codes "") input.project.notes;
  evidence = of_agents (codes "") input.project.evidence;
  verification = store_verification input.project.verification;
  worktrees = worktree_for input.worktrees;
  integration = record {
    started = not (is_empty input.integration.head) || input.integration.conflicted;
    conflicted = input.integration.conflicted;
    head = input.integration.head;
    merged_tony = input.integration.merged_tony;
  };
  delivery = input.delivery;
  created_at = input.created_at;
}

-- A cursor below 0, which nothing reads after this, stands as 0.
abbrev cursor_of : ℤ → ℕ
cursor_of (pos n) = n
cursor_of (negsuc n) = 0

-- `ProjectSnapshot`; the zero time stands for `LastMutation`.
unfoldable pub project_snapshot : StoredSnapshot → Snapshot
unfolding verification_result stored_mode
project_snapshot snap = record {
  loop = snap.loop;
  mode = stored_mode snap;
  phase = snap.phase;
  plan = snap.plan;
  plan_version = snap.plan_version;
  ready = of_agents false snap.ready;
  notes = of_agents (codes "") snap.notes;
  evidence = of_agents (codes "") snap.evidence;
  verification = verification_result snap;
  started = snap.started;
  last_mutation = 0;
  step = cursor_of snap.step;
  steps = snap.steps;
}
