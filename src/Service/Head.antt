-- ===== src/Service/Head.antt =====
-- internal/session/delivery.go: which commit a session delivers, and what its record says of it.
use duo.Prelude.{
  Bool, true, false, ◌&&◌, ◌||◌, not, Option, none, some, if◌then◌else◌, is_empty, [],
}
use duo.Text.{Text, text_eq, trim_space, is_blank}
use duo.Project.Agent.{AgentId}
use duo.Project.Mode.{Mode, mode_eq}
use duo.Project.Verification.{is_passed, targets}
use duo.Project.Steps.{effective_policy, queue_finished}
use duo.Store.Record.{StoredSnapshot, Worktree, DeliveryStatus, is_applied, stored_mode, step_under}
use duo.Delivery.Git.{rev_parse}
use duo.Delivery.Check.{Manager}
use duo.Delivery.Push.{branch_head}
use duo.Service.World.{Env, austin_head}

-- `deliveredHead`.
unfoldable pub delivered_head : StoredSnapshot → Text
unfolding trim_space
delivered_head snap =
    let head = trim_space snap.delivery.applied_head in
    if is_empty head then trim_space snap.delivery.final_head else head

-- `currentStepLanded`.
unfoldable pub current_step_landed : StoredSnapshot → Bool
unfolding text_eq step_under queue_finished
current_step_landed snap =
    if is_empty snap.delivery.final_head then false else elim (step_under snap.steps snap.step) [
      | none ↦
          queue_finished snap.steps && text_eq snap.delivery.final_head snap.delivery.applied_head
      | some st ↦ st.done && text_eq st.delivery_head snap.delivery.final_head
    ]

abbrev pub is_pending : DeliveryStatus → Bool
is_pending DeliveryStatus.pending = true
is_pending _ = false

-- The branch of Austin's stored worktree, or an empty text.
unfoldable pub stored_branch : StoredSnapshot → Text
unfolding trim_space
stored_branch snap = elim (snap.worktrees AgentId.austin) [
  | none ↦ []
  | some wt ↦ trim_space wt.branch
]

-- `austinBranch`.
unfoldable pub austin_branch : StoredSnapshot → Text
unfolding trim_space stored_branch
austin_branch snap =
    let final = trim_space snap.delivery.final_branch in
    if is_pending snap.delivery.status && not (is_empty final)
    then final
    else if not (is_empty (stored_branch snap))
    then stored_branch snap
    else final

-- `stepVerdictBinds`.
unfoldable pub step_verdict_binds : StoredSnapshot → Text → Bool
unfolding step_under targets
step_verdict_binds snap head = elim (step_under snap.steps snap.step) [
  | none ↦ false
  | some st ↦ is_passed st.verification.status && targets st.verification head
]

-- `ManagerFor`.
unfoldable pub manager_for : StoredSnapshot → Text → Manager
unfolding trim_space stored_branch
manager_for snap final = record {
  repository = trim_space snap.repository;
  base_branch = trim_space snap.base_branch;
  base_commit = trim_space snap.base_commit;
  final_branch = stored_branch snap;
  final_head = final;
  branch = [];
}

-- The policy of the step under the cursor, if there is one.
unfoldable pub current_policy : StoredSnapshot → Option Mode
unfolding step_under effective_policy
current_policy snap = elim (step_under snap.steps snap.step) [
  | none ↦ none
  | some st ↦ some (effective_policy st)
]

abbrev pub is_mode : Option Mode → Mode → Bool
is_mode none m = false
is_mode (some p) m = mode_eq p m

-- FAST, or a FAST step.
unfoldable pub is_fast : StoredSnapshot → Bool
unfolding stored_mode current_policy
is_fast snap =
    mode_eq (stored_mode snap) Mode.fast
    || (mode_eq (stored_mode snap) Mode.step && is_mode (current_policy snap) Mode.fast)

-- The sources of a final head that ask Git, in their order; an empty head is none.
module _ {W : Type 0} (env : Env W) (r : W) where
  -- The worktree's HEAD.
  unfoldable pub from_worktree : Worktree → Text
  unfolding is_blank austin_head
  from_worktree wt =
      if is_blank wt.path then [] else elim (austin_head env r) [ none ↦ [] | some head ↦ head ]

  -- The worktree's branch, in the user's repository.
  unfoldable pub from_branch : StoredSnapshot → Worktree → Text
  unfolding is_blank branch_head
  from_branch snap wt =
      if is_blank wt.branch
      then []
      else elim (branch_head env.git r snap.repository wt.branch) [ none ↦ [] | some head ↦ head ]

  -- The commit that both agents signed, if the repository has it.
  unfoldable pub from_signatures : StoredSnapshot → Text
  unfolding trim_space text_eq rev_parse
  from_signatures snap =
      let head = trim_space (snap.evidence AgentId.austin) in
      if not (snap.ready AgentId.austin) || not (snap.ready AgentId.tony)
      then []
      else if is_empty head || not (text_eq head (trim_space (snap.evidence AgentId.tony)))
      then []
      else elim (rev_parse env.git r snap.repository head) [
        | none ↦ []
        | some resolved ↦ if text_eq resolved head then head else []
      ]

  -- From Austin's worktree, if one is stored, on.
  unfoldable pub from_git : StoredSnapshot → Text
  unfolding from_worktree from_branch from_signatures
  from_git snap = elim (snap.worktrees AgentId.austin) [
    | none ↦ from_signatures snap
    | some wt ↦
        if not (is_blank (from_worktree wt))
        then from_worktree wt
        else if not (is_blank (from_branch snap wt))
        then from_branch snap wt
        else from_signatures snap
  ]

  -- `ResolveFinalHead`; an empty head is its error.
  unfoldable pub resolve_final_head : StoredSnapshot → Text
  unfolding trim_space from_git is_fast
  resolve_final_head snap =
      let recorded = trim_space snap.delivery.final_head in
      let merged = trim_space snap.integration.head in
      if not (is_empty recorded)
        && (is_pending snap.delivery.status || is_applied snap.delivery.status)
      then recorded
      else if is_fast snap && not (is_empty merged)
      then merged
      else from_git snap
