-- ===== src/Service/Gates.antt =====
-- internal/session/delivery.go: the gates that a delivery passes before anything is written.
use duo.Prelude.{
  ℕ, Bool, true, false, ◌&&◌, ◌||◌, not, Option, none, some, ◌==◌, if◌then◌else◌, ℤ, pos, negsuc,
  length,
}
use duo.Text.{Text, text_eq, trim_space, is_blank}
use duo.Project.Agent.{AgentId}
use duo.Project.Mode.{Mode, Phase, mode_eq, phase_eq}
use duo.Project.Verification.{passes}
use duo.Project.Steps.{queue_finished}
use duo.Store.Record.{StoredSnapshot, stored_mode, verification_result}
use duo.Delivery.Git.{rev_parse}
use duo.Delivery.Push.{branch_head}
use duo.Service.World.{Env, Failure, Status, austin_status}
use duo.Service.Head.{austin_branch, step_verdict_binds, current_policy}

-- A FAST step has to be verified at the head. Without a step under the cursor it has to be, too,
-- unless the queue is finished.
unfoldable pub needs_verdict : StoredSnapshot → Bool
unfolding stored_mode queue_finished current_policy
needs_verdict snap =
    mode_eq (stored_mode snap) Mode.step
    && (not (queue_finished snap.steps)
        && elim (current_policy snap) [ none ↦ true | some p ↦ mode_eq p Mode.fast ])

-- The cursor is at the last step.
abbrev pub at_last : ℤ → ℕ → Bool
at_last (pos n) k = n == k
at_last (negsuc n) k = false

-- `goalGate`.
unfoldable pub needs_signatures : StoredSnapshot → Bool
unfolding stored_mode current_policy
needs_signatures snap =
    if mode_eq (stored_mode snap) Mode.step
    then elim (current_policy snap) [ none ↦ true | some p ↦ mode_eq p Mode.goal ]
      || at_last snap.step (length snap.steps)
    else mode_eq (stored_mode snap) Mode.goal

-- INTEGRATE, or in Goal also DONE.
unfoldable pub is_signable : StoredSnapshot → Bool
unfolding stored_mode
is_signable snap =
    phase_eq snap.phase Phase.integrate
    || (mode_eq (stored_mode snap) Mode.goal && phase_eq snap.phase Phase.done)

-- The agent's signature stands for the head.
unfoldable pub signs : StoredSnapshot → Text → AgentId → Bool
unfolding text_eq trim_space
signs snap head agent = snap.ready agent && text_eq (trim_space (snap.evidence agent)) head

module _ {W : Type 0} (env : Env W) (r : W) where
  -- Austin's worktree is gone: his branch, or else the commit itself, has to be the artifact.
  unfoldable pub recorded_gate : StoredSnapshot → Text → Option Failure
  unfolding austin_branch branch_head text_eq rev_parse
  recorded_gate snap head = elim (branch_head env.git r snap.repository (austin_branch snap)) [
    | some at ↦ if text_eq at head then none else some Failure.other_branch
    | none ↦ elim (rev_parse env.git r snap.repository head) [
      | none ↦ some Failure.unverified
      | some at ↦ if text_eq at head then none else some Failure.unverified
    ]
  ]

  -- Austin's worktree is clean and at the artifact.
  unfoldable pub worktree_gate : Status → Text → Option Failure
  unfolding text_eq
  worktree_gate st head =
      if st.dirty || not (text_eq st.head head) then some Failure.other_head else none

  unfoldable pub artifact_gate : StoredSnapshot → Text → Option Failure
  unfolding is_blank austin_status worktree_gate recorded_gate
  artifact_gate snap head =
      if is_blank env.set.austin.path then recorded_gate snap head else elim (austin_status env r) [
        | some st ↦ worktree_gate st head
        | none ↦
            if not (env.missing r env.set.austin.path)
            then some Failure.uninspected
            else recorded_gate snap head
      ]

  -- The signatures of both agents, in INTEGRATE, for an artifact that is there.
  unfoldable pub signature_gate : StoredSnapshot → Text → Option Failure
  unfolding is_signable artifact_gate signs
  signature_gate snap head =
      if not (is_signable snap)
      then some Failure.not_integrated
      else elim (artifact_gate snap head) [
        | some e ↦ some e
        | none ↦
            if signs snap head AgentId.austin && signs snap head AgentId.tony
            then none
            else some Failure.unsigned
      ]

  -- All gates, in their order; `none` lets the artifact pass.
  unfoldable pub gate : StoredSnapshot → Text → Option Failure
  unfolding verification_result passes needs_verdict step_verdict_binds needs_signatures stored_mode
  gate snap head =
      if mode_eq (stored_mode snap) Mode.fast && not (passes (verification_result snap) head)
      then some Failure.stale_verdict
      else if needs_verdict snap && not (step_verdict_binds snap head)
      then some Failure.no_verdict
      else if needs_signatures snap
      then signature_gate snap head
      else none
