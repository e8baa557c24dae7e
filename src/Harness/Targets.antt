-- ===== src/Harness/Targets.antt =====
-- internal/harness/step.go: who has to act next in a Step session.
use duo.Prelude.{
  Bool, true, false, ◌||◌, Option, none, some, List, [], ◌∷◌, ◌++◌, leb, length, if◌then◌else◌,
}
use duo.Project.Agent.{AgentId}
use duo.Project.Mode.{Mode, Phase, mode_eq}
use duo.Project.Steps.{Step, step_at, effective_policy}
use duo.Project.Snapshot.{Snapshot}

-- `currentStep`.
unfoldable pub snapshot_step : Snapshot → Option Step
unfolding step_at
snapshot_step snap = step_at snap.steps snap.step

unfoldable pub step_policy : Snapshot → Mode
unfolding snapshot_step effective_policy
step_policy snap = elim (snapshot_step snap) [ none ↦ Mode.fast | some st ↦ effective_policy st ]

-- `missing`: the agents that have not signed, Austin first.
unfoldable pub missing : Snapshot → List AgentId
missing snap =
    (if snap.ready AgentId.austin then [] else AgentId.austin ∷ [])
    ++ (if snap.ready AgentId.tony then [] else AgentId.tony ∷ [])

-- The switch of `stepNudgeTargets` on the phase.
targets_in : Phase → Snapshot → List AgentId
unfolding missing step_policy
targets_in Phase.plan snap = missing snap
targets_in Phase.execute snap =
    if mode_eq (step_policy snap) Mode.goal then missing snap else AgentId.austin ∷ []
targets_in Phase.review snap =
    if mode_eq (step_policy snap) Mode.goal then missing snap else AgentId.tony ∷ []
targets_in Phase.integrate snap =
    if leb (length snap.steps) snap.step || mode_eq (step_policy snap) Mode.goal
    then missing snap
    else []
targets_in _ snap = []

unfoldable pub step_nudge_targets : Snapshot → List AgentId
unfolding targets_in
step_nudge_targets snap = targets_in snap.phase snap

-- Whether `stepNudgePrompt` gives a text.
unfoldable pub has_prompt : Phase → Snapshot → Bool
unfolding step_policy
has_prompt Phase.plan snap = true
has_prompt Phase.execute snap = true
has_prompt Phase.review snap = true
has_prompt Phase.integrate snap =
    leb (length snap.steps) snap.step || mode_eq (step_policy snap) Mode.goal
has_prompt _ snap = false
