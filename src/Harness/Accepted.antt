-- ===== src/Harness/Accepted.antt =====
-- What a nudged agent of a Step session can do: internal/harness/step.go against
-- internal/project/workflow.go.
use duo.Prelude.{Bool, false, ◌||◌, List, [], ◌∷◌}
use duo.Text.{Text}
use duo.Project.Agent.{AgentId, agent_eq}
use duo.Project.Mode.{Mode}
use duo.Project.Steps.{Step}
use duo.Project.State.{State}
use duo.Project.Session
use duo.Project.Workflow.Step

abbrev pub is_among : AgentId → List AgentId → Bool
is_among a [] = false
is_among a (b ∷ agents) = agent_eq a b || is_among a agents
