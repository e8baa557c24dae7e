-- ===== src/Project/Agent.antt =====
-- internal/protocol/types.go: the agents, and the activities that a driver reports.
use duo.Prelude.{Bool, true, false, if◌then◌else◌}
use duo.Text.{Text, codes, text_eq, trim_space, to_lower}

-- `AgentID` is a string; `other` holds the strings that name none of the three.
pub data AgentId : Type 0 where
  austin tony duo_core : AgentId
  other : Text → AgentId

abbrev pub agent_eq : AgentId → AgentId → Bool
agent_eq AgentId.austin AgentId.austin = true
agent_eq AgentId.tony AgentId.tony = true
agent_eq AgentId.duo_core AgentId.duo_core = true
agent_eq (AgentId.other a) (AgentId.other b) = text_eq a b
agent_eq _ _ = false

-- The guard `agent != Austin && agent != Tony`, the other way round.
abbrev pub is_peer : AgentId → Bool
is_peer AgentId.austin = true
is_peer AgentId.tony = true
is_peer _ = false

unfoldable pub canonical_agent : Text → AgentId
unfolding to_lower trim_space text_eq
canonical_agent value =
    let key = to_lower (trim_space value) in
    if text_eq key (codes "austin")
    then AgentId.austin
    else if text_eq key (codes "tony")
    then AgentId.tony
    else if text_eq key (codes "duo")
    then AgentId.duo_core
    else AgentId.other (trim_space value)

unfoldable pub peer_of : AgentId → AgentId
peer_of AgentId.austin = AgentId.tony
peer_of AgentId.tony = AgentId.austin
peer_of _ = AgentId.other (codes "")

-- A Go map from agents: a missing key reads as the zero value, which the model writes out.
abbrev pub put {ℓ} : {A : Type ℓ} → (AgentId → A) → AgentId → A → AgentId → A
put m k v j = if agent_eq j k then v else m j

-- `ActivityType` is a string; `other` holds the strings that are none of the constants.
pub data Activity : Type 0 where
  agent_start agent_settled provider_start provider_end : Activity
  tool_start tool_end tool_error stream : Activity
  other : Text → Activity
