-- ===== src/Coordinator/Message.antt =====
-- internal/protocol/types.go: the types of messages, and which ones the coordinator treats apart.
use duo.Prelude.{Bool, true, false, if◌then◌else◌, is_empty}
use duo.Text.{Text, codes}
use duo.Project.Agent.{AgentId}

-- `MessageType` is a string; `other` holds the strings that are none of the constants.
pub data MessageType : Type 0 where
  hello test activity assistant_message agent_error peer_message : MessageType
  loop_ask loop_reply loop_guard loop_events loop_wait loop_finish : MessageType
  steer duo_notice harness_prompt human_prompt resume_prompt : MessageType
  set_plan set_steps restart_duo set_status set_verification get_status : MessageType
  escalate mode_change response set_model model_state : MessageType
  cycle_thinking thinking_state usage : MessageType
  other : Text → MessageType

-- The fields of `Message` that are read here.
pub record Message : Type 0 where
  pub kind : MessageType  -- `Type`
  pub sender : AgentId  -- `From`
  pub recipient : AgentId  -- `To`
  pub mode : Text
  pub text : Text

-- The constants.
unfoldable pub type_text : MessageType → Text
type_text MessageType.hello = codes "hello"
type_text MessageType.test = codes "test"
type_text MessageType.activity = codes "activity"
type_text MessageType.assistant_message = codes "assistant_message"
type_text MessageType.agent_error = codes "agent_error"
type_text MessageType.peer_message = codes "peer_message"
type_text MessageType.loop_ask = codes "loop_ask"
type_text MessageType.loop_reply = codes "loop_reply"
type_text MessageType.loop_guard = codes "loop_guard"
type_text MessageType.loop_events = codes "loop_events"
type_text MessageType.loop_wait = codes "loop_wait"
type_text MessageType.loop_finish = codes "loop_finish"
type_text MessageType.steer = codes "steer"
type_text MessageType.duo_notice = codes "duo_notice"
type_text MessageType.harness_prompt = codes "harness_prompt"
type_text MessageType.human_prompt = codes "human_prompt"
type_text MessageType.resume_prompt = codes "resume_prompt"
type_text MessageType.set_plan = codes "set_plan"
type_text MessageType.set_steps = codes "set_steps"
type_text MessageType.restart_duo = codes "restart_duo"
type_text MessageType.set_status = codes "set_status"
type_text MessageType.set_verification = codes "set_verification"
type_text MessageType.get_status = codes "get_status"
type_text MessageType.escalate = codes "escalate"
type_text MessageType.mode_change = codes "mode_change"
type_text MessageType.response = codes "response"
type_text MessageType.set_model = codes "set_model"
type_text MessageType.model_state = codes "model_state"
type_text MessageType.cycle_thinking = codes "cycle_thinking"
type_text MessageType.thinking_state = codes "thinking_state"
type_text MessageType.usage = codes "usage"
type_text (MessageType.other t) = t

-- The types whose text Core wrote, so that it may name only tools that the agent has.
unfoldable pub is_core_text : MessageType → Bool
is_core_text MessageType.duo_notice = true
is_core_text MessageType.harness_prompt = true
is_core_text MessageType.resume_prompt = true
is_core_text MessageType.mode_change = true
is_core_text _ = false

-- The types that arrive in the agent's session as a turn of the user.
unfoldable pub is_injected : MessageType → Bool
is_injected MessageType.human_prompt = true
is_injected MessageType.harness_prompt = true
is_injected MessageType.resume_prompt = true
is_injected MessageType.duo_notice = true
is_injected MessageType.steer = true
is_injected MessageType.mode_change = true
is_injected _ = false

-- What a pause does with a message.
pub data Treatment : Type 0 where
  hold drop pass : Treatment

unfoldable pub treatment_of : MessageType → Text → Treatment
treatment_of MessageType.human_prompt text = Treatment.hold
treatment_of MessageType.steer text = Treatment.hold
treatment_of MessageType.duo_notice text = Treatment.hold
treatment_of MessageType.harness_prompt text = Treatment.hold
treatment_of MessageType.mode_change text = if is_empty text then Treatment.pass else Treatment.hold
treatment_of MessageType.resume_prompt text = Treatment.drop
treatment_of _ text = Treatment.pass

abbrev pub treatment : Message → Treatment
unfolding treatment_of
treatment m = treatment_of m.kind m.text
