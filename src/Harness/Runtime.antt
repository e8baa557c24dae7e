-- ===== src/Harness/Runtime.antt =====
-- internal/harness/tracker.go: what is known of one agent, and how an event changes it.
use duo.Prelude.{
  ℕ, ◌+◌, ◌-◌, Bool, true, false, List, [], ◌∷◌, ◌++◌, ◌==◌, ltb, if◌then◌else◌, is_empty, length,
  drop, ℤ, pos,
}
use duo.Text.{Text}
use duo.Project.Agent.{Activity}
use duo.Project.Verification.{Time}

-- `ToolNote`; a duration is a number of nanoseconds.
pub record ToolNote : Type 0 where
  pub name : Text
  pub detail : Text
  pub passed : Bool
  pub duration : ℕ

-- `AgentRuntime`, less the output rate, which is a floating-point number for display. The zero time
-- is 0.
pub record AgentRuntime : Type 0 where
  pub busy : Bool
  pub provider_active : Bool
  pub tool_depth : ℕ
  pub human_attached : Bool
  pub last_activity : Time
  pub tool : Text
  pub tool_detail : Text
  pub tool_failed : Bool
  pub stream_tail : Text
  pub last_error : Text
  pub context_tokens : ℤ
  pub context_window : ℤ
  pub context_warned : Bool
  pub turn_started : Time
  pub tool_started : Time
  pub tools : ℕ
  pub recent : List ToolNote
  pub failures : ℕ

-- `AgentRuntime{LastActivity: now}`.
unfoldable pub new_runtime : Time → AgentRuntime
new_runtime now = record {
  busy = false;
  provider_active = false;
  tool_depth = 0;
  human_attached = false;
  last_activity = now;
  tool = [];
  tool_detail = [];
  tool_failed = false;
  stream_tail = [];
  last_error = [];
  context_tokens = pos 0;
  context_window = pos 0;
  context_warned = false;
  turn_started = 0;
  tool_started = 0;
  tools = 0;
  recent = [];
  failures = 0;
}

-- `recentTools`.
abbrev pub recent_tools : ℕ
recent_tools = 3

-- The switch of `Handle`.
react : Activity → AgentRuntime → AgentRuntime
react Activity.agent_start rt = record rt { busy = true; failures = 0 }
react Activity.agent_settled rt = record rt {
  busy = false;
  provider_active = false;
  tool_depth = 0;
}
react Activity.provider_start rt = record rt { busy = true; provider_active = true }
react Activity.provider_end rt = record rt { provider_active = false }
react Activity.tool_start rt = record rt {
  busy = true;
  provider_active = false;
  tool_depth = rt.tool_depth + 1;
}
react Activity.tool_end rt = record rt { tool_depth = rt.tool_depth - 1 }
react Activity.tool_error rt = record rt { tool_depth = rt.tool_depth - 1 }
react Activity.stream rt = record rt { busy = true }
react (Activity.other name) rt = rt

-- `Handle` on one agent.
unfoldable pub handle_runtime : Time → Activity → AgentRuntime → AgentRuntime
unfolding react
handle_runtime now activity rt = react activity (record rt { last_activity = now })

-- The last three notes.
abbrev pub keep_recent : List ToolNote → List ToolNote
keep_recent notes =
    if ltb recent_tools (length notes) then drop (length notes - recent_tools) notes else notes

-- The name of a finished tool: its own, or that of the tool it closes.
abbrev tool_name : Text → AgentRuntime → Text
tool_name tool rt = if is_empty tool then rt.tool else tool

-- How long the tool has run, if its start is known.
abbrev elapsed : Time → Time → ℕ
elapsed now started = if started == 0 then 0 else now - started

-- `recordToolLocked`.
unfoldable pub record_tool : Time → Text → Text → Bool → AgentRuntime → AgentRuntime
record_tool now tool detail passed rt =
    let name = tool_name tool rt in
    if is_empty name then rt else record rt {
      tool_started = 0;
      recent = keep_recent (
          rt.recent
          ++ record {
            name = name;
            detail = detail;
            passed = passed;
            duration = elapsed now rt.tool_started;
          }
            ∷ []);
    }

abbrev or_kept : Text → Text → Text
or_kept new old = if is_empty new then old else new

-- `Note` on one agent.
unfoldable pub note_runtime : Time → Activity → Text → Text → AgentRuntime → AgentRuntime
unfolding record_tool
note_runtime now Activity.agent_start tool detail rt = record rt {
  tool = [];
  tool_detail = [];
  tool_failed = false;
  stream_tail = [];
  last_error = [];
  turn_started = now;
  tool_started = 0;
  tools = 0;
  recent = [];
}
note_runtime now Activity.provider_start tool detail rt = record rt { stream_tail = [] }
note_runtime now Activity.agent_settled tool detail rt = record rt { stream_tail = [] }
note_runtime now Activity.provider_end tool detail rt = rt
note_runtime now Activity.tool_start tool detail rt = record rt {
  tool = tool;
  tool_detail = detail;
  tool_failed = false;
  stream_tail = [];
  tool_started = now;
  tools = rt.tools + 1;
}
note_runtime now Activity.tool_end tool detail rt =
    record_tool now tool [] true (record rt { tool = or_kept tool rt.tool; tool_failed = false })
note_runtime now Activity.tool_error tool detail rt = record_tool now tool detail false (record rt {
  tool = or_kept tool rt.tool;
  tool_detail = or_kept detail rt.tool_detail;
  tool_failed = true;
})
note_runtime now Activity.stream tool detail rt = record rt {
  stream_tail = or_kept detail rt.stream_tail;
}
note_runtime now (Activity.other name) tool detail rt = rt
