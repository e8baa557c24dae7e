-- ===== src/Harness/Sound.antt =====
-- What the runtime of an agent always satisfies: internal/harness/tracker.go.
use duo.Prelude.{
  ◌≡◌, ◌≤◌, ℕ, zero, suc, ◌-◌, Bool, Bool-cases, inl, inr, List, [], ◌∷◌, arith, length, drop, refl,
  is_empty, if◌then◌else◌,
}
use duo.Text.{Text}
use duo.Project.Agent.{Activity}
use duo.Project.Verification.{Time}
use duo.Harness.Runtime.{
  AgentRuntime, ToolNote, new_runtime, handle_runtime, note_runtime, record_tool, keep_recent,
}
use duo.Harness.Monitor.{is_active}

-- An agent with a provider call or a tool under way is busy, and at most three tools are remembered.
pub record IsSound (rt : AgentRuntime) : Type 0 where
  pub active : is_active rt ≡ rt.busy
  pub recent : length rt.recent ≤ 3

length-drop : (n : ℕ) (xs : List ToolNote) → length (drop n xs) ≡ length xs - n
length-drop zero xs = omega arith
length-drop (suc n) [] = omega arith
length-drop (suc n) (x ∷ xs) = ground (arith, length-drop n xs)

keep_recent-length : (xs : List ToolNote) → length (keep_recent xs) ≤ 3
keep_recent-length xs = ground (arith, length-drop (length xs - 3) xs)

pub new_runtime-IsSound : (now : Time) → IsSound (new_runtime now)
unfolding new_runtime
new_runtime-IsSound now = record { active = refl; recent = omega arith }

pub handle-IsSound :
    (now : Time) (activity : Activity) (rt : AgentRuntime)
    → IsSound rt
    → IsSound (handle_runtime now activity rt)
unfolding handle_runtime
handle-IsSound now activity rt h = record { active = ground arith; recent = ground arith }

-- What the flags of an agent's activity say is the same.
abbrev pub SameActivity : AgentRuntime → AgentRuntime → Type 0
SameActivity rt rt' =
    (rt'.busy ≡ rt.busy)
    × (rt'.provider_active ≡ rt.provider_active)
    × (rt'.tool_depth ≡ rt.tool_depth)

pub IsSound_lem :
    (rt rt' : AgentRuntime) → SameActivity rt rt' → length rt'.recent ≤ 3 → IsSound rt → IsSound rt'
IsSound_lem rt rt' (b, p, d) r h = record { active = ground arith; recent = r }

record_tool-SameActivity :
    (now : Time) (tool detail : Text) (passed : Bool) (rt : AgentRuntime)
    → SameActivity rt (record_tool now tool detail passed rt)
unfolding record_tool
record_tool-SameActivity now tool detail passed rt = ground arith

record_tool-recent :
    (now : Time) (tool detail : Text) (passed : Bool) (rt : AgentRuntime)
    → length rt.recent ≤ 3
    → length (record_tool now tool detail passed rt).recent ≤ 3
unfolding record_tool
record_tool-recent now tool detail passed rt h =
    elim (Bool-cases (is_empty (if is_empty tool then rt.tool else tool))) [
      | inl unnamed ↦ ground arith
      | inr named ↦ rw named (search keep_recent-length)
    ]

note-SameActivity :
    (now : Time) (activity : Activity) (tool detail : Text) (rt : AgentRuntime)
    → SameActivity rt (note_runtime now activity tool detail rt)
unfolding note_runtime record_tool
note-SameActivity now activity tool detail rt = ground arith

note-recent :
    (now : Time) (activity : Activity) (tool detail : Text) (rt : AgentRuntime)
    → length rt.recent ≤ 3
    → length (note_runtime now activity tool detail rt).recent ≤ 3
unfolding note_runtime
note-recent now Activity.agent_start tool detail rt h = omega arith
note-recent now Activity.agent_settled tool detail rt h = h
note-recent now Activity.provider_start tool detail rt h = h
note-recent now Activity.provider_end tool detail rt h = h
note-recent now Activity.tool_start tool detail rt h = h
note-recent now Activity.tool_end tool detail rt h = search (record_tool-recent, h)
note-recent now Activity.tool_error tool detail rt h = search (record_tool-recent, h)
note-recent now Activity.stream tool detail rt h = h
note-recent now (Activity.other name) tool detail rt h = h

pub note-IsSound :
    (now : Time) (activity : Activity) (tool detail : Text) (rt : AgentRuntime)
    → IsSound rt
    → IsSound (note_runtime now activity tool detail rt)
note-IsSound now activity tool detail rt h =
    IsSound_lem rt (note_runtime now activity tool detail rt)
      (note-SameActivity now activity tool detail rt)
      (note-recent now activity tool detail rt h.recent) h
