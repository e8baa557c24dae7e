-- ===== src/Harness/Tracker.antt =====
-- internal/harness/tracker.go: Tracker, a runtime for each agent. Each operation holds the lock, so it
-- is one step.
use duo.Prelude.{◌+◌, Bool, true, Option, none, some, if◌then◌else◌, is_empty, ℤ, pos, negsuc, ◌==◌}
use duo.Text.{Text, trim_space}
use duo.Project.Agent.{AgentId, Activity, put}
use duo.Project.Verification.{Time}
use duo.Harness.Runtime.{AgentRuntime, new_runtime, handle_runtime, note_runtime}

-- The map from agents.
abbrev pub Tracker : Type 0
Tracker = AgentId → Option AgentRuntime

unfoldable pub new_tracker : Time → Tracker
unfolding new_runtime
new_tracker now =
    put (put (λ a. none) AgentId.austin (some (new_runtime now))) AgentId.tony
      (some (new_runtime now))

-- `ensureLocked`.
unfoldable pub ensure : Time → AgentId → Tracker → AgentRuntime
unfolding new_runtime
ensure now agent t = elim (t agent) [ none ↦ new_runtime now | some rt ↦ rt ]

-- A change of the runtime of one agent, which is made if it is not there.
abbrev pub update : Time → AgentId → (AgentRuntime → AgentRuntime) → Tracker → Tracker
update now agent f t = put t agent (some (f (ensure now agent t)))

-- The zero runtime.
unfoldable pub snapshot : AgentId → Tracker → AgentRuntime
unfolding new_runtime
snapshot agent t = elim (t agent) [ none ↦ new_runtime 0 | some rt ↦ rt ]

unfoldable pub touch : Time → AgentId → Tracker → Tracker
touch now agent t = update now agent (λ rt. record rt { last_activity = now }) t

unfoldable pub handle : Time → AgentId → Activity → Tracker → Tracker
unfolding handle_runtime
handle now agent activity t = update now agent (handle_runtime now activity) t

unfoldable pub note : Time → AgentId → Activity → Text → Text → Tracker → Tracker
unfolding note_runtime
note now agent activity tool detail t = update now agent (note_runtime now activity tool detail) t

-- `window <= 0 || tokens < 0`.
abbrev pub is_unmeasured : ℤ → ℤ → Bool
is_unmeasured tokens (negsuc w) = true
is_unmeasured (negsuc n) (pos w) = true
is_unmeasured (pos n) (pos w) = w == 0

unfoldable pub update_context : Time → AgentId → ℤ → ℤ → Tracker → Tracker
update_context now agent tokens window t =
    if is_unmeasured tokens window
    then t
    else update now agent (λ rt. record rt { context_tokens = tokens; context_window = window }) t

unfoldable pub set_context_warned : Time → AgentId → Bool → Tracker → Tracker
set_context_warned now agent warned t =
    update now agent (λ rt. record rt { context_warned = warned }) t

unfoldable pub note_error : Time → AgentId → Text → Tracker → Tracker
unfolding trim_space
note_error now agent text t =
    let trimmed = trim_space text in
    if is_empty trimmed then t else update now agent (λ rt. record rt { last_error = trimmed }) t

unfoldable pub set_human_attached : Time → AgentId → Bool → Tracker → Tracker
set_human_attached now agent attached t =
    update now agent (λ rt. record rt { human_attached = attached; last_activity = now }) t

unfoldable pub record_failure : Time → AgentId → Tracker → Tracker
record_failure now agent t = update now agent (λ rt. record rt { failures = rt.failures + 1 }) t

unfoldable pub reset : Time → AgentId → Tracker → Tracker
unfolding new_runtime
reset now agent t = put t agent (some (new_runtime now))
