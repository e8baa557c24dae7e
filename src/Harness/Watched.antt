-- ===== src/Harness/Watched.antt =====
-- What a tracker always satisfies, over its histories: internal/harness/tracker.go.
use duo.Prelude.{
  ◌∙◌, sym, subst, ◌≡◌, ℕ, ◌+◌, Bool, true, false, Option, none, some, Option-cases, Bool-cases,
  inl, inr, List, [], ◌∷◌, arith, ℤ, refl, is_empty, if◌then◌else◌,
}
use duo.Text.{Text, trim_space}
use duo.Project.Agent.{AgentId, Activity, agent_eq, put}
use duo.Project.Verification.{Time}
use duo.Harness.Runtime.{AgentRuntime, ToolNote, new_runtime, handle_runtime, note_runtime}
use duo.Harness.Tracker.{Tracker, new_tracker, ensure, snapshot, update, is_unmeasured}
use duo.Harness.Tracker as Tracking
use duo.Harness.Sound.{IsSound, IsSound_lem, new_runtime-IsSound, handle-IsSound, note-IsSound}

-- The operations on a tracker.
pub data Event : Type 0 where
  touch reset record_failure : Time → AgentId → Event
  handle : Time → AgentId → Activity → Event
  note : Time → AgentId → Activity → Text → Text → Event
  update_context : Time → AgentId → ℤ → ℤ → Event
  set_context_warned set_human_attached : Time → AgentId → Bool → Event
  note_error : Time → AgentId → Text → Event

unfoldable pub apply : Event → Tracker → Tracker
unfolding Tracking.touch Tracking.reset Tracking.record_failure Tracking.handle Tracking.note
    Tracking.update_context Tracking.set_context_warned Tracking.set_human_attached
    Tracking.note_error
apply (Event.touch now agent) t = Tracking.touch now agent t
apply (Event.reset now agent) t = Tracking.reset now agent t
apply (Event.record_failure now agent) t = Tracking.record_failure now agent t
apply (Event.handle now agent activity) t = Tracking.handle now agent activity t
apply (Event.note now agent activity tool detail) t = Tracking.note now agent activity tool detail t
apply (Event.update_context now agent tokens window) t =
    Tracking.update_context now agent tokens window t
apply (Event.set_context_warned now agent warned) t = Tracking.set_context_warned now agent warned t
apply (Event.set_human_attached now agent attached) t =
    Tracking.set_human_attached now agent attached t
apply (Event.note_error now agent text) t = Tracking.note_error now agent text t

unfoldable pub run : List Event → Tracker → Tracker
unfolding apply
run [] t = t
run (e ∷ events) t = run events (apply e t)

put_same :
    (agent who : AgentId) (x : Option AgentRuntime) (t : Tracker)
    → agent_eq who agent ≡ true
    → put t agent x who ≡ x
put_same agent who x t h = ground arith

put_other :
    (agent who : AgentId) (x : Option AgentRuntime) (t : Tracker)
    → agent_eq who agent ≡ false
    → put t agent x who ≡ t who
put_other agent who x t h = ground arith

-- Every runtime that a tracker holds.
abbrev AllSound : Tracker → Type 0
AllSound t = (agent : AgentId) (rt : AgentRuntime) → t agent ≡ some rt → IsSound rt

ensure-IsSound :
    (now : Time) (agent : AgentId) (t : Tracker) → AllSound t → IsSound (ensure now agent t)
unfolding ensure
ensure-IsSound now agent t h = elim (Option-cases (t agent)) [
  | inl e ↦ rw (ensure, e) (new_runtime-IsSound now)
  | inr (rt, e) ↦ rw (ensure, e) (h agent rt e)
]

some_eq : (rt rt' : AgentRuntime) → some rt ≡ some rt' → rt ≡ rt'
some_eq rt rt' e = cc

put-AllSound :
    (agent : AgentId) (rt : AgentRuntime) (t : Tracker)
    → AllSound t
    → IsSound rt
    → AllSound (put t agent (some rt))
put-AllSound agent rt t h s who rt' e = elim (Bool-cases (agent_eq who agent)) [
  | inl same ↦ subst IsSound (some_eq rt rt' (sym (put_same agent who (some rt) t same) ∙ e)) s
  | inr different ↦ h who rt' (sym (put_other agent who (some rt) t different) ∙ e)
]

update-AllSound :
    (now : Time) (agent : AgentId) (f : AgentRuntime → AgentRuntime) (t : Tracker)
    → ((rt : AgentRuntime) → IsSound rt → IsSound (f rt))
    → AllSound t
    → AllSound (update now agent f t)
update-AllSound now agent f t g h =
    put-AllSound agent (f (ensure now agent t)) t h
      (g (ensure now agent t) (ensure-IsSound now agent t h))

-- What a runtime says about tools and calls.
abbrev signs : AgentRuntime → Bool × (Bool × (ℕ × List ToolNote))
signs rt = (rt.busy, (rt.provider_active, (rt.tool_depth, rt.recent)))

signs-IsSound : (rt rt' : AgentRuntime) → signs rt' ≡ signs rt → IsSound rt → IsSound rt'
signs-IsSound rt rt' e h = ground (arith, IsSound_lem rt rt')

-- A change of other fields.
set-AllSound :
    (now : Time) (agent : AgentId) (f : AgentRuntime → AgentRuntime) (t : Tracker)
    → AllSound t
    → ((rt : AgentRuntime) → signs (f rt) ≡ signs rt)
    → AllSound (update now agent f t)
set-AllSound now agent f t h same =
    update-AllSound now agent f t (λ rt. signs-IsSound rt (f rt) (same rt)) h

if-AllSound : (b : Bool) (t u : Tracker) → AllSound t → AllSound u → AllSound (if b then t else u)
if-AllSound true t u h k = h
if-AllSound false t u h k = k

apply-AllSound : (e : Event) (t : Tracker) → AllSound t → AllSound (apply e t)
unfolding apply
apply-AllSound (Event.touch now agent) t h =
    set-AllSound now agent (λ rt. record rt { last_activity = now }) t h (λ rt. refl)
apply-AllSound (Event.reset now agent) t h =
    put-AllSound agent (new_runtime now) t h (new_runtime-IsSound now)
apply-AllSound (Event.record_failure now agent) t h =
    set-AllSound now agent (λ rt. record rt { failures = rt.failures + 1 }) t h (λ rt. refl)
apply-AllSound (Event.handle now agent activity) t h =
    update-AllSound now agent (handle_runtime now activity) t (handle-IsSound now activity) h
apply-AllSound (Event.note now agent activity tool detail) t h =
    update-AllSound now agent (note_runtime now activity tool detail) t
      (note-IsSound now activity tool detail) h
apply-AllSound (Event.update_context now agent tokens window) t h =
    if-AllSound (is_unmeasured tokens window) t _ h (
      set-AllSound now agent (λ rt. record rt { context_tokens = tokens; context_window = window })
        t h (λ rt. refl))
apply-AllSound (Event.set_context_warned now agent warned) t h =
    set-AllSound now agent (λ rt. record rt { context_warned = warned }) t h (λ rt. refl)
apply-AllSound (Event.set_human_attached now agent attached) t h =
    set-AllSound now agent (λ rt. record rt { human_attached = attached; last_activity = now }) t h
      (λ rt. refl)
apply-AllSound (Event.note_error now agent text) t h =
    if-AllSound (is_empty (trim_space text)) t _ h
      (set-AllSound now agent (λ rt. record rt { last_error = trim_space text }) t h (λ rt. refl))

new_tracker-AllSound : (now : Time) → AllSound (new_tracker now)
unfolding new_tracker
new_tracker-AllSound now =
    put-AllSound AgentId.tony (new_runtime now) _
      (put-AllSound AgentId.austin (new_runtime now) (λ a. none) (λ a rt e. cc)
        (new_runtime-IsSound now))
      (new_runtime-IsSound now)

run-AllSound : (events : List Event) (t : Tracker) → AllSound t → AllSound (run events t)
unfolding run
run-AllSound [] t h = h
run-AllSound (e ∷ events) t h = run-AllSound events (apply e t) (apply-AllSound e t h)

snapshot-IsSound : (agent : AgentId) (t : Tracker) → AllSound t → IsSound (snapshot agent t)
unfolding snapshot
snapshot-IsSound agent t h = elim (Option-cases (t agent)) [
  | inl e ↦ rw (snapshot, e) (new_runtime-IsSound 0)
  | inr (rt, e) ↦ rw (snapshot, e) (h agent rt e)
]

-- After every history of a new tracker, an agent with a provider call or a tool under way counts as
-- busy, so the two say no more than its busy flag, and at most three finished tools are remembered.
pub run-IsSound :
    (now : Time) (events : List Event) (agent : AgentId)
    → IsSound (snapshot agent (run events (new_tracker now)))
run-IsSound now events agent =
    snapshot-IsSound agent (run events (new_tracker now))
      (run-AllSound events (new_tracker now) (new_tracker-AllSound now))
