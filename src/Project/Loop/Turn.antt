-- ===== src/Project/Loop/Turn.antt =====
-- internal/project/loop.go: waits, turn boundaries, wakes and timers.
use duo.Prelude.{
  ℕ, ◌+◌, Bool, true, false, ◌&&◌, ◌||◌, not, Option, none, some, List, [], ◌∷◌, ◌++◌, leb, ◌==◌,
  if◌then◌else◌, is_empty,
}
use duo.Text.{Text, codes, text_eq, trim_space}
use duo.Project.Agent.{AgentId, agent_eq, put, Activity}
use duo.Project.Mode.{Mode, mode_eq, Phase, phase_eq}
use duo.Project.Verification.{Time}
use duo.Project.LoopState.{LoopState, LoopWait}
use duo.Project.State.{State, Error}
use duo.Project.Snapshot.{Reply, notify, commit, refuse, silent}
use duo.Project.Loop.Inbox.{loop_check, loop_event}
use duo.Project.Loop.Consult.{is_waiting}

-- `LoopWait`; `until` 0 is no deadline.
unfoldable pub loop_wait : Time → AgentId → Time → Text → State → Reply Bool
unfolding loop_check trim_space notify
loop_wait now id until reason s = elim (loop_check s id) [
  | some e ↦ refuse s false e
  | none ↦
      if not (is_empty (s.loop.events id))
      then silent s false
      else if not (until == 0) && leb until now
      then refuse s false Error.past_deadline
      else commit
          (record s {
            loop = record (s.loop) {
              waiting =
                  put s.loop.waiting id
                    (some (record { pending = true; until = until; reason = trim_space reason }));
            };
          })
          true
]

-- What an activity does to the agent's wait: `none` is no change, `some w` the new map entry.
unfoldable pub observe_wait : Activity → Text → LoopWait → Option (Option LoopWait)
unfolding text_eq
observe_wait Activity.agent_settled tool w =
    if w.pending then some (some (record w { pending = false })) else none
observe_wait Activity.agent_start tool w = some none
observe_wait Activity.tool_start tool w =
    if text_eq tool (codes "duo_wait") then none else some none
observe_wait _ tool w = none

abbrev pub is_settled : Activity → Bool
is_settled Activity.agent_settled = true
is_settled _ = false

-- The phase after the owner's turn has ended on his finish.
unfoldable pub end_turn : Bool → State → State
end_turn ends s = if ends then record s { phase = Phase.integrate } else s

-- The end of `LoopActivity`: `ended` is the state with the phase written, `change` the map write.
unfoldable pub react : AgentId → Bool → Option (Option LoopWait) → State → State → Reply (Unit {0})
unfolding notify
react id ends none s ended = if ends then commit ended tt else silent s tt
react id ends (some w) s ended =
    commit (record ended { loop = record (ended.loop) { waiting = put ended.loop.waiting id w } })
      tt

-- `if w, ok := s.loop.Waiting[id]; ok`.
unfoldable pub wait_change : AgentId → Activity → Text → State → Option (Option LoopWait)
wait_change id activity tool s = elim (s.loop.waiting id) [
  | none ↦ none
  | some w ↦ observe_wait activity tool w
]

-- `LoopActivity`.
unfoldable pub loop_activity : AgentId → Activity → Text → State → Reply (Unit {0})
loop_activity id activity tool s =
    let ends = s.loop.finishing && (agent_eq id AgentId.austin && is_settled activity) in
    if not (mode_eq s.mode Mode.loop) || phase_eq s.phase Phase.done
    then silent s tt
    else react id ends (wait_change id activity tool s) s (end_turn ends s)

-- `LoopWake`.
unfoldable pub loop_wake : ℕ → State → Reply Bool
unfolding notify
loop_wake limit s =
    if leb limit s.loop.wakes
    then silent s false
    else commit (record s { loop = record (s.loop) { wakes = s.loop.wakes + 1 } }) true

unfoldable pub reset_loop_wakes : State → Reply (Unit {0})
unfolding notify
reset_loop_wakes s = commit (record s { loop = record (s.loop) { wakes = 0 } }) tt

-- One round of the loop of `LoopTimers`: the state, and whether the timer had elapsed.
unfoldable pub fire : Time → LoopState → AgentId → LoopState × Bool
unfolding loop_event
fire now l id = elim (l.waiting id) [
  | none ↦ (l, false)
  | some w ↦
      if not (w.until == 0) && leb w.until now
      then (
        record (loop_event now l id AgentId.duo_core (codes "Timer elapsed: " ++ w.reason)).0 {
          waiting = put l.waiting id (some (record w { until = 0 }));
        },
        true,
      )
      else (l, false)
]

unfoldable pub fire_all : Time → List AgentId → LoopState → LoopState × Bool
unfolding fire
fire_all now [] l = (l, false)
fire_all now (id ∷ ids) l =
    let (l', fired) = fire now l id in
    let (l'', later) = fire_all now ids l' in (l'', fired || later)

unfoldable pub keep_timers : State → LoopState × Bool → Reply (Unit {0})
unfolding notify
keep_timers s (l, changed) = if changed then commit (record s { loop = l }) tt else silent s tt

-- `LoopTimers`; `order` lists the keys of the map, in the order of Go's iteration.
unfoldable pub loop_timers : Time → List AgentId → State → Reply (Unit {0})
unfolding keep_timers notify
loop_timers now order s =
    if mode_eq s.mode Mode.loop && not (phase_eq s.phase Phase.done)
    then keep_timers s (fire_all now order s.loop)
    else silent s tt

-- `hasLoopWait`.
unfoldable pub has_loop_wait : LoopState → AgentId → Bool
has_loop_wait l id =
    if agent_eq id AgentId.austin && is_waiting l.consultation
    then true
    else elim (l.waiting id) [ none ↦ false | some w ↦ not w.pending && is_empty (l.events id) ]
