-- ===== src/Coordinator/Wake.antt =====
-- internal/coordinator/coordinator.go: ContinuePause, RequestResumeWork and deliverResumeWork, which
-- send the prompts after which the agents work again.
use duo.Prelude.{
  Bool, true, false, ◌&&◌, ◌||◌, not, Option, none, some, List, [], ◌∷◌, ◌++◌, if◌then◌else◌,
  is_empty,
}
use duo.Text.{Text, codes, trim_space}
use duo.Project.Agent.{AgentId, agent_eq, put}
use duo.Project.Mode.{Mode, mode_eq, Phase, phase_eq, mode_string}
use duo.Project.Verification.{Time}
use duo.Project.LoopState.{LoopConsultation, LoopWait}
use duo.Project.Snapshot.{Snapshot, snapshot, effective_mode}
use duo.Project.Loop.Turn
use duo.Harness.Tracker
use duo.Coordinator.Message.{MessageType, Message, type_text}
use duo.Coordinator.State.{
  Coordinator, Link, is_running, is_paused, HeldMessage, is_agent_connected, emit_pause,
}
use duo.Coordinator.Send.{Done, done, send_to_agent, send_mode_change}
use duo.Coordinator.Pause.{released, clear_resume_pending}

-- A consultation that waits for its answer.
abbrev pub is_open : Option LoopConsultation → Bool
is_open none = false
is_open (some q) = q.waiting && is_empty q.answer

-- A wait whose turn has ended.
abbrev pub is_parked : Option LoopWait → Bool
is_parked none = false
is_parked (some w) = not w.pending

-- In LOOP, an agent that waits for an answer or an event is not woken.
unfoldable pub is_waiting : Snapshot → AgentId → Bool
unfolding effective_mode
is_waiting snap agent =
    mode_eq (effective_mode snap) Mode.loop
    && ((agent_eq agent AgentId.austin && is_open snap.loop.consultation)
        || is_parked (snap.loop.waiting agent))

-- The lines on the messages that were held for an agent; all that are not for Tony are Austin's.
unfoldable pub summaries : Bool → List HeldMessage → List Text
unfolding type_text trim_space
summaries tony [] = []
summaries tony (item ∷ rest) =
    let lines = summaries tony rest in
    let mine = if agent_eq item.agent AgentId.tony then tony else not tony in
    if mine && not (is_empty item.message.text)
    then (type_text item.message.kind ++ (codes ": " ++ trim_space item.message.text)) ∷ lines
    else lines

abbrev newline : Text
newline = 10 ∷ []

-- `strings.Join(lines, "\n- ")`.
unfoldable pub join_lines : List Text → Text
join_lines [] = []
join_lines (line ∷ rest) =
    let tail = join_lines rest in
    if is_empty rest then line else line ++ (newline ++ (codes "- " ++ tail))

-- The paragraph on what was held.
unfoldable pub held_paragraph : List Text → Text
unfolding join_lines
held_paragraph lines =
    if is_empty lines
    then []
    else newline
      ++ (newline
          ++ (codes "Duo held these while paused:"
              ++ (newline ++ (codes "- " ++ join_lines lines))))

abbrev pub resume_message : AgentId → Text → Message
resume_message agent text = record {
  kind = MessageType.resume_prompt;
  sender = AgentId.duo_core;
  recipient = agent;
  mode = codes "";
  text = text;
}

-- The prompt that wakes one agent.
unfoldable pub wake_text : Link → List HeldMessage → AgentId → Coordinator → Text
unfolding summaries held_paragraph snapshot
wake_text l held agent c =
    l.resume_prompt agent (snapshot c.project)
    ++ (l.transcripts agent ++ held_paragraph (summaries (agent_eq agent AgentId.tony) held))

-- One turn of the loop of `ContinuePause`.
unfoldable pub wake_agent : Link → List HeldMessage → AgentId → Coordinator → Done
unfolding is_waiting snapshot send_mode_change mode_string send_to_agent wake_text
wake_agent l held agent c =
    if is_waiting (snapshot c.project) agent
    then done c true
    else (let c' = send_mode_change l (mode_string c.project.mode) (codes "") agent c in
        send_to_agent l agent (resume_message agent (wake_text l held agent c')) c')

-- What `ContinuePause` does before the first prompt.
unfoldable pub continued : Coordinator → Coordinator
unfolding clear_resume_pending Turn.reset_loop_wakes emit_pause
continued c =
    let c' = clear_resume_pending (released c) in
    emit_pause (
      if mode_eq c.project.mode Mode.loop
      then record c' { project = (Turn.reset_loop_wakes c'.project).state }
      else c')

-- `ContinuePause`.
unfoldable pub continue_pause : Link → Coordinator → Done
unfolding continued wake_agent
continue_pause l c =
    if not (is_paused c.pause_state)
    then done c false
    else (let austin = wake_agent l c.held AgentId.austin (continued c) in
        if not austin.ok then austin else wake_agent l c.held AgentId.tony austin.state)

-- An agent whose prompt could not be sent may be tried again.
abbrev pub attempted : AgentId → Bool → Coordinator → Coordinator
attempted agent b c = record c { resume_work_attempted = put c.resume_work_attempted agent b }

-- What follows the prompt of a resume.
unfoldable pub after_prompt : Time → AgentId → Done → Done
unfolding Tracker.touch
after_prompt now agent r =
    if not r.ok
    then done (attempted agent false r.state) false
    else done
        (record (r.state) {
          tracker = elim r.state.tracker [
            | none ↦ none
            | some t ↦ some (Tracker.touch now agent t)
          ];
        })
        true

-- `deliverResumeWork`, less the journal.
unfoldable pub deliver_resume_work : Link → Time → AgentId → Coordinator → Done
unfolding is_waiting snapshot send_to_agent after_prompt
deliver_resume_work l now agent c =
    if not c.resume_work_enabled || c.resume_work_attempted agent
    then done c true
    else if is_waiting (snapshot c.project) agent
    then done (attempted agent true c) true
    else after_prompt now agent (
        send_to_agent l agent (resume_message agent (l.resume_prompt agent (snapshot c.project)))
          (attempted agent true c))

-- Whether `RequestResumeWork` goes on.
unfoldable pub may_resume : Coordinator → Bool
may_resume c =
    not (phase_eq c.project.phase Phase.done)
    && (c.project.started
        && (is_running c.pause_state && (c.resume_pending && not c.resume_work_in_flight)))

-- The first request makes the map of attempted agents.
unfoldable pub enabled : Coordinator → Coordinator
enabled c = if c.resume_work_enabled then record c { resume_work_in_flight = true } else record c {
  resume_work_in_flight = true;
  resume_work_enabled = true;
  resume_work_attempted = λ a. false;
}

-- An agent that is not connected gets its prompt when it connects.
unfoldable pub prompt_connected : Link → Time → AgentId → Coordinator → Done
unfolding deliver_resume_work
prompt_connected l now agent c =
    if is_agent_connected l agent then deliver_resume_work l now agent c else done c true

-- The end of `RequestResumeWork`.
unfoldable pub end_request : Bool → Coordinator → Done
end_request ok c =
    if ok
    then done
        (record c { resume_work_in_flight = false; resume_pending = false; harness_off = false })
        true
    else done (record c { resume_work_in_flight = false }) false

-- `RequestResumeWork`.
unfoldable pub request_resume_work : Link → Time → Coordinator → Done
unfolding may_resume enabled prompt_connected end_request
request_resume_work l now c =
    if not (may_resume c)
    then done c false
    else (let austin = prompt_connected l now AgentId.austin (enabled c) in
        let tony = prompt_connected l now AgentId.tony austin.state in
        end_request (austin.ok && tony.ok) tony.state)
