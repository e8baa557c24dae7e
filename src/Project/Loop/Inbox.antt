-- ===== src/Project/Loop/Inbox.antt =====
-- internal/project/loop.go: events, their acknowledgement, and the messages that make them.
use duo.Prelude.{
  ℕ, suc, ◌+◌, ◌%◌, Bool, false, ◌&&◌, ◌||◌, not, Option, none, some, List, [], ◌∷◌, ◌++◌,
  if◌then◌else◌, is_empty, take, drop,
}
use duo.Text.{Text, codes, text_eq}
use duo.Text.Decimal.{format_uint}
use duo.Project.Agent.{AgentId, agent_eq, put, is_peer, peer_of}
use duo.Project.Mode.{Mode, mode_eq, Phase, phase_eq}
use duo.Project.Verification.{Time}
use duo.Project.LoopState.{LoopState, LoopEvent, LoopConsultation, EventKind}
use duo.Project.State.{State, Error}
use duo.Project.Snapshot.{Reply, notify, commit, refuse, silent}

-- A uint64 counter wraps.
abbrev pub uint64_mod : ℕ
uint64_mod = 18446744073709551616

-- `loopCheck`; `none` is no error.
unfoldable pub loop_check : State → AgentId → Option Error
loop_check s id =
    if not (mode_eq s.mode Mode.loop)
    then some Error.mode_mismatch
    else if phase_eq s.phase Phase.done
    then some Error.project_done
    else if not (is_peer id)
    then some Error.unknown_agent
    else none

-- `loopEventLocked`: the new state, and the id that the event got.
unfoldable pub loop_event : Time → LoopState → AgentId → AgentId → Text → LoopState × Text
unfolding format_uint
loop_event now l to sender text =
    let n = (l.next_id + 1) % uint64_mod in
    let event : LoopEvent = record {
      id = format_uint n;
      sender = sender;
      text = text;
      kind = EventKind.no_kind;
      question_id = codes "";
      at = now;
    } in
    (record l { next_id = n; events = put l.events to (l.events to ++ event ∷ []) }, format_uint n)

unfoldable pub modify_last : (LoopEvent → LoopEvent) → List LoopEvent → List LoopEvent
modify_last f [] = []
modify_last f (e ∷ []) = f e ∷ []
modify_last f (e ∷ e' ∷ es) = e ∷ modify_last f (e' ∷ es)

-- The writes to `inbox[len(inbox)-1]` that follow a call of `loopEventLocked`.
unfoldable pub tag_last : LoopState → AgentId → EventKind → Text → LoopState
unfolding modify_last
tag_last l to kind question_id = record l {
  events =
      put l.events to
        (modify_last (λ e. record e { kind = kind; question_id = question_id }) (l.events to));
}

unfoldable pub loop_send : Time → AgentId → Text → State → Reply (Unit {0})
unfolding loop_check loop_event peer_of notify
loop_send now from text s = elim (loop_check s from) [
  | some e ↦ refuse s tt e
  | none ↦ commit (record s { loop = (loop_event now s.loop (peer_of from) from text).0 }) tt
]

-- The index of the first event with an id.
unfoldable pub find_event : Text → List LoopEvent → Option ℕ
unfolding text_eq
find_event ack [] = none
find_event ack (e ∷ es) =
    let later = find_event ack es in
    if text_eq e.id ack then some 0 else elim later [ none ↦ none | some i ↦ some (suc i) ]

unfoldable pub has_id : Text → List LoopEvent → Bool
unfolding text_eq
has_id id [] = false
has_id id (e ∷ es) = text_eq e.id id || has_id id es

-- `q.Waiting = false` under a test of the consultation, when there is one and Austin asks.
unfoldable pub settle_consultation : AgentId → (LoopConsultation → Bool) → LoopState → LoopState
settle_consultation id test l = elim l.consultation [
  | none ↦ l
  | some q ↦
      if agent_eq id AgentId.austin && test q
      then record l { consultation = some (record q { waiting = false }) }
      else l
]

-- The acknowledgement of the event at index `found`, and of all before it if `through`.
unfoldable pub acknowledge : AgentId → Text → Bool → ℕ → LoopState → LoopState
unfolding settle_consultation has_id text_eq
acknowledge id ack through found l =
    let inbox = l.events id in
    let answered =
      if through
      then settle_consultation id (λ q. has_id q.reply_id (take (suc found) inbox)) l
      else l in
    let rest =
      if through then drop (suc found) inbox else take found inbox ++ drop (suc found) inbox in
    settle_consultation id (λ q. text_eq q.reply_id ack)
      (record answered { events = put l.events id rest; acknowledged = put l.acknowledged id ack })

-- `LoopEvents`; `through` is the optional argument, false when it is absent.
unfoldable pub loop_events : AgentId → Text → Bool → State → Reply (List LoopEvent)
unfolding loop_check notify
loop_events id ack through s = elim (loop_check s id) [
  | some e ↦ refuse s [] e
  | none ↦
      if is_empty ack || text_eq (s.loop.acknowledged id) ack
      then commit s (s.loop.events id)
      else elim (find_event ack (s.loop.events id)) [
        | none ↦ refuse s [] Error.unknown_event
        | some found ↦
            let s' = record s { loop = acknowledge id ack through found s.loop } in
            commit s' (s'.loop.events id)
      ]
]

-- `LoopHuman`: one event for each agent.
unfoldable pub loop_human : Time → Text → State → Reply (Unit {0})
unfolding loop_check notify
loop_human now text s =
    let goal = if is_empty s.loop.goal then text else s.loop.goal in
    let cleared = record (s.loop) {
      goal = goal;
      approvals = λ a. codes "";
      proposal = none;
      finishing = false;
      summary = codes "";
    } in
    let told : LoopState → AgentId → LoopState = λ l id.
      tag_last (loop_event now l id AgentId.duo_core text).0 id EventKind.human (codes "") in
    elim (loop_check s AgentId.austin) [
      | some e ↦ refuse s tt e
      | none ↦
          commit
            (record s {
              loop = told (told cleared AgentId.austin) AgentId.tony;
              phase = if phase_eq s.phase Phase.integrate then Phase.running else s.phase;
            })
            tt
    ]

-- `LoopObserve` records an owner's action for the advisor.
unfoldable pub loop_observe : Time → Text → Text → State → Reply (Unit {0})
unfolding loop_event tag_last notify
loop_observe now tool detail s =
    if not (mode_eq s.mode Mode.loop) || (phase_eq s.phase Phase.done || s.loop.finishing)
    then silent s tt
    else let text = tool ++ (codes ": " ++ detail) in
      let l = (loop_event now s.loop AgentId.tony AgentId.austin text).0 in
      commit (record s { loop = tag_last l AgentId.tony EventKind.step (codes "") }) tt
