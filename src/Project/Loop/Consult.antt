-- ===== src/Project/Loop/Consult.antt =====
-- internal/project/loop.go: the correlated consultation, the finish, and the gate before a tool.
use duo.Prelude.{
  Bool, true, false, ◌||◌, not, Option, none, some, List, [], ◌∷◌, if◌then◌else◌, is_empty,
}
use duo.Text.{Text, codes, text_eq, trim_space}
use duo.Project.Agent.{AgentId, agent_eq}
use duo.Project.Mode.{Mode, mode_eq}
use duo.Project.Verification.{Time}
use duo.Project.LoopState.{LoopState, LoopEvent, LoopConsultation, EventKind}
use duo.Project.State.{State, Error}
use duo.Project.Snapshot.{Reply, notify, commit, refuse, silent}
use duo.Project.Loop.Inbox.{loop_check, loop_event, tag_last}

-- `q != nil && q.Waiting`.
abbrev pub is_waiting : Option LoopConsultation → Bool
is_waiting none = false
is_waiting (some q) = q.waiting

-- `LoopCanAct`; `none` is no error.
unfoldable pub loop_can_act : AgentId → State → Option Error
unfolding loop_check
loop_can_act id s = if not (mode_eq s.mode Mode.loop) then none else elim (loop_check s id) [
  | some e ↦ some e
  | none ↦
      if agent_eq id AgentId.austin
      then if is_waiting s.loop.consultation
        then some Error.consultation_pending
        else if s.loop.finishing
        then some Error.completion_registered
        else none
      else none
]

-- A new consultation: the question event for Tony, and its id.
unfoldable pub consult : Time → AgentId → Text → LoopState → LoopState × Text
unfolding loop_event tag_last
consult now id question l =
    let (l', qid) = loop_event now l AgentId.tony id question in
    (
      record (tag_last l' AgentId.tony EventKind.question qid) {
        consultation = some (record {
          id = qid;
          question = question;
          asked_at = now;
          answer = codes "";
          reply_id = codes "";
          waiting = true;
        });
      },
      qid,
    )

-- A question while one is pending: the same one again gives its id.
unfoldable pub ask_again : State → Text → Option LoopConsultation → Reply Text
unfolding text_eq
ask_again s question none = silent s (codes "")
ask_again s question (some q) =
    if text_eq q.question question
    then silent s q.id
    else refuse s (codes "") Error.consultation_pending

unfoldable pub loop_ask : Time → AgentId → Text → State → Reply Text
unfolding loop_check ask_again notify
loop_ask now id text s =
    let question = trim_space text in
    elim (loop_check s id) [
      | some e ↦ refuse s (codes "") e
      | none ↦
          if not (agent_eq id AgentId.austin) || is_empty question
          then refuse s (codes "") Error.not_the_owner
          else if s.loop.finishing
          then refuse s (codes "") Error.completion_registered
          else if is_waiting s.loop.consultation
          then ask_again s question s.loop.consultation
          else let (l, qid) = consult now id question s.loop in commit (record s { loop = l }) qid
    ]

-- The answer to the current consultation: the reply event for Austin.
unfoldable pub answer_with : Time → AgentId → Text → Text → LoopConsultation → LoopState → LoopState
unfolding loop_event tag_last
answer_with now id question_id answer q l =
    let (l', reply_id) = loop_event now l AgentId.austin id answer in
    record (tag_last l' AgentId.austin EventKind.reply question_id) {
      consultation = some (record q { answer = answer; reply_id = reply_id });
    }

unfoldable pub loop_reply : Time → AgentId → Text → Text → State → Reply (Unit {0})
unfolding loop_check text_eq notify
loop_reply now id question_id text s =
    let answer = trim_space text in
    elim (loop_check s id) [
      | some e ↦ refuse s tt e
      | none ↦ elim s.loop.consultation [
        | none ↦ refuse s tt Error.not_an_answer
        | some q ↦
            if not (agent_eq id AgentId.tony) || (is_empty answer || not (text_eq q.id question_id))
            then refuse s tt Error.not_an_answer
            else if not (is_empty q.answer)
            then if text_eq q.answer answer then silent s tt else refuse s tt Error.already_answered
            else commit (record s { loop = answer_with now id question_id answer q s.loop }) tt
      ]
    ]

-- Whether an inbox holds an operator's event: the loop of `LoopFinish`.
unfoldable pub has_human : List LoopEvent → Bool
has_human [] = false
has_human (e ∷ es) = elim e.kind [ EventKind.human ↦ true | _ ↦ has_human es ]

-- `LoopFinish`, whose Boolean result is always false.
unfoldable pub loop_finish : AgentId → Text → Text → Text → State → Reply Bool
unfolding loop_check notify
loop_finish id text approve reject s =
    let summary = trim_space text in
    elim (loop_check s id) [
      | some e ↦ refuse s false e
      | none ↦
          if not (agent_eq id AgentId.austin)
            || (is_empty summary || (not (is_empty approve) || not (is_empty reject)))
          then refuse s false Error.not_the_owner
          else if is_waiting s.loop.consultation
          then refuse s false Error.consultation_pending
          else if has_human (s.loop.events AgentId.austin)
          then refuse s false Error.human_pending
          else commit (record s { loop = record (s.loop) { summary = summary; finishing = true } })
              false
    ]
