-- ===== src/Project/Loop/Round.antt =====
-- internal/project/loop.go: a consultation from its question to the acknowledged reply.
use duo.Prelude.{
  ℕ, ◌+◌, ◌%◌, ◌≡◌, ◌≢◌, refl, ap, ◌∙◌, inl, inr, Bool, true, false, none, some, List, [], ◌∷◌,
  ◌++◌, arith, Option-cases,
}
use duo.Text.{Text, codes, text_eq, trim_space, is_blank}
use duo.Text.Laws.{text_eq_refl}
use duo.Text.Decimal.{format_uint, format_uint_nonempty}
use duo.Project.Agent.{AgentId}
use duo.Project.Mode.{Mode, Phase}
use duo.Project.Verification.{Time}
use duo.Project.LoopState.{LoopState, LoopEvent, LoopConsultation, EventKind}
use duo.Project.State.{State, Error}
use duo.Project.Loop.Inbox.{uint64_mod, modify_last, find_event, acknowledge, loop_events}
use duo.Project.Loop.Consult.{is_waiting, loop_can_act, consult, loop_ask, answer_with, loop_reply}

-- A live LOOP session.
abbrev pub IsLive : State → Type 0
IsLive s = (s.mode ≡ Mode.loop) × (s.phase ≢ Phase.done)

modify_last-end :
    (f : LoopEvent → LoopEvent) (es : List LoopEvent) (e : LoopEvent)
    → modify_last f (es ++ e ∷ []) ≡ es ++ f e ∷ []
unfolding modify_last
modify_last-end f [] e = refl
modify_last-end f (x ∷ []) e = refl
modify_last-end f (x ∷ y ∷ es) e = ap (◌∷◌ x) (modify_last-end f (y ∷ es) e)

-- The event that a question puts into Tony's inbox.
abbrev pub question_event : Time → Text → Text → LoopEvent
question_event now id text = record {
  id = id;
  sender = AgentId.austin;
  text = text;
  kind = EventKind.question;
  question_id = id;
  at = now;
}

consult_lem :
    (now : Time) (text : Text) (l : LoopState)
    → let id = format_uint ((l.next_id + 1) % uint64_mod) in
      let (l', qid) = consult now AgentId.austin text l in
      (qid ≡ id)
      × (is_waiting l'.consultation ≡ true)
      × (l'.events AgentId.tony ≡ l.events AgentId.tony ++ question_event now id text ∷ [])
unfolding consult
consult_lem now text l =
    let id = format_uint ((l.next_id + 1) % uint64_mod) in
    let untagged : LoopEvent = record (question_event now id text) {
      kind = EventKind.no_kind;
      question_id = codes "";
    } in
    (
      refl,
      refl,
      modify_last-end (λ e. record e { kind = EventKind.question; question_id = id })
          (l.events AgentId.tony) untagged,
    )

-- A question that Austin asks in a live LOOP session, with none pending and no finish registered, is
-- the next event of Tony's inbox, under the next id, and bars Austin from acting.
pub question_blocks_owner :
    (now : Time) (text : Text) (s : State)
    → IsLive s
    → is_blank text ≡ false
    → s.loop.finishing ≡ false
    → is_waiting s.loop.consultation ≡ false
    → let r = loop_ask now AgentId.austin text s in
      (r.error ≡ none)
      × (r.value ≡ format_uint ((s.loop.next_id + 1) % uint64_mod))
      × (loop_can_act AgentId.austin r.state ≡ some Error.consultation_pending)
      × (r.state.loop.events AgentId.tony
          ≡ s.loop.events AgentId.tony ++ question_event now r.value (trim_space text) ∷ [])
unfolding loop_ask loop_can_act is_blank
question_blocks_owner now text s l b f w = ground (arith, consult_lem now (trim_space text) s.loop)

-- The event that a reply puts into Austin's inbox.
abbrev pub reply_event : Time → Text → Text → Text → LoopEvent
reply_event now id question_id text = record {
  id = id;
  sender = AgentId.tony;
  text = text;
  kind = EventKind.reply;
  question_id = question_id;
  at = now;
}

answer_lem :
    (now : Time) (question_id text : Text) (q : LoopConsultation) (l : LoopState)
    → let id = format_uint ((l.next_id + 1) % uint64_mod) in
      let l' = answer_with now AgentId.tony question_id text q l in
      (l'.consultation ≡ some (record q { answer = text; reply_id = id }))
      × (l'.events AgentId.austin
          ≡ l.events AgentId.austin ++ reply_event now id question_id text ∷ [])
      × (l'.acknowledged ≡ l.acknowledged)
      × (l'.finishing ≡ l.finishing)
unfolding answer_with
answer_lem now question_id text q l =
    let id = format_uint ((l.next_id + 1) % uint64_mod) in
    let untagged : LoopEvent = record (reply_event now id question_id text) {
      kind = EventKind.no_kind;
      question_id = codes "";
    } in
    (
      refl,
      modify_last-end (λ e. record e { kind = EventKind.reply; question_id = question_id })
          (l.events AgentId.austin) untagged,
      refl,
      refl,
    )

find_event-end : (es : List LoopEvent) (e : LoopEvent) → find_event e.id (es ++ e ∷ []) ≢ none
unfolding find_event
find_event-end [] e h = ground (arith, text_eq_refl e.id)
find_event-end (x ∷ es) e h = ground (arith, find_event-end es e)

acknowledge_releases :
    (ack : Text) (through : Bool) (i : ℕ) (q : LoopConsultation) (l : LoopState)
    → l.consultation ≡ some q
    → q.reply_id ≡ ack
    → let l' = acknowledge AgentId.austin ack through i l in
      (is_waiting l'.consultation ≡ false) × (l'.finishing ≡ l.finishing)
unfolding acknowledge
acknowledge_releases ack through i q l e h = ground (arith, text_eq_refl ack)

loop_events_releases :
    (through : Bool) (q : LoopConsultation) (e : LoopEvent) (es : List LoopEvent) (s : State)
    → IsLive s
    → s.loop.finishing ≡ false
    → s.loop.consultation ≡ some q
    → q.reply_id ≡ e.id
    → e.id ≢ []
    → s.loop.events AgentId.austin ≡ es ++ e ∷ []
    → text_eq (s.loop.acknowledged AgentId.austin) e.id ≡ false
    → let r = loop_events AgentId.austin e.id through s in
      (r.error ≡ none) × (loop_can_act AgentId.austin r.state ≡ none)
unfolding loop_events loop_can_act
loop_events_releases through q e es s l f c h n ev a =
    elim (Option-cases (find_event e.id (s.loop.events AgentId.austin))) [
      | inl m ↦ absurd (find_event-end es e (rw (← ev) m))
      | inr (i, m) ↦ ground (arith, acknowledge_releases e.id through i q s.loop c h)
    ]

loop_reply_lem :
    (now : Time) (text : Text) (q : LoopConsultation) (s : State)
    → IsLive s
    → s.loop.consultation ≡ some q
    → q.answer ≡ []
    → is_blank text ≡ false
    → let r = loop_reply now AgentId.tony q.id text s in
      (r.error ≡ none)
      × (r.state ≡ record s { loop = answer_with now AgentId.tony q.id (trim_space text) q s.loop })
unfolding loop_reply is_blank
loop_reply_lem now text q s l c a b = ground (arith, text_eq_refl q.id)

bars_owner :
    (q : LoopConsultation) (s : State)
    → IsLive s
    → s.loop.consultation ≡ some q
    → q.waiting ≡ true
    → loop_can_act AgentId.austin s ≡ some Error.consultation_pending
unfolding loop_can_act
bars_owner q s l c w = ground arith

-- While a question of a live session is pending and unanswered, Tony's reply to its id is accepted and
-- still bars Austin; acknowledging the reply, with or without what precedes it, lets Austin act. (The
-- reply's id must not be the one that Austin acknowledged last.)
pub acknowledged_reply_releases :
    (now : Time) (text : Text) (through : Bool) (q : LoopConsultation) (s : State)
    → IsLive s
    → s.loop.finishing ≡ false
    → s.loop.consultation ≡ some q
    → q.waiting ≡ true
    → q.answer ≡ []
    → is_blank text ≡ false
    → text_eq (s.loop.acknowledged AgentId.austin) (format_uint ((s.loop.next_id + 1) % uint64_mod))
      ≡ false
    → let r = loop_reply now AgentId.tony q.id text s in
      let id = format_uint ((s.loop.next_id + 1) % uint64_mod) in
      let r' = loop_events AgentId.austin id through r.state in
      (r.error ≡ none)
      × (loop_can_act AgentId.austin r.state ≡ some Error.consultation_pending)
      × (r'.error ≡ none)
      × (loop_can_act AgentId.austin r'.state ≡ none)
acknowledged_reply_releases now text through q s l f c w a b n =
    let t = record s { loop = answer_with now AgentId.tony q.id (trim_space text) q s.loop } in
    let id = format_uint ((s.loop.next_id + 1) % uint64_mod) in
    let (c', ev, ack, f') = answer_lem now q.id (trim_space text) q s.loop in
    let e = reply_event now id q.id (trim_space text) in
    let released =
      loop_events_releases through (record q { answer = trim_space text; reply_id = id }) e
        (s.loop.events AgentId.austin) t l (f' ∙ f) c' refl (format_uint_nonempty _) ev
        (rw ack n) in
    let (accepted, state) = loop_reply_lem now text q s l c a b in
    let barred = bars_owner (record q { answer = trim_space text; reply_id = id }) t l c' w in
    (accepted, rw state barred, rw state released.0, rw state released.1)
