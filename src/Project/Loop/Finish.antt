-- ===== src/Project/Loop/Finish.antt =====
-- internal/project/loop.go and state.go: from the owner's finish to DONE, and the inbox's laws.
use duo.Prelude.{
  ℕ, suc, ◌+◌, ◌%◌, ◌≡◌, ◌≢◌, refl, sym, ◌∙◌, inl, inr, Bool, true, false, none, [], ◌∷◌, ◌++◌,
  arith, is_empty, if◌then◌else◌, take, drop, Option-cases,
}
use duo.Text.{Text, trim_space, is_blank}
use duo.Text.Laws.{text_eq_refl, text_eq→eq}
use duo.Text.Decimal.{format_uint}
use duo.Project.Agent.{AgentId, Activity, is_peer, peer_of}
use duo.Project.Mode.{Mode, Phase}
use duo.Project.Verification.{Time}
use duo.Project.LoopState.{LoopState, EventKind}
use duo.Project.State.{State}
use duo.Project.Session
use duo.Project.Workflow.Dispatch.{run_complete}
use duo.Project.Loop.Inbox
use duo.Project.Loop.Inbox.{uint64_mod}
use duo.Project.Loop.Consult.{is_waiting, has_human, loop_finish}
use duo.Project.Loop.Turn.{loop_activity, react, end_turn}

finish_lem :
    (text : Text) (s : State)
    → s.mode ≡ Mode.loop
    → s.phase ≡ Phase.running
    → is_blank text ≡ false
    → is_waiting s.loop.consultation ≡ false
    → has_human (s.loop.events AgentId.austin) ≡ false
    → let r = loop_finish AgentId.austin text [] [] s in
      (r.error ≡ none)
      × (r.state
          ≡ record s { loop = record (s.loop) { summary = trim_space text; finishing = true } })
unfolding loop_finish is_blank
finish_lem text s m p b w h = ground arith

settle_lem :
    (tool : Text) (s : State)
    → s.mode ≡ Mode.loop
    → s.phase ≡ Phase.running
    → s.loop.finishing ≡ true
    → let t = (loop_activity AgentId.austin Activity.agent_settled tool s).state in
      (t.mode ≡ Mode.loop)
      × (t.phase ≡ Phase.integrate)
      × (t.loop.finishing ≡ true)
      × (t.loop.summary ≡ s.loop.summary)
unfolding loop_activity react end_turn
settle_lem tool s m p f = ground arith

complete_lem :
    (now : Time) (s : State)
    → s.mode ≡ Mode.loop
    → let r = Session.complete now s in
      ((s.phase ≡ Phase.running) → (r.error ≢ none))
      × ((s.phase ≡ Phase.integrate)
          → (s.loop.finishing ≡ true)
          → (r.error ≡ none)
            × (r.state.phase ≡ Phase.done)
            × (r.state.loop.summary ≡ s.loop.summary))
unfolding Session.complete run_complete
complete_lem now s m = (λ p e. ground arith, λ p f. ground arith)

-- In LOOP, with no question and no human message pending, the owner's finish is accepted; `Complete` is
-- refused until Austin's turn has settled, then it succeeds, and DONE keeps the trimmed summary.
pub finish_waits_for_the_turn :
    (now later : Time) (text tool : Text) (s : State)
    → s.mode ≡ Mode.loop
    → s.phase ≡ Phase.running
    → is_blank text ≡ false
    → is_waiting s.loop.consultation ≡ false
    → has_human (s.loop.events AgentId.austin) ≡ false
    → let r = loop_finish AgentId.austin text [] [] s in
      let settled = (loop_activity AgentId.austin Activity.agent_settled tool r.state).state in
      let done = Session.complete later settled in
      (r.error ≡ none)
      × ((Session.complete now r.state).error ≢ none)
      × (done.error ≡ none)
      × (done.state.phase ≡ Phase.done)
      × (done.state.loop.summary ≡ trim_space text)
finish_waits_for_the_turn now later text tool s m p b w h =
    let (accepted, state) = finish_lem text s m p b w h in
    let t = record s { loop = record (s.loop) { summary = trim_space text; finishing = true } } in
    let (m', p', f', sum) = settle_lem tool t m p refl in
    let settled = (loop_activity AgentId.austin Activity.agent_settled tool t).state in
    let finished = (complete_lem later settled m').1 p' f' in
    (
      accepted,
      rw state ((complete_lem now t m).0 p),
      rw state finished.0,
      rw state finished.1,
      rw state (finished.2 ∙ sum),
    )

-- A message of one agent in a live LOOP session becomes the last event of the peer's inbox, under the
-- next id, and leaves the sender's inbox as it was.
pub send_appends :
    (now : Time) (sender : AgentId) (text : Text) (s : State)
    → s.mode ≡ Mode.loop
    → s.phase ≢ Phase.done
    → is_peer sender ≡ true
    → let r = Inbox.loop_send now sender text s in
      let n = (s.loop.next_id + 1) % uint64_mod in
      (r.error ≡ none)
      × (r.state.loop.next_id ≡ n)
      × (r.state.loop.events (peer_of sender)
          ≡ s.loop.events (peer_of sender)
            ++ record {
              id = format_uint n;
              sender = sender;
              text = text;
              kind = EventKind.no_kind;
              question_id = [];
              at = now;
            }
              ∷ [])
      × (r.state.loop.events sender ≡ s.loop.events sender)
unfolding Inbox.loop_send Inbox.loop_event peer_of
send_appends now sender text s m p a = ground arith

acknowledge_lem :
    (id : AgentId) (ack : Text) (through : Bool) (i : ℕ) (l : LoopState)
    → is_peer id ≡ true
    → let l' = Inbox.acknowledge id ack through i l in
      (l'.acknowledged id ≡ ack)
      × (l'.events id ≡ (
          if through
          then drop (suc i) (l.events id)
          else take i (l.events id) ++ drop (suc i) (l.events id)))
unfolding Inbox.acknowledge
acknowledge_lem id ack through i l a = ground arith

retry_lem :
    (id : AgentId) (ack : Text) (through : Bool) (s : State)
    → Inbox.loop_check s id ≡ none
    → s.loop.acknowledged id ≡ ack
    → let r = Inbox.loop_events id ack through s in
      (r.error ≡ none) × (r.state ≡ s) × (r.value ≡ s.loop.events id)
unfolding Inbox.loop_events
retry_lem id ack through s c e = ground (arith, text_eq_refl ack)

-- An acknowledgement that was accepted: either it was on record already, or it is now.
accepted_lem :
    (id : AgentId) (ack : Text) (through : Bool) (s : State)
    → is_peer id ≡ true
    → is_empty ack ≡ false
    → (Inbox.loop_events id ack through s).error ≡ none
    → let r = Inbox.loop_events id ack through s in
      (Inbox.loop_check r.state id ≡ none)
      × (r.state.loop.acknowledged id ≡ ack)
      × (r.value ≡ r.state.loop.events id)
unfolding Inbox.loop_events Inbox.loop_check
accepted_lem id ack through s a n e =
    elim (Option-cases (Inbox.find_event ack (s.loop.events id))) [
      | inl m ↦ ground (arith, text_eq→eq (s.loop.acknowledged id) ack)
      | inr (i, m) ↦ ground (
        arith,
        text_eq→eq (s.loop.acknowledged id) ack,
        acknowledge_lem id ack through i s.loop a,
      )
    ]

-- Retrying an acknowledgement whose response was lost changes neither the inbox nor the state, and
-- returns the same events.
pub acknowledgement_retries :
    (id : AgentId) (ack : Text) (through through' : Bool) (s : State)
    → is_peer id ≡ true
    → is_empty ack ≡ false
    → (Inbox.loop_events id ack through s).error ≡ none
    → let r = Inbox.loop_events id ack through s in
      let r' = Inbox.loop_events id ack through' r.state in
      (r'.error ≡ none) × (r'.state ≡ r.state) × (r'.value ≡ r.value)
acknowledgement_retries id ack through through' s a n e =
    let (live, kept, value) = accepted_lem id ack through s a n e in
    let (again, state, value') =
      retry_lem id ack through' (Inbox.loop_events id ack through s).state live kept in
    (again, state, value' ∙ sym value)
