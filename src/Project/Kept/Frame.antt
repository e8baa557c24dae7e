-- ===== src/Project/Kept/Frame.antt =====
-- What the operations of LOOP leave alone.
use duo.Prelude.{◌≡◌, ◌⊎◌, Bool, ◌&&◌, Option, List, arith}
use duo.Text.{Text}
use duo.Project.Agent.{AgentId, agent_eq, Activity}
use duo.Project.Mode.{Mode, Phase}
use duo.Project.Verification.{Time}
use duo.Project.LoopState.{LoopWait}
use duo.Project.State.{State}
use duo.Project.Loop.Inbox
use duo.Project.Loop.Consult
use duo.Project.Loop.Turn

-- Only `loop`, `started` and `on_change` may differ, and in LOOP the phase, which is not DONE then.
pub record LoopFrame (s t : State) : Type 0 where
  pub mode : t.mode ≡ s.mode
  pub phase :
      (t.phase ≡ s.phase)
      ⊎ ((s.mode ≡ Mode.loop) × ((t.phase ≡ Phase.running) ⊎ (t.phase ≡ Phase.integrate)))
  pub step : t.step ≡ s.step
  pub steps : t.steps ≡ s.steps
  pub ready : t.ready ≡ s.ready
  pub evidence : t.evidence ≡ s.evidence
  pub verification : t.verification ≡ s.verification

module _ (s : State) where
  pub loop_send-LoopFrame :
      (now : Time) (from : AgentId) (text : Text)
      → LoopFrame s (Inbox.loop_send now from text s).state
  unfolding Inbox.loop_send
  loop_send-LoopFrame now from text = ground arith

  pub loop_events-LoopFrame :
      (id : AgentId) (ack : Text) (through : Bool)
      → LoopFrame s (Inbox.loop_events id ack through s).state
  unfolding Inbox.loop_events
  loop_events-LoopFrame id ack through = ground arith

  pub loop_human-LoopFrame :
      (now : Time) (text : Text) → LoopFrame s (Inbox.loop_human now text s).state
  unfolding Inbox.loop_human
  loop_human-LoopFrame now text = ground arith

  pub loop_observe-LoopFrame :
      (now : Time) (tool detail : Text) → LoopFrame s (Inbox.loop_observe now tool detail s).state
  unfolding Inbox.loop_observe
  loop_observe-LoopFrame now tool detail = ground arith

  pub loop_ask-LoopFrame :
      (now : Time) (id : AgentId) (text : Text) → LoopFrame s (Consult.loop_ask now id text s).state
  unfolding Consult.loop_ask
  loop_ask-LoopFrame now id text = ground arith

  pub loop_reply-LoopFrame :
      (now : Time) (id : AgentId) (question_id text : Text)
      → LoopFrame s (Consult.loop_reply now id question_id text s).state
  unfolding Consult.loop_reply
  loop_reply-LoopFrame now id question_id text = ground arith

  pub loop_finish-LoopFrame :
      (id : AgentId) (text approve reject : Text)
      → LoopFrame s (Consult.loop_finish id text approve reject s).state
  unfolding Consult.loop_finish
  loop_finish-LoopFrame id text approve reject = ground arith

  pub loop_wait-LoopFrame :
      (now : Time) (id : AgentId) (until : Time) (reason : Text)
      → LoopFrame s (Turn.loop_wait now id until reason s).state
  unfolding Turn.loop_wait
  loop_wait-LoopFrame now id until reason = ground arith

  end_turn-LoopFrame : (ends : Bool) → s.mode ≡ Mode.loop → LoopFrame s (Turn.end_turn ends s)
  unfolding Turn.end_turn
  end_turn-LoopFrame ends m = ground arith

  react-LoopFrame :
      (id : AgentId) (ends : Bool) (change : Option (Option LoopWait)) (ended : State)
      → LoopFrame s ended
      → LoopFrame s (Turn.react id ends change s ended).state
  unfolding Turn.react
  react-LoopFrame id ends change ended f = ground arith

  pub loop_activity-LoopFrame :
      (id : AgentId) (activity : Activity) (tool : Text)
      → LoopFrame s (Turn.loop_activity id activity tool s).state
  unfolding Turn.loop_activity
  loop_activity-LoopFrame id activity tool =
      let ends = s.loop.finishing && (agent_eq id AgentId.austin && Turn.is_settled activity) in
      ground (
        arith,
        end_turn-LoopFrame ends,
        react-LoopFrame id ends (Turn.wait_change id activity tool s) (Turn.end_turn ends s),
      )

  pub loop_timers-LoopFrame :
      (now : Time) (order : List AgentId) → LoopFrame s (Turn.loop_timers now order s).state
  unfolding Turn.loop_timers
  loop_timers-LoopFrame now order = ground arith
