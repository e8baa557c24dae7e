-- ===== src/Project/LoopState.antt =====
-- internal/project/loop.go: the durable coordination state of a LOOP session.
use duo.Prelude.{ℕ, Bool, false, Option, none, List, []}
use duo.Text.{Text, codes}
use duo.Project.Agent.{AgentId}
use duo.Project.Verification.{Time}

pub record LoopConsultation : Type 0 where
  pub id : Text
  pub question : Text
  pub asked_at : Time
  pub answer : Text
  pub reply_id : Text
  pub waiting : Bool

pub record LoopProposal : Type 0 where
  pub id : Text
  pub author : AgentId
  pub summary : Text

pub record LoopWait : Type 0 where
  pub pending : Bool
  pub until : Time
  pub reason : Text

-- `Kind` is a string that the code sets to one of four values or leaves empty.
pub data EventKind : Type 0 where
  no_kind question reply step human : EventKind

pub record LoopEvent : Type 0 where
  pub id : Text
  pub sender : AgentId  -- `From`
  pub text : Text
  pub kind : EventKind
  pub question_id : Text
  pub at : Time

pub record LoopState : Type 0 where
  pub goal : Text
  pub next_id : ℕ  -- uint64
  pub waiting : AgentId → Option LoopWait
  pub events : AgentId → List LoopEvent
  pub approvals : AgentId → Text
  pub acknowledged : AgentId → Text
  pub proposal : Option LoopProposal
  pub consultation : Option LoopConsultation
  pub finishing : Bool
  pub wakes : ℕ
  pub summary : Text

-- `LoopState{NextID: id}`.
abbrev pub fresh_loop : ℕ → LoopState
fresh_loop id = record {
  goal = codes "";
  next_id = id;
  waiting = λ a. none;
  events = λ a. [];
  approvals = λ a. codes "";
  acknowledged = λ a. codes "";
  proposal = none;
  consultation = none;
  finishing = false;
  wakes = 0;
  summary = codes "";
}
