-- ===== src/Recovery/Durable.antt =====
-- A request for delivery and the checkpoint that records it: internal/project/workflow.go,
-- internal/recovery/recovery.go (Compose) and internal/sessionstore/snapshot.go (NeedsDelivery).
use duo.Prelude.{◌≡◌, ◌⊎◌, inl, inr, Bool, true, false, arith}
use duo.Text.{Text}
use duo.Project.Agent.{AgentId}
use duo.Project.Mode.{Mode, Phase}
use duo.Project.Verification.{Time, VerificationResult}
use duo.Project.State.{State}
use duo.Project.Snapshot.{snapshot, effective_mode}
use duo.Project.Session
use duo.Project.Switch.{is_known_mode}
use duo.Project.Workflow.Dispatch.{run_set_ready, run_set_verification}
use duo.Project.Workflow.Goal
use duo.Project.Workflow.Fast
use duo.Project.Workflow.Step
use duo.Project.Gates.Delivery.{asks_delivery}
use duo.Store.Record.{is_applied, stored_mode, verification_result}
use duo.Store.Needs.{needs_delivery}
use duo.Recovery.Compose.{ComposeInput, compose, store_verification}

-- What a state that asks for delivery looks like.
abbrev IsFinal : State → Type 0
IsFinal s =
    ((s.mode ≡ Mode.fast)
      × (s.phase ≡ Phase.verify)
      × (s.verification.status ≡ VerificationResult.passed))
    ⊎ (((s.mode ≡ Mode.goal) ⊎ (s.mode ≡ Mode.step))
        × (s.phase ≡ Phase.integrate)
        × (s.ready AgentId.austin ≡ true)
        × (s.ready AgentId.tony ≡ true))

IsFinal-needs_delivery :
    (input : ComposeInput) (s : State)
    → IsFinal s
    → input.project ≡ snapshot s
    → is_applied input.delivery.status ≡ false
    → needs_delivery (compose input) ≡ true
unfolding needs_delivery compose snapshot effective_mode stored_mode verification_result
    store_verification
IsFinal-needs_delivery input s f e a = ground arith

verdict-IsFinal :
    (now : Time) (agent : AgentId) (result : VerificationResult) (note head : Text) (s : State)
    → asks_delivery (Session.set_verification now agent result note head s) ≡ true
    → IsFinal (Session.set_verification now agent result note head s).state
unfolding Session.set_verification run_set_verification Fast.set_verification Step.set_verification
verdict-IsFinal now agent result note head s h = ground arith

goal-IsFinal :
    (now : Time) (agent : AgentId) (ready : Bool) (note evidence : Text) (s : State)
    → s.mode ≡ Mode.goal
    → asks_delivery (Session.set_ready now agent ready note evidence s) ≡ true
    → IsFinal (Session.set_ready now agent ready note evidence s).state
unfolding Session.set_ready run_set_ready Goal.set_ready
goal-IsFinal now agent ready note evidence s m h = ground arith

step-IsFinal :
    (now : Time) (agent : AgentId) (ready : Bool) (note evidence : Text) (s : State)
    → s.mode ≡ Mode.step
    → asks_delivery (Session.set_ready now agent ready note evidence s) ≡ true
    → IsFinal (Session.set_ready now agent ready note evidence s).state
unfolding Session.set_ready run_set_ready Step.set_ready
step-IsFinal now agent ready note evidence s m h = ground arith

never_asks :
    (now : Time) (agent : AgentId) (ready : Bool) (note evidence : Text) (s : State)
    → ((s.mode ≡ Mode.fast) ⊎ (s.mode ≡ Mode.loop))
    → asks_delivery (Session.set_ready now agent ready note evidence s) ≡ false
unfolding Session.set_ready run_set_ready Fast.set_ready
never_asks now agent ready note evidence s m = ground arith

signature-IsFinal :
    (now : Time) (agent : AgentId) (ready : Bool) (note evidence : Text) (s : State)
    → is_known_mode s.mode ≡ true
    → asks_delivery (Session.set_ready now agent ready note evidence s) ≡ true
    → IsFinal (Session.set_ready now agent ready note evidence s).state
signature-IsFinal now agent ready note evidence s k h = ground (
  arith,
  goal-IsFinal now agent ready note evidence s,
  step-IsFinal now agent ready note evidence s,
  never_asks now agent ready note evidence s,
)

-- If a signature or a verdict in a session of a known mode asks for delivery, the checkpoint that is
-- composed of the session afterwards, with a delivery that is not applied, says that delivery is
-- needed, so a crash before the delivery does not lose the request.
pub delivery_request_is_durable :
    (now : Time) (agent : AgentId) (ready : Bool) (result : VerificationResult)
    (note evidence : Text) (s : State) (input : ComposeInput)
    → let signed = Session.set_ready now agent ready note evidence s in
      let judged = Session.set_verification now agent result note evidence s in
      is_known_mode s.mode ≡ true
      → ((asks_delivery signed ≡ true) × (input.project ≡ snapshot signed.state))
        ⊎ ((asks_delivery judged ≡ true) × (input.project ≡ snapshot judged.state))
      → is_applied input.delivery.status ≡ false
      → needs_delivery (compose input) ≡ true
delivery_request_is_durable now agent ready result note evidence s input k (inl (h, e)) a =
    IsFinal-needs_delivery input _ (signature-IsFinal now agent ready note evidence s k h) e a
delivery_request_is_durable now agent ready result note evidence s input k (inr (h, e)) a =
    IsFinal-needs_delivery input _ (verdict-IsFinal now agent result note evidence s h) e a
