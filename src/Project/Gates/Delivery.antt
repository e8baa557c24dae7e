-- ===== src/Project/Gates/Delivery.antt =====
-- When a transition asks for delivery: internal/project, setReady and setVerification.
use duo.Prelude.{◌≡◌, ◌↔◌, ◌≤◌, ◌⊎◌, Bool, true, false, arith, length, []}
use duo.Text.{Text}
use duo.Project.Agent.{AgentId, is_peer, peer_of}
use duo.Project.Mode.{Mode, Phase}
use duo.Project.Verification.{Time, VerificationResult, targets}
use duo.Project.State.{State, Transition}
use duo.Project.Snapshot.{Reply, Snapshot}
use duo.Project.Session
use duo.Project.Workflow.Dispatch.{run_set_ready, run_set_verification}
use duo.Project.Workflow.Goal
use duo.Project.Workflow.Fast
use duo.Project.Workflow.Step

-- The transition that a reply carries asks for delivery.
abbrev pub asks_delivery : Reply (Snapshot × Transition) → Bool
asks_delivery r = r.value.1.ready_for_delivery

-- In Fast, a reported verdict asks for delivery only if Tony reports `passed` in VERIFY, about the
-- submitted head if he names one; the new state then stands in VERIFY with a passed verification of
-- the head that Austin submitted.
pub fast_delivery_needs_verdict :
    (now : Time) (agent : AgentId) (result : VerificationResult) (note head : Text) (s : State)
    → s.mode ≡ Mode.fast
    → asks_delivery (Session.set_verification now agent result note head s) ≡ true
    → let r = Session.set_verification now agent result note head s in
      (agent ≡ AgentId.tony)
      × (result ≡ VerificationResult.passed)
      × (s.phase ≡ Phase.verify)
      × ((head ≡ []) ⊎ (targets s.verification head ≡ true))
      × (r.state.phase ≡ Phase.verify)
      × (r.state.verification.status ≡ VerificationResult.passed)
      × (r.state.verification.head ≡ s.verification.head)
unfolding Session.set_verification run_set_verification Fast.set_verification
fast_delivery_needs_verdict now agent result note head s m h = ground arith

-- In Goal, a signature of one of the two agents asks for delivery exactly when it is the edge to dual
-- sign-off on INTEGRATE: it is positive, the agent had not signed, and the peer has.
pub goal_delivery_is_an_edge :
    (now : Time) (agent : AgentId) (ready : Bool) (note evidence : Text) (s : State)
    → s.mode ≡ Mode.goal
    → is_peer agent ≡ true
    → (asks_delivery (Session.set_ready now agent ready note evidence s) ≡ true) ↔ (
        (s.phase ≡ Phase.integrate)
        × (ready ≡ true)
        × (s.ready agent ≡ false)
        × (s.ready (peer_of agent) ≡ true))
unfolding Session.set_ready run_set_ready Goal.set_ready peer_of
goal_delivery_is_an_edge now agent ready note evidence s m p =
    (λ h. ground arith, λ h. ground arith)

-- In Step, once both have signed the last step in INTEGRATE, each repeated positive signature of
-- either agent asks for delivery again.
pub step_delivery_repeats :
    (now : Time) (agent : AgentId) (note evidence : Text) (s : State)
    → s.mode ≡ Mode.step
    → s.phase ≡ Phase.integrate
    → is_peer agent ≡ true
    → length s.steps ≤ s.step
    → s.ready AgentId.austin ≡ true
    → s.ready AgentId.tony ≡ true
    → asks_delivery (Session.set_ready now agent true note evidence s) ≡ true
unfolding Session.set_ready run_set_ready Step.set_ready
step_delivery_repeats now agent note evidence s m p a l ra rt = ground arith

-- In Fast, a passed verdict of Tony that asked for delivery asks for it again when it is repeated.
pub fast_delivery_repeats :
    (now later : Time) (note head : Text) (s : State)
    → s.mode ≡ Mode.fast
    → asks_delivery
        (Session.set_verification now AgentId.tony VerificationResult.passed note head s)
      ≡ true
    → let r = Session.set_verification now AgentId.tony VerificationResult.passed note head s in
      asks_delivery
        (Session.set_verification later AgentId.tony VerificationResult.passed note head r.state)
      ≡ true
unfolding Session.set_verification run_set_verification Fast.set_verification
fast_delivery_repeats now later note head s m h = ground arith
