-- ===== src/Tests/Sessions.antt =====
-- Concrete sessions, made by the operations where they compute.
use duo.Prelude.{true, false, some, List, [], ◌∷◌}
use duo.Text.{codes}
use duo.Project.Agent.{AgentId, agent_eq}
use duo.Project.Mode.{Mode, Phase}
use duo.Project.Verification.{VerificationResult, no_verification}
use duo.Project.Steps.{Step}
use duo.Project.Steps.Parse.{new_step}
use duo.Project.LoopState.{LoopConsultation, fresh_loop}
use duo.Project.State.{State}
use duo.Project.Operation.{Op}

-- A session of a mode in a phase, with a plan.
abbrev pub session : Mode → Phase → State
session m p = record {
  mode = m;
  loop = fresh_loop 0;
  phase = p;
  plan = codes "plan";
  plan_version = 1;
  step = 1;
  steps = [];
  ready = λ a. false;
  notes = λ a. codes "";
  evidence = λ a. codes "";
  verification = no_verification;
  started = true;
  last_mutation = 0;
  on_change = true;
}

abbrev pub signed_by_both : State → State
signed_by_both s = record s { ready = λ a. true; evidence = λ a. codes "abc" }

-- A Goal session in INTEGRATE that Austin has signed.
abbrev pub half_signed : State
half_signed = record (session Mode.goal Phase.integrate) { ready = λ a. agent_eq a AgentId.austin }

-- Austin asked for the verification of a head.
abbrev pub verifying : State
verifying = record (session Mode.fast Phase.verify) {
  verification = record no_verification { head = codes "abc" };
}

abbrev pub landed_step : Step
landed_step = record {
  title = codes "one";
  done = true;
  policy = Mode.fast;
  head = codes "abc";
  verification = record {
    status = VerificationResult.passed;
    head = codes "abc";
    note = codes "";
    at = some 5;
  };
  delivery_head = codes "abc";
  delivered_at = codes "t";
}

-- A Step session whose only step has landed and waits for the signatures.
abbrev pub landed : State
landed = record (session Mode.step Phase.integrate) { step = 2; steps = landed_step ∷ [] }

-- A Step session with a reviewed step in INTEGRATE.
abbrev pub integrating : State
integrating = record (session Mode.step Phase.integrate) {
  steps = record landed_step { done = false; delivery_head = codes "" } ∷ [];
}

abbrev pub open_step : Step
open_step = new_step (codes "one") Mode.fast false

-- A Step session in EXECUTE with one open step.
abbrev pub executing : State
executing = record (session Mode.step Phase.execute) { steps = open_step ∷ [] }

-- A Step session in EXECUTE whose first step has landed.
abbrev pub second_step : State
second_step = record (session Mode.step Phase.execute) {
  step = 2;
  steps = landed_step ∷ record landed_step { done = false; delivery_head = codes "" } ∷ [];
}

-- Its second step is submitted, passed and landed.
abbrev pub second_landing : List Op
second_landing =
    Op.set_ready 6 AgentId.austin true (codes "") (codes "def")
    ∷ Op.set_verification 7 AgentId.tony VerificationResult.passed (codes "") (codes "def")
    ∷ Op.land_step 8 (codes "t") (codes "def")
    ∷ []

-- A Step session from its plan to the verdict on its only step.
abbrev pub step_history : List Op
step_history =
    Op.set_plan 1 AgentId.austin (codes "plan")
    ∷ Op.set_steps 2 AgentId.austin (codes "- [ ] one") false
    ∷ Op.set_ready 3 AgentId.austin true (codes "") (codes "a")
    ∷ Op.set_ready 4 AgentId.tony true (codes "") (codes "b")
    ∷ Op.set_ready 5 AgentId.austin true (codes "") (codes "abc")
    ∷ Op.set_verification 6 AgentId.tony VerificationResult.passed (codes "") (codes "abc")
    ∷ []

abbrev pub question : LoopConsultation
question = record {
  id = codes "1";
  question = codes "which way?";
  asked_at = 1;
  answer = codes "";
  reply_id = codes "";
  waiting = true;
}

-- A LOOP session whose owner waits for the reply to a question.
abbrev pub asking : State
asking = record (session Mode.loop Phase.running) {
  loop = record (fresh_loop 1) { consultation = some question };
}
