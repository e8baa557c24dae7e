-- ===== src/Project/Laws/StepRound.antt =====
-- The round of one FAST step: internal/project, stepWorkflow from EXECUTE to the landing.
use duo.Prelude.{
  ◌≡◌, ◌∙◌, refl, true, false, none, some, [], ◌∷◌, arith, ltb, length, modify, ℕ, zero, suc, ◌-◌,
  if◌then◌else◌,
}
use duo.Text.{Text, trim_space, is_blank}
use duo.Text.Laws.{text_eq_refl}
use duo.Project.Agent.{AgentId}
use duo.Project.Mode.{Mode, Phase}
use duo.Project.Verification.{Time, VerificationResult, no_verification}
use duo.Project.Steps.{Step, Steps, first_open_step, update_step, step_at, effective_policy}
use duo.Project.State.{State, current_step, current_policy}
use duo.Project.Session
use duo.Project.Workflow.Dispatch.{run_set_ready, run_set_verification, run_land_step}
use duo.Project.Workflow.Step
use duo.Project.Gates.Landing.{step_at-update_self}

abbrev pub submitted : Text → Step → Step
submitted head st = record st { head = head; verification = no_verification }

has_landed-modify :
    (q : Steps) (i : ℕ) (f : Step → Step) (head : Text)
    → ((st : Step) → (f st).delivery_head ≡ st.delivery_head)
    → Step.has_landed (modify q i f) head ≡ Step.has_landed q head
unfolding Step.has_landed
has_landed-modify [] i f head h = ground arith
has_landed-modify (st ∷ q) zero f head h = ground (arith, h st)
has_landed-modify (st ∷ q) (suc i) f head h = ground (arith, has_landed-modify q i f head h)

-- A Step session in a phase, with the step under its cursor.
abbrev IsAt : Phase → Step → State → Type 0
IsAt p st s = (s.mode ≡ Mode.step) × (s.phase ≡ p) × (step_at s.steps s.step ≡ some st)

module _ (now : Time) (s : State) (st : Step) where
  submit_lem :
      (note evidence : Text)
      → IsAt Phase.execute st s
      → effective_policy st ≡ Mode.fast
      → is_blank evidence ≡ false
      → let t = (Session.set_ready now AgentId.austin true note evidence s).state in
        (t.mode ≡ Mode.step)
        × (t.phase ≡ Phase.review)
        × (t.step ≡ s.step)
        × (t.steps ≡ update_step s.steps s.step (submitted (trim_space evidence)))
  unfolding Session.set_ready run_set_ready Step.set_ready current_step current_policy is_blank
  submit_lem note evidence h p b = ground (arith, h.0, h.1, h.2)

  pass_lem :
      (note : Text)
      → IsAt Phase.review st s
      → effective_policy st ≡ Mode.fast
      → let t =
          (Session.set_verification now AgentId.tony VerificationResult.passed note st.head
            s).state in
        (t.mode ≡ Mode.step)
        × (t.phase ≡ Phase.integrate)
        × (t.step ≡ s.step)
        × (t.steps
            ≡ update_step s.steps s.step
                (Step.judged now VerificationResult.passed (trim_space note)))
  unfolding Session.set_verification run_set_verification Step.set_verification current_step
      current_policy
  pass_lem note h p = ground (arith, h.0, h.1, h.2, text_eq_refl st.head)

  land_lem :
      (at head : Text)
      → IsAt Phase.integrate st s
      → st.delivery_head ≡ []
      → Step.has_landed s.steps (trim_space head) ≡ false
      → let r = Session.land_step now at head s in
        (r.error ≡ none)
        × (r.state.steps ≡ update_step s.steps s.step (Step.landed (trim_space head) at))
        × (r.state.step ≡ first_open_step r.state.steps)
        × (r.state.phase
            ≡ (if ltb (length r.state.steps) r.state.step then Phase.integrate else Phase.execute))
  unfolding Session.land_step run_land_step Step.land_step current_step
  land_lem at head h d l = ground (arith, h.0, h.1, h.2)

-- A write to the current step moves it along, and lands nothing.
write_lem :
    (f : Step → Step) (st : Step) (s t : State)
    → step_at s.steps s.step ≡ some st
    → t.step ≡ s.step
    → t.steps ≡ update_step s.steps s.step f
    → step_at t.steps t.step ≡ some (f st)
write_lem f st s t e p q = rw (p, q) (step_at-update_self s.steps s.step f st e)

has_landed_lem :
    (f : Step → Step) (head : Text) (s t : State)
    → ((st : Step) → (f st).delivery_head ≡ st.delivery_head)
    → t.steps ≡ update_step s.steps s.step f
    → Step.has_landed t.steps head ≡ Step.has_landed s.steps head
unfolding update_step
has_landed_lem f head s t h q = rw q (has_landed-modify s.steps (s.step - 1) f head h)

written_at :
    (q r : Steps) (m n : ℕ) (f : Step → Step) (st : Step)
    → r ≡ update_step q n f
    → n ≡ m
    → step_at q n ≡ some st
    → step_at r m ≡ some (f st)
written_at q r m n f st e h c = cc (e, h, step_at-update_self q n f st c)

submitted_policy :
    (head : Text) (st : Step) → effective_policy (submitted head st) ≡ effective_policy st
unfolding effective_policy
submitted_policy head st = refl

-- The record of a FAST step that was submitted, passed and landed.
abbrev pub finished_step : Time → Text → Text → Text → Text → Step → Step
finished_step now note evidence at head st =
    Step.landed head at (Step.judged now VerificationResult.passed note (submitted evidence st))

-- The state after Austin submits his head and Tony passes it.
abbrev pub reviewed : Time → Time → Text → Text → Text → State → State
reviewed now later note evidence verdict s =
    (Session.set_verification later AgentId.tony VerificationResult.passed verdict
      (trim_space evidence) (Session.set_ready now AgentId.austin true note evidence s).state).state

-- In EXECUTE of a Step session, a FAST step that has not landed goes through its round: when Austin
-- submits a head that is not blank, Tony passes that head, and the merged head has not landed on any
-- step, `LandStep` succeeds. The step is then done, its record has the submitted head, the passed
-- verdict on it and the merged head; the cursor is at the first open step, and the session is back in
-- EXECUTE, or waits in INTEGRATE when no step is left.
pub fast_step_lands :
    (now later last : Time) (note evidence verdict at head : Text) (s : State) (st : Step)
    → s.mode ≡ Mode.step
    → s.phase ≡ Phase.execute
    → current_step s ≡ some st
    → effective_policy st ≡ Mode.fast
    → st.delivery_head ≡ []
    → is_blank evidence ≡ false
    → Step.has_landed s.steps (trim_space head) ≡ false
    → let r = Session.land_step last at head (reviewed now later note evidence verdict s) in
      (r.error ≡ none)
      × (step_at r.state.steps s.step
          ≡ some (
              finished_step later
                (trim_space verdict)
                (trim_space evidence)
                at
                (trim_space head)
                st))
      × (r.state.step ≡ first_open_step r.state.steps)
      × (r.state.phase
          ≡ (if ltb (length r.state.steps) r.state.step then Phase.integrate else Phase.execute))
unfolding current_step
fast_step_lands now later last note evidence verdict at head s st m p c f d b l =
    let h = trim_space evidence in
    let t = (Session.set_ready now AgentId.austin true note evidence s).state in
    let u = reviewed now later note evidence verdict s in
    let judged = Step.judged later VerificationResult.passed (trim_space verdict) in
    let (m1, p1, n1, q1) = submit_lem now s st note evidence (m, p, c) f b in
    let c1 = write_lem (submitted h) st s t c n1 q1 in
    let (m2, p2, n2, q2) =
      pass_lem later t (submitted h st) verdict (m1, p1, c1) (submitted_policy h st ∙ f) in
    let c2 = write_lem judged (submitted h st) t u c1 n2 q2 in
    let fresh : Step.has_landed u.steps (trim_space head) ≡ false =
      has_landed_lem judged (trim_space head) t u (λ x. refl) q2
      ∙ has_landed_lem (submitted h) (trim_space head) s t (λ x. refl) q1
      ∙ l in
    let (accepted, q3, n3, p3) =
      land_lem last u (judged (submitted h st)) at head (m2, p2, c2) d fresh in
    let landed = Step.landed (trim_space head) at in
    let r = Session.land_step last at head u in
    (
      accepted,
      written_at u.steps r.state.steps s.step u.step landed (judged (submitted h st)) q3 (n2 ∙ n1)
          c2,
      n3,
      p3,
    )
