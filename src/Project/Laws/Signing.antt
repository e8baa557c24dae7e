-- ===== src/Project/Laws/Signing.antt =====
-- internal/project: what two signatures do in Goal, and what clears them.
use duo.Prelude.{ap, ◌∙◌, ◌↔◌, if◌then◌else◌, ◌+◌, ◌≡◌, ◌≢◌, ◌⊎◌, true, false, none, [], arith}
use duo.Text.{Text, trim_space, is_blank}
use duo.Text.Laws.{is_blank-trim_space}
use duo.Project.Agent.{AgentId, is_peer}
use duo.Project.Mode.{Mode, Phase, phase_eq, mode_eq, initial_phase, next}
use duo.Project.Verification.{Time, no_verification}
use duo.Project.State.{State}
use duo.Project.Session
use duo.Project.Switch
use duo.Project.Switch.{is_known_mode}
use duo.Project.Valid.Defs.{IsValid}
use duo.Project.Workflow.Dispatch.{run_set_plan, run_set_ready, run_complete, run_reopen, workflow}
use duo.Project.Workflow.Goal
use duo.Project.Workflow.Fast
use duo.Project.Workflow.Step

-- The states after Austin's signature, and after Tony's on top of it.
abbrev pub austin_signs : Time → Text → Text → State → State
austin_signs now note evidence s = (Session.set_ready now AgentId.austin true note evidence s).state

abbrev pub tony_signs : Time → Text → Text → State → State
tony_signs now note evidence s = (Session.set_ready now AgentId.tony true note evidence s).state

-- Neither agent's signature, note nor evidence is on record.
pub record IsUnsigned (s : State) : Type 0 where
  pub austin : s.ready AgentId.austin ≡ false
  pub tony : s.ready AgentId.tony ≡ false
  pub austin_note : s.notes AgentId.austin ≡ []
  pub tony_note : s.notes AgentId.tony ≡ []
  pub austin_evidence : s.evidence AgentId.austin ≡ []
  pub tony_evidence : s.evidence AgentId.tony ≡ []

austin_signs_lem :
    (now : Time) (note evidence : Text) (s : State)
    → s.mode ≡ Mode.goal
    → s.phase ≢ Phase.done
    → is_blank s.plan ≡ false
    → s.ready AgentId.tony ≡ false
    → let t = austin_signs now note evidence s in
      (t.mode ≡ Mode.goal)
      × (t.phase ≡ s.phase)
      × (t.plan ≡ s.plan)
      × (t.ready AgentId.austin ≡ true)
      × (t.ready AgentId.tony ≡ false)
      × (t.evidence AgentId.austin ≡ trim_space evidence)
unfolding Session.set_ready run_set_ready Goal.set_ready workflow
austin_signs_lem now note evidence s m d b r = ground arith

tony_signs_lem :
    (now : Time) (note evidence : Text) (s : State)
    → s.mode ≡ Mode.goal
    → s.phase ≢ Phase.done
    → is_blank s.plan ≡ false
    → s.ready AgentId.austin ≡ true
    → s.phase ≢ Phase.integrate
    → (next Mode.goal s.phase).1 ≡ true
    → let t = tony_signs now note evidence s in
      (t.phase ≡ (next Mode.goal s.phase).0) × IsUnsigned t
unfolding Session.set_ready run_set_ready Goal.set_ready workflow
tony_signs_lem now note evidence s m d b r i n = ground arith

next_open :
    (p : Phase)
    → (p ≡ Phase.plan) ⊎ ((p ≡ Phase.execute) ⊎ (p ≡ Phase.review))
    → (next Mode.goal p).1 ≡ true
unfolding next
next_open p h = ground arith

-- In Goal with a plan, from PLAN, EXECUTE or REVIEW and with Tony not signed: after Austin's and then
-- Tony's signature the session is in the next phase of the chain and nobody's signature, note or
-- evidence is carried over.
pub both_signatures_advance :
    (now later : Time) (note evidence note' evidence' : Text) (s : State)
    → s.mode ≡ Mode.goal
    → (s.phase ≡ Phase.plan) ⊎ ((s.phase ≡ Phase.execute) ⊎ (s.phase ≡ Phase.review))
    → is_blank s.plan ≡ false
    → s.ready AgentId.tony ≡ false
    → let t = tony_signs later note' evidence' (austin_signs now note evidence s) in
      (t.phase ≡ (next Mode.goal s.phase).0) × IsUnsigned t
both_signatures_advance now later note evidence note' evidence' s m p b r =
    let (m', p', b', ra, rt, ev) = austin_signs_lem now note evidence s m (ground arith) b r in
    let (phase, unsigned) =
      tony_signs_lem later note' evidence' (austin_signs now note evidence s) m' (ground arith)
        (rw b' b) ra (ground arith) (next_open _ (ground arith)) in
    (phase ∙ ap (λ p. (next Mode.goal p).0) p', unsigned)

tony_signs_last :
    (now : Time) (note evidence : Text) (s : State)
    → s.mode ≡ Mode.goal
    → s.phase ≡ Phase.integrate
    → s.ready AgentId.austin ≡ true
    → let t = tony_signs now note evidence s in
      (t.mode ≡ Mode.goal)
      × (t.phase ≡ Phase.integrate)
      × (t.ready AgentId.austin ≡ true)
      × (t.ready AgentId.tony ≡ true)
      × (t.evidence AgentId.austin ≡ s.evidence AgentId.austin)
      × (t.evidence AgentId.tony ≡ trim_space evidence)
unfolding Session.set_ready run_set_ready Goal.set_ready workflow
tony_signs_last now note evidence s m p r = ground arith

goal_completes :
    (now : Time) (s : State)
    → s.mode ≡ Mode.goal
    → s.phase ≡ Phase.integrate
    → s.ready AgentId.austin ≡ true
    → s.ready AgentId.tony ≡ true
    → is_blank (s.evidence AgentId.austin) ≡ false
    → is_blank (s.evidence AgentId.tony) ≡ false
    → let r = Session.complete now s in
      (r.error ≡ none)
      × (r.state.phase ≡ Phase.done)
      × (r.state.ready AgentId.austin ≡ true)
      × (r.state.ready AgentId.tony ≡ true)
unfolding Session.complete run_complete Goal.complete workflow
goal_completes now s m p ra rt ea et = ground arith

-- In Goal, in INTEGRATE, with a plan and Tony not signed: when Austin and then Tony sign with evidence
-- that is not blank, `Complete` succeeds; the session is DONE and keeps both signatures.
pub signed_integration_completes :
    (now later last : Time) (note evidence note' evidence' : Text) (s : State)
    → s.mode ≡ Mode.goal
    → s.phase ≡ Phase.integrate
    → is_blank s.plan ≡ false
    → s.ready AgentId.tony ≡ false
    → is_blank evidence ≡ false
    → is_blank evidence' ≡ false
    → let r =
        Session.complete last
          (tony_signs later note' evidence' (austin_signs now note evidence s)) in
      (r.error ≡ none)
      × (r.state.phase ≡ Phase.done)
      × (r.state.ready AgentId.austin ≡ true)
      × (r.state.ready AgentId.tony ≡ true)
signed_integration_completes now later last note evidence note' evidence' s m p b r ea et =
    let (m1, p1, b1, ra, rt, ev) = austin_signs_lem now note evidence s m (ground arith) b r in
    let t = austin_signs now note evidence s in
    let (m2, p2, ra2, rt2, ea2, et2) = tony_signs_last later note' evidence' t m1 (p1 ∙ p) ra in
    goal_completes last (tony_signs later note' evidence' t) m2 p2 ra2 rt2
      (rw (ea2, ev, is_blank-trim_space evidence) ea) (rw (et2, is_blank-trim_space evidence') et)

-- A new plan of either agent in PLAN of Goal or Step is stored trimmed, under the next version, and
-- clears both signatures with their notes and evidence.
pub new_plan_clears_signatures :
    (now : Time) (agent : AgentId) (plan : Text) (s : State)
    → (s.mode ≡ Mode.goal) ⊎ (s.mode ≡ Mode.step)
    → s.phase ≡ Phase.plan
    → is_peer agent ≡ true
    → is_blank plan ≡ false
    → let r = Session.set_plan now agent plan s in
      (r.error ≡ none)
      × (r.state.plan ≡ trim_space plan)
      × (r.state.plan_version ≡ s.plan_version + 1)
      × IsUnsigned r.state
unfolding Session.set_plan run_set_plan Goal.set_plan Step.set_plan workflow
new_plan_clears_signatures now agent plan s m p a b = ground arith

-- A round of the mode `target`, at the phase `p`, that carries no approval.
abbrev pub IsFreshRound : Mode → Phase → State → Type 0
IsFreshRound target p t =
    (t.mode ≡ target) × (t.phase ≡ p) × (t.verification ≡ no_verification) × IsUnsigned t

escalate_locked-IsFreshRound :
    (now : Time) (reason : Text) (s : State)
    → IsFreshRound Mode.goal Phase.plan (Switch.escalate_locked now reason s)
unfolding Switch.escalate_locked
escalate_locked-IsFreshRound now reason s = ground arith

switch_locked-IsFreshRound :
    (now : Time) (target : Mode) (reason : Text) (s : State)
    → is_known_mode target ≡ true
    → IsFreshRound target
        (if phase_eq s.phase Phase.done then Phase.done else initial_phase target)
        (Switch.switch_locked now target reason s)
unfolding Switch.switch_locked initial_phase
switch_locked-IsFreshRound now target reason s k = ground arith

-- A switch to another of the four modes succeeds and inherits no approval: nobody's signature, note or
-- evidence and no verification is left, and the phase is the target's first one (DONE stays DONE).
pub switch_inherits_nothing :
    (now : Time) (target : Mode) (reason : Text) (s : State)
    → is_known_mode target ≡ true
    → mode_eq s.mode target ≡ false
    → let r = Switch.switch_mode now target reason s in
      (r.error ≡ none)
      × IsFreshRound target
          (if phase_eq s.phase Phase.done then Phase.done else initial_phase target)
          r.state
unfolding Switch.switch_mode initial_phase
switch_inherits_nothing now target reason s k n = ground (
  arith,
  escalate_locked-IsFreshRound now reason s,
  switch_locked-IsFreshRound now target reason s k,
)

-- `Reopen` of a valid session succeeds exactly from DONE, and starts in the first phase of the mode; a
-- refusal leaves the state as it was.
pub reopen_only_from_done :
    (now : Time) (s : State)
    → IsValid s
    → let r = Session.reopen now s in
      ((r.error ≡ none) ↔ (s.phase ≡ Phase.done))
      × (r.state.phase ≡ (if phase_eq s.phase Phase.done then initial_phase s.mode else s.phase))
unfolding Session.reopen run_reopen Goal.reopen Fast.reopen Step.reopen workflow initial_phase
reopen_only_from_done now s v = ((λ h. ground arith, λ h. ground arith), ground arith)
