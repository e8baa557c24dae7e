-- ===== src/Project/Gates/Gaps.antt =====
-- Where the Step gate can be passed: internal/project, setSteps and revokeStep of stepWorkflow.
use duo.Prelude.{
  if◌then◌else◌, suc, ◌≡◌, ◌≢◌, refl, true, false, none, some, [], ◌∷◌, ◌++◌, length, length-append,
  get_elem?, arith, ◌∙◌,
}
use duo.Text.{Text, trim_space}
use duo.Project.Agent.{AgentId, is_peer}
use duo.Project.Mode.{Mode, Phase, mode_eq}
use duo.Project.Verification.{Time}
use duo.Project.Steps.{Step, Steps, step_at}
use duo.Project.Steps.Parse.{parse_steps}
use duo.Project.State.{State, current_step, current_policy}
use duo.Project.Session
use duo.Project.Workflow.Dispatch.{run_set_steps, run_land_step, run_revoke_step}
use duo.Project.Workflow.Step

get_elem?-end : (q : Steps) (st : Step) → get_elem? (q ++ st ∷ []) (length q) ≡ some st
get_elem?-end [] st = refl
get_elem?-end (x ∷ q) st = get_elem?-end q st

step_at_end : (q : Steps) (st : Step) → step_at (q ++ st ∷ []) (suc (length q)) ≡ some st
unfolding step_at
step_at_end q st = ground (arith, length-append q (st ∷ []), get_elem?-end q st)

has_landed_end :
    (q : Steps) (st : Step) (head : Text)
    → st.delivery_head ≡ []
    → Step.has_landed (q ++ st ∷ []) head ≡ Step.has_landed q head
unfolding Step.has_landed
has_landed_end [] st head e = ground arith
has_landed_end (x ∷ q) st head e = ground (arith, has_landed_end q st head)

-- The state that an extended queue leaves.
abbrev extended : Time → State → Step → State
extended now s st = record s { steps = s.steps ++ st ∷ []; last_mutation = now }

append_lem :
    (now : Time) (agent : AgentId) (list : Text) (s : State) (st : Step)
    → s.mode ≡ Mode.step
    → s.phase ≡ Phase.integrate
    → is_peer agent ≡ true
    → parse_steps list ≡ st ∷ []
    → st.done ≡ false
    → (Session.set_steps now agent list true s).state ≡ extended now s st
unfolding Session.set_steps run_set_steps Step.set_steps
append_lem now agent list s st m p a q d = ground arith

land_end :
    (now : Time) (at head : Text) (s : State) (st : Step)
    → s.mode ≡ Mode.step
    → s.phase ≡ Phase.integrate
    → current_step s ≡ some st
    → st.delivery_head ≡ []
    → Step.has_landed s.steps (trim_space head) ≡ false
    → (Session.land_step now at head s).error ≡ none
unfolding Session.land_step run_land_step Step.land_step current_step
land_end now at head s st m p c h f = ground arith

-- When the queue of a Step session is finished and waits in INTEGRATE for its signatures, an appended
-- step stands under the cursor in INTEGRATE as it was submitted, and `LandStep` accepts it at any
-- head that has not landed: it was neither executed nor reviewed.
pub appended_step_lands_unreviewed :
    (now : Time) (agent : AgentId) (list at head : Text) (s : State) (st : Step)
    → s.mode ≡ Mode.step
    → s.phase ≡ Phase.integrate
    → s.step ≡ suc (length s.steps)
    → is_peer agent ≡ true
    → parse_steps list ≡ st ∷ []
    → st.done ≡ false
    → st.delivery_head ≡ []
    → Step.has_landed s.steps (trim_space head) ≡ false
    → let r = Session.set_steps now agent list true s in
      (r.state.phase ≡ Phase.integrate)
      × (current_step r.state ≡ some st)
      × ((Session.land_step now at head r.state).error ≡ none)
unfolding current_step
appended_step_lands_unreviewed now agent list at head s st m p c a q d h f =
    let t = extended now s st in
    let current : step_at t.steps t.step ≡ some st = rw c (step_at_end s.steps st) in
    rw (append_lem now agent list s st m p a q d) (
      p,
      current,
      land_end now at head t st m p current h (has_landed_end s.steps st (trim_space head) h ∙ f),
    )

-- Withdrawing a submission in INTEGRATE goes back to EXECUTE; it clears both signatures of a GOAL step,
-- and keeps whatever signatures stand on a FAST step.
pub revoked_fast_step_keeps_signatures :
    (now : Time) (reason : Text) (agent : AgentId) (s : State)
    → s.mode ≡ Mode.step
    → s.phase ≡ Phase.integrate
    → current_step s ≢ none
    → is_peer agent ≡ true
    → let r = Session.revoke_step_submission now reason s in
      (r.error ≡ none)
      × (r.state.phase ≡ Phase.execute)
      × (r.state.ready agent
          ≡ (if mode_eq (current_policy s) Mode.goal then false else s.ready agent))
unfolding Session.revoke_step_submission run_revoke_step Step.revoke_step current_policy
revoked_fast_step_keeps_signatures now reason agent s m p c a = ground arith
