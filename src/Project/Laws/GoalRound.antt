-- ===== src/Project/Laws/GoalRound.antt =====
-- A whole round of a Goal session: internal/project/workflow.go and the chain of mode.go.
use duo.Prelude.{◌≡◌, ◌⊎◌, ◌∙◌, ap, refl, inl, inr, true, false, none, arith}
use duo.Text.{Text, is_blank}
use duo.Project.Agent.{AgentId}
use duo.Project.Mode.{Mode, Phase, next}
use duo.Project.Verification.{Time}
use duo.Project.State.{State}
use duo.Project.Session
use duo.Project.Workflow.Dispatch.{run_set_ready, workflow}
use duo.Project.Workflow.Goal
use duo.Project.Laws.Signing.{
  austin_signs, tony_signs, both_signatures_advance, signed_integration_completes,
}

-- What the two agents say when they sign a phase.
pub record Signing : Type 0 where
  pub now : Time
  pub later : Time
  pub note : Text
  pub evidence : Text
  pub note' : Text
  pub evidence' : Text

-- Austin signs, and then Tony.
abbrev pub both_sign : Signing → State → State
both_sign x s = tony_signs x.later x.note' x.evidence' (austin_signs x.now x.note x.evidence s)

-- A Goal session with a plan, in a phase, with Tony not signed.
pub record IsOpen (p : Phase) (s : State) : Type 0 where
  pub mode : s.mode ≡ Mode.goal
  pub phase : s.phase ≡ p
  pub plan : is_blank s.plan ≡ false
  pub tony : s.ready AgentId.tony ≡ false

signs_kept :
    (now : Time) (agent : AgentId) (note evidence : Text) (s : State)
    → s.mode ≡ Mode.goal
    → let t = (Session.set_ready now agent true note evidence s).state in
      (t.mode ≡ Mode.goal) × (t.plan ≡ s.plan)
unfolding Session.set_ready run_set_ready Goal.set_ready workflow
signs_kept now agent note evidence s m = ground arith

both_sign_kept :
    (x : Signing) (s : State)
    → s.mode ≡ Mode.goal
    → ((both_sign x s).mode ≡ Mode.goal) × ((both_sign x s).plan ≡ s.plan)
both_sign_kept x s m =
    let (m1, p1) = signs_kept x.now AgentId.austin x.note x.evidence s m in
    let (m2, p2) =
      signs_kept x.later AgentId.tony x.note' x.evidence' (austin_signs x.now x.note x.evidence s)
        m1 in
    (m2, p2 ∙ p1)

-- One phase further along the chain.
advance_lem :
    (x : Signing) (p q : Phase) (s : State)
    → (p ≡ Phase.plan) ⊎ ((p ≡ Phase.execute) ⊎ (p ≡ Phase.review))
    → (next Mode.goal p).0 ≡ q
    → IsOpen p s
    → IsOpen q (both_sign x s)
advance_lem x p q s h e o =
    let (phase, unsigned) =
      both_signatures_advance x.now x.later x.note x.evidence x.note' x.evidence' s o.mode
        (ground (arith, h, o.phase)) o.plan o.tony in
    let (mode, plan) = both_sign_kept x s o.mode in
    record {
      mode = mode;
      phase = phase ∙ (ap (λ r. (next Mode.goal r).0) o.phase ∙ e);
      plan = ap is_blank plan ∙ o.plan;
      tony = unsigned.tony;
    }

-- A Goal session in PLAN, with a plan and with Tony not signed: when both sign four times, Austin
-- first, the last time with evidence that is not blank, it goes from PLAN to EXECUTE, REVIEW and
-- INTEGRATE, one phase each time, and `Complete` then succeeds and ends it in DONE.
pub goal_round_ends :
    (a b c d : Signing) (last : Time) (s : State)
    → IsOpen Phase.plan s
    → is_blank d.evidence ≡ false
    → is_blank d.evidence' ≡ false
    → let executing = both_sign a s in
      let reviewing = both_sign b executing in
      let integrating = both_sign c reviewing in
      let r = Session.complete last (both_sign d integrating) in
      (executing.phase ≡ Phase.execute)
      × (reviewing.phase ≡ Phase.review)
      × (integrating.phase ≡ Phase.integrate)
      × (r.error ≡ none)
      × (r.state.phase ≡ Phase.done)
unfolding next
goal_round_ends a b c d last s o ea et =
    let executing = advance_lem a Phase.plan Phase.execute s (inl refl) refl o in
    let reviewing =
      advance_lem b Phase.execute Phase.review (both_sign a s) (inr (inl refl)) refl executing in
    let integrating =
      advance_lem c Phase.review Phase.integrate (both_sign b (both_sign a s)) (inr (inr refl)) refl
        reviewing in
    let (ok, done, austin, tony) =
      signed_integration_completes d.now d.later last d.note d.evidence d.note' d.evidence'
        (both_sign c (both_sign b (both_sign a s))) integrating.mode integrating.phase
        integrating.plan integrating.tony ea et in
    (executing.phase, reviewing.phase, integrating.phase, ok, done)
