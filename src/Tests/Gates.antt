-- ===== src/Tests/Gates.antt =====
-- The theorems about the gates at concrete sessions.
use duo.Prelude.{get_elem?, arith, ◌≡◌, refl, inl, true, false, none, some}
use duo.Text.{codes, is_space}
use duo.Project.Agent.{AgentId, peer_of}
use duo.Project.Mode.{Mode, Phase, valid_phase}
use duo.Project.Verification.{VerificationResult}
use duo.Project.Steps.{Step, first_open_step}
use duo.Project.State.{current_step, new_state_for}
use duo.Project.Session
use duo.Project.Operation.{Op, apply, run}
use duo.Project.Workflow.Goal
use duo.Project.Workflow.Fast
use duo.Project.Workflow.Step
use duo.Project.Steps.Parse.{new_step, parse_steps}
use duo.Project.Workflow.Dispatch.{
  run_set_plan, run_set_steps, run_set_ready, run_set_verification, run_land_step, workflow,
}
use duo.Project.Valid.Defs.{IsValid}
use duo.Project.Valid.Run.{run-IsValid}
use duo.Project.Gates.Done.{MayFinish, done_is_gated}
use duo.Project.Gates.Landing.{IsReviewed}
use duo.Project.Gates.History.{AllAllowed, landed_step-IsReviewed}
use duo.Project.Gates.Delivery.{
  asks_delivery, fast_delivery_needs_verdict, goal_delivery_is_an_edge,
}
use duo.Project.Gates.Landed.{landed_steps_stay}
use duo.Project.Gates.Gaps.{appended_step_lands_unreviewed}
use duo.Tests.Sessions.{
  session, signed_by_both, step_history, verifying, landed, landed_step, half_signed, second_step,
  second_landing,
}

integrated : IsValid (signed_by_both (session Mode.goal Phase.integrate))
unfolding valid_phase first_open_step
integrated = record { known = refl; in_mode = refl; cursor = inl refl }

done_is_gated_example : MayFinish Mode.goal (signed_by_both (session Mode.goal Phase.integrate))
unfolding apply Session.complete Goal.complete is_space
done_is_gated_example =
    done_is_gated (Op.complete 9) (signed_by_both (session Mode.goal Phase.integrate)) integrated
      (λ e. cc) refl

run-IsValid_example : IsValid (run step_history (new_state_for 0 Mode.step))
run-IsValid_example = run-IsValid 0 Mode.step step_history

history_allowed : AllAllowed step_history (new_state_for 0 Mode.step)
unfolding apply new_state_for Session.set_plan Step.set_plan run_set_plan workflow is_space
history_allowed = (tt, ((λ p. ground arith), (tt, (tt, (tt, (tt, tt))))))

history_lands :
    (Session.land_step 7
      (codes "t")
      (codes "abc")
      (run step_history (new_state_for 0 Mode.step))).error
    ≡ none
unfolding run apply new_state_for Session.set_plan Session.set_steps Session.set_ready
    Session.set_verification Session.land_step Step.set_plan Step.set_steps Step.set_ready
    Step.set_verification Step.land_step is_space parse_steps run_set_plan run_set_steps
    run_set_ready run_set_verification run_land_step workflow current_step
history_lands = refl

landed_step-IsReviewed_example :
    (st : Step) × (current_step (run step_history (new_state_for 0 Mode.step)) ≡ some st)
    × IsReviewed st
landed_step-IsReviewed_example =
    landed_step-IsReviewed 0 Mode.step step_history 7 (codes "t") (codes "abc") history_allowed
      history_lands

fast_delivery_needs_verdict_example :
    (Session.set_verification 9 AgentId.tony VerificationResult.passed
      (codes "ok")
      (codes "abc")
      verifying).state.verification.head
    ≡ codes "abc"
unfolding Session.set_verification run_set_verification Fast.set_verification is_space
fast_delivery_needs_verdict_example =
    (fast_delivery_needs_verdict 9 AgentId.tony VerificationResult.passed (codes "ok") (codes "abc")
      verifying refl refl).6

goal_delivery_is_an_edge_example :
    asks_delivery (Session.set_ready 9 AgentId.tony true (codes "") (codes "abc") half_signed)
    ≡ true
unfolding peer_of
goal_delivery_is_an_edge_example =
    (goal_delivery_is_an_edge 9 AgentId.tony true (codes "") (codes "abc") half_signed refl refl).1
      (refl, refl, refl, refl)

appended_step_lands_unreviewed_example :
    (Session.land_step 8
      (codes "t")
      (codes "def")
      (Session.set_steps 8 AgentId.tony (codes "- [ ] two") true landed).state).error
    ≡ none
unfolding Step.has_landed parse_steps is_space
appended_step_lands_unreviewed_example =
    (appended_step_lands_unreviewed 8 AgentId.tony (codes "- [ ] two") (codes "t") (codes "def")
      landed (new_step (codes "two") Mode.fast false) refl refl refl refl refl refl refl refl).2

second_step-IsValid : IsValid second_step
unfolding valid_phase first_open_step
second_step-IsValid = record { known = refl; in_mode = refl; cursor = inl refl }

landed_steps_stay_example : get_elem? (run second_landing second_step).steps 0 ≡ some landed_step
landed_steps_stay_example =
    landed_steps_stay second_landing second_step 0 landed_step second_step-IsValid
      (refl, (refl, (refl, tt))) refl refl
