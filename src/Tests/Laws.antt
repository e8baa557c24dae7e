-- ===== src/Tests/Laws.antt =====
-- The laws of single operations at concrete sessions.
use duo.Prelude.{false, [], ◌∷◌, ◌≡◌, refl, inl}
use duo.Text.{codes, is_space, is_blank, trim_space}
use duo.Project.Mode.{Mode, Phase, initial_phase, next}
use duo.Project.Steps.{effective_policy}
use duo.Project.State.{current_step}
use duo.Project.Session
use duo.Project.Switch
use duo.Project.Workflow.Step
use duo.Project.Workflow.Dispatch.{run_set_ready, run_set_verification, run_land_step}
use duo.Project.Operation.{Op, apply}
use duo.Project.Laws.GoalRound.{Signing, both_sign, goal_round_ends}
use duo.Project.Laws.Signing.{
  austin_signs, tony_signs, IsFreshRound, both_signatures_advance, switch_inherits_nothing,
}
use duo.Project.Laws.StepRound.{reviewed, fast_step_lands}
use duo.Project.Laws.Queues.{IsTitle, parse_steps-checklist}
use duo.Project.Steps.Parse.{parse_steps, new_step, match_policy}
use duo.Project.Laws.Reports.{IsReported, apply-IsReported}
use duo.Tests.Sessions.{session, verifying, executing, open_step}

-- Both sign a phase, with evidence.
abbrev signing : Signing
signing = record {
  now = 1;
  later = 2;
  note = codes "";
  evidence = codes "a";
  note' = codes "";
  evidence' = codes "b";
}

goal_round_ends_example :
    let integrating =
      both_sign signing (both_sign signing (both_sign signing (session Mode.goal Phase.plan))) in
    (Session.complete 9 (both_sign signing integrating)).state.phase ≡ Phase.done
unfolding is_blank is_space
goal_round_ends_example =
    (goal_round_ends signing signing signing signing 9 (session Mode.goal Phase.plan)
      (record { mode = refl; phase = refl; plan = refl; tony = refl }) refl refl).4

both_signatures_advance_example :
    (tony_signs 2
      (codes "")
      (codes "b")
      (austin_signs 1 (codes "") (codes "a") (session Mode.goal Phase.plan))).phase
    ≡ (next Mode.goal Phase.plan).0
unfolding is_blank is_space
both_signatures_advance_example =
    (both_signatures_advance 1 2 (codes "") (codes "a") (codes "") (codes "b")
      (session Mode.goal Phase.plan) refl (inl refl) refl refl).0

switch_inherits_nothing_example :
    IsFreshRound Mode.goal Phase.plan
      (Switch.switch_mode 1 Mode.goal (codes "hard") verifying).state
unfolding Switch.switch_mode is_space initial_phase
switch_inherits_nothing_example =
    (switch_inherits_nothing 1 Mode.goal (codes "hard") verifying refl refl).1

apply-IsReported_example : IsReported verifying (apply (Op.complete 9) verifying)
apply-IsReported_example = apply-IsReported (Op.complete 9) verifying (λ b e. cc)

fast_step_lands_example :
    (Session.land_step 8
      (codes "t")
      (codes "abc")
      (reviewed 6 7 (codes "") (codes "abc") (codes "") executing)).state.phase
    ≡ Phase.integrate
unfolding is_space is_blank current_step effective_policy Step.has_landed Step.set_ready
    Step.set_verification Step.land_step Session.land_step Session.set_verification
    Session.set_ready run_set_ready run_set_verification run_land_step
fast_step_lands_example =
    (fast_step_lands 6 7 8 (codes "") (codes "abc") (codes "") (codes "t") (codes "abc") executing
      open_step refl refl refl refl refl refl refl).3

write_tests-IsTitle : IsTitle (codes "write tests")
unfolding is_space match_policy trim_space
write_tests-IsTitle = record {
  trimmed = refl;
  nonempty = λ e. cc;
  one_line = refl;
  untagged = refl;
}

parse_steps-checklist_example :
    parse_steps (codes "- [ ] write tests\n") ≡ new_step (codes "write tests") Mode.fast false ∷ []
parse_steps-checklist_example =
    parse_steps-checklist (codes "write tests" ∷ []) (write_tests-IsTitle, tt)
