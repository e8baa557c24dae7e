-- ===== src/Recovery/Verdicts.antt =====
-- The verdicts that a recovered session rests on.
use duo.Prelude.{
  ◌≡◌, ◌≢◌, ◌⊎◌, inl, inr, true, false, none, some, Option-cases, Bool-cases, ◌&&◌, not, arith,
}
use duo.Text.{Text, trim_space}
use duo.Text.Laws.{text_eq→eq}
use duo.Project.Agent.{AgentId}
use duo.Project.Mode.{Mode, Phase}
use duo.Project.Verification.{VerificationResult, targets}
use duo.Project.Steps.{Step, effective_policy}
use duo.Store.Record.{StoredSnapshot, stored_mode, step_under, verification_result}
use duo.Recovery.Report.{Git, Recovered}
use duo.Recovery.Gates.{recover_fast, recover_step, is_reviewed, is_open_fast}

-- Fast: a passed verdict in VERIFY is about the commit that Austin's worktree shows.
abbrev pub FastVerdictHolds : Git → StoredSnapshot → Type 0
FastVerdictHolds git t =
    (stored_mode t ≢ Mode.fast)
    ⊎ ((t.phase ≢ Phase.verify)
        ⊎ (((verification_result t).status ≢ VerificationResult.passed)
            ⊎ (git.capture AgentId.austin ≡ some (trim_space (verification_result t).head))))

-- A step needs no verdict of Tony's, or he passed the commit that Austin's worktree shows.
abbrev pub StepReviewed : Git → Step → Type 0
StepReviewed git st =
    (st.done ≡ true)
    ⊎ ((effective_policy st ≡ Mode.goal)
        ⊎ ((st.verification.status ≡ VerificationResult.passed)
            × ((head : Text) × (git.capture AgentId.austin ≡ some head)
                × (targets st.verification head ≡ true))))

-- Step: the step under the cursor in INTEGRATE is reviewed.
abbrev pub StepVerdictHolds : Git → StoredSnapshot → Type 0
StepVerdictHolds git t =
    (stored_mode t ≢ Mode.step)
    ⊎ ((t.phase ≢ Phase.integrate)
        ⊎ ((step_under t.steps t.step ≡ none)
            ⊎ ((st : Step) × (step_under t.steps t.step ≡ some st) × StepReviewed git st)))

pub fast_lem : (git : Git) (r : Recovered) → FastVerdictHolds git (recover_fast git r).snapshot
unfolding recover_fast verification_result
fast_lem git r = elim (Option-cases (git.capture AgentId.austin)) [
  | inl e ↦ ground arith
  | inr (x, e) ↦ ground (arith, text_eq→eq x (trim_space (verification_result r.snapshot).head))
]

fine_lem :
    (git : Git) (st : Step)
    → (is_open_fast st && not (is_reviewed (git.capture AgentId.austin) st)) ≡ false
    → StepReviewed git st
unfolding is_reviewed is_open_fast
fine_lem git st h = elim (Option-cases (git.capture AgentId.austin)) [
  | inl e ↦ ground arith
  | inr (head, e) ↦ elim (Bool-cases (targets st.verification head)) [
    | inl bound ↦ ground arith
    | inr free ↦ ground arith
  ]
]

kept_step :
    (git : Git) (r : Recovered) (st : Step)
    → step_under r.snapshot.steps r.snapshot.step ≡ some st
    → (is_open_fast st && not (is_reviewed (git.capture AgentId.austin) st)) ≡ false
    → recover_step git r ≡ r
unfolding recover_step
kept_step git r st e h = ground arith

pub step_lem : (git : Git) (r : Recovered) → StepVerdictHolds git (recover_step git r).snapshot
step_lem git r =
    let q = r.snapshot in
    elim (Option-cases (step_under q.steps q.step)) [
      | inl e ↦ unfold recover_step in ground arith
      | inr (st, e) ↦
          elim (Bool-cases (is_open_fast st && not (is_reviewed (git.capture AgentId.austin) st))) [
            | inl stale ↦ unfold recover_step in ground arith
            | inr fine ↦
                let same = kept_step git r st e fine in
                rw same (inr (inr (inr (st, e, fine_lem git st fine))))
          ]
    ]
