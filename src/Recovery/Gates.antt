-- ===== src/Recovery/Gates.antt =====
-- internal/recovery/recovery.go, Reconcile: verdicts that no longer bind Austin's artifact.
use duo.Prelude.{
  Bool, false, ◌&&◌, not, Option, none, some, [], ◌∷◌, ◌++◌, if◌then◌else◌, ℤ, pos, negsuc,
}
use duo.Text.{Text, codes, text_eq, trim_space}
use duo.Project.Agent.{AgentId, put}
use duo.Project.Mode.{Mode, Phase, mode_eq, phase_eq}
use duo.Project.Verification.{Verification, no_verification, is_passed, targets}
use duo.Project.Steps.{Step, Steps, effective_policy, update_step}
use duo.Store.Record.{stored_mode, step_under}
use duo.Recovery.Report.{Git, RecoveryNote, Recovered}
use duo.Recovery.Evidence.{fast_verification_target}
use duo.Recovery.Merge.{add_note, set_phase}

-- Whether Austin's captured artifact is the one of this head.
abbrev pub binds : Option Text → Text → Bool
binds none head = false
binds (some target) head = text_eq target head

revoke_verification : Recovered → Recovered
revoke_verification r =
    let moved = add_note RecoveryNote.stale_verification (set_phase Phase.running r) in
    record moved {
      snapshot = record (moved.snapshot) {
        verification = none;
        notes = put (put r.snapshot.notes AgentId.tony (codes "")) AgentId.austin (
            codes
              "the verified artifact changed; verification revoked on resume, request verification again when ready");
      };
      report = record (moved.report) { revoked = r.report.revoked ++ AgentId.austin ∷ [] };
    }

abbrev passed_head : Option Verification → Option Text
passed_head none = none
passed_head (some v) = if is_passed v.status then some v.head else none

-- Fast: a passed verdict in VERIFY has to be about the artifact that is there.
unfoldable pub recover_fast : Git → Recovered → Recovered
unfolding revoke_verification fast_verification_target stored_mode text_eq trim_space
recover_fast git r =
    if mode_eq (stored_mode r.snapshot) Mode.fast && phase_eq r.snapshot.phase Phase.verify
    then elim (passed_head r.snapshot.verification) [
      | none ↦ r
      | some head ↦
          if binds (fast_verification_target git) (trim_space head)
          then r
          else revoke_verification r
    ]
    else r

-- `cur.Verification` passed Austin's captured artifact.
unfoldable pub is_reviewed : Option Text → Step → Bool
unfolding targets
is_reviewed none st = false
is_reviewed (some head) st = is_passed st.verification.status && targets st.verification head

-- A write to `steps[step-1]`.
unfoldable pub update_under : Steps → ℤ → (Step → Step) → Steps
unfolding update_step
update_under steps (negsuc n) f = steps
update_under steps (pos n) f = update_step steps n f

abbrev pub clear_verdict : Step → Step
clear_verdict st = record st { verification = no_verification }

unfoldable pub back_to_review : Recovered → Recovered
unfolding update_under
back_to_review r =
    let moved = add_note (RecoveryNote.under_review r.snapshot.step) (set_phase Phase.review r) in
    record moved {
      snapshot = record (moved.snapshot) {
        steps = update_under r.snapshot.steps r.snapshot.step clear_verdict;
      };
    }

-- Whether the step is open under the FAST policy.
unfoldable pub is_open_fast : Step → Bool
unfolding effective_policy
is_open_fast st = not st.done && mode_eq (effective_policy st) Mode.fast

-- Step: INTEGRATE of a FAST step has to rest on a verdict about the artifact that is there.
unfoldable pub recover_step : Git → Recovered → Recovered
unfolding back_to_review is_reviewed is_open_fast fast_verification_target stored_mode step_under
recover_step git r =
    if mode_eq (stored_mode r.snapshot) Mode.step && phase_eq r.snapshot.phase Phase.integrate
    then elim (step_under r.snapshot.steps r.snapshot.step) [
      | none ↦ r
      | some st ↦
          if is_open_fast st
          then if is_reviewed (fast_verification_target git) st then r else back_to_review r
          else r
    ]
    else r
