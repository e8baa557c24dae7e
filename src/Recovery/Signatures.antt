-- ===== src/Recovery/Signatures.antt =====
-- internal/recovery/recovery.go, Reconcile: signatures whose evidence Git no longer shows, and the
-- verifier's worktree.
use duo.Prelude.{false, ◌||◌, not, Option, none, some, [], ◌∷◌, ◌++◌, if◌then◌else◌, is_empty}
use duo.Text.{Text, codes, text_eq, trim_space, is_blank}
use duo.Project.Agent.{AgentId, put}
use duo.Project.Mode.{Mode, mode_eq}
use duo.Project.Steps.{Step, Steps}
use duo.Store.Record.{stored_mode}
use duo.Recovery.Report.{Git, StepSync, RecoveryNote, Recovered}
use duo.Recovery.Evidence.{expected_evidence}
use duo.Recovery.Merge.{add_note}

unfoldable pub revoke : AgentId → Text → Recovered → Recovered
revoke signer note r = record r {
  snapshot = record (r.snapshot) {
    ready = put r.snapshot.ready signer false;
    evidence = put r.snapshot.evidence signer (codes "");
    notes = put r.snapshot.notes signer note;
  };
  report = record (r.report) { revoked = r.report.revoked ++ signer ∷ [] };
}

-- One round of the loop over the agents.
unfoldable pub recheck : Git → AgentId → Recovered → Recovered
unfolding revoke is_blank text_eq
recheck git signer r =
    if not (r.snapshot.ready signer)
    then r
    else elim (expected_evidence git r.snapshot.phase signer r.snapshot.plan_version) [
      | none ↦
          revoke signer
            (codes "signed target is no longer clean/reviewable; readiness revoked on resume") r
      | some expected ↦
          if is_blank expected || not (text_eq expected (r.snapshot.evidence signer))
          then revoke signer (codes "signed target changed; readiness revoked on resume") r
          else r
    ]

unfoldable pub recheck_all : Git → Recovered → Recovered
unfolding recheck
recheck_all git r = recheck git AgentId.tony (recheck git AgentId.austin r)

-- The last step that is done, if there is one.
unfoldable pub last_done : Steps → Option Step
last_done [] = none
last_done (st ∷ rest) =
    let later = last_done rest in
    elim later [ some found ↦ some found | none ↦ if st.done then some st else none ]

-- `lastLandedStepHead`, from the end of the queue.
unfoldable pub last_landed_head : Steps → Text
unfolding last_done trim_space
last_landed_head steps = elim (last_done steps) [
  | none ↦ codes ""
  | some st ↦ trim_space st.delivery_head
]

abbrev note_sync : Option StepSync → Recovered → Recovered
note_sync none r = add_note RecoveryNote.sync_failed r
note_sync (some sync) r =
    if sync.skipped
    then add_note (RecoveryNote.sync_skipped sync.reason) r
    else if sync.moved
    then add_note (RecoveryNote.sync_moved sync.head) r
    else r

-- Step: Tony's worktree follows the last step that landed.
unfoldable pub sync_tony : Git → Recovered → Recovered
unfolding last_landed_head stored_mode
sync_tony git r =
    if mode_eq (stored_mode r.snapshot) Mode.step
    then (let landed = last_landed_head r.snapshot.steps in
        if is_empty landed then r else note_sync (git.sync_tony landed) r)
    else r
