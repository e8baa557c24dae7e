-- ===== src/Recovery/Modes.antt =====
-- Resumes of internal/recovery/recovery.go that the mode or the phase of the session decides.
use duo.Prelude.{◌≡◌, ◌∙◌, ap, inl, inr, refl, true, false, none, some, Option-cases, arith}
use duo.Text.{Text}
use duo.Project.Agent.{AgentId, is_peer}
use duo.Project.Mode.{Mode, Phase}
use duo.Project.Verification.{Time}
use duo.Project.State.{State}
use duo.Project.Snapshot.{effective_mode}
use duo.Project.Restore
use duo.Store.Record.{StoredSnapshot, stored_mode}
use duo.Recovery.Report.{Git, MergeState, Recovered, RecoveryNote, new_report}
use duo.Recovery.Evidence.{expected_evidence}
use duo.Recovery.Merge.{recover_merge, integrated}
use duo.Recovery.Gates.{recover_fast, recover_step}
use duo.Recovery.Signatures.{recheck, recheck_all}
use duo.Recovery.Reconcile.{reconcile, settle}
use duo.Recovery.Safe.{recheck-others, settled_fields, settle_ready, reconcile_lem}
use duo.Recovery.Compose.{project_snapshot}
use duo.Recovery.Resume.{reconcile_and_apply}

no_fast_integrate :
    (now : Time) (git : Git) (snap : StoredSnapshot) (r : Recovered) (s : State)
    → stored_mode r.snapshot ≡ Mode.fast
    → r.snapshot.phase ≡ Phase.integrate
    → reconcile git snap ≡ some r
    → reconcile_and_apply now git snap s ≡ none
unfolding reconcile_and_apply Restore.restore project_snapshot effective_mode stored_mode
no_fast_integrate now git snap r s m p e = ground arith

-- An interrupted merge of a session that is neither Step nor LOOP is an integration.
interrupted_lem :
    (git : Git) (m : MergeState) (head : Text) (snap : StoredSnapshot)
    → stored_mode snap ≡ Mode.fast
    → git.merge_state AgentId.austin ≡ some m
    → m.in_progress ≡ true
    → git.head AgentId.austin ≡ some head
    → (r : Recovered) × (recover_merge git (new_report snap) ≡ some r)
      × (stored_mode r.snapshot ≡ Mode.fast)
      × (r.snapshot.phase ≡ Phase.integrate)
unfolding recover_merge new_report stored_mode
interrupted_lem git m head snap f hm p h = (
  integrated
      (record {
        started = true;
        conflicted = m.conflicted;
        head = head;
        merged_tony = m.merge_head;
      })
      RecoveryNote.interrupted_merge (new_report snap),
  ground arith,
  ground arith,
  ground arith,
)

gates_keep_integrate :
    (git : Git) (r : Recovered)
    → stored_mode r.snapshot ≡ Mode.fast
    → r.snapshot.phase ≡ Phase.integrate
    → recover_step git (recover_fast git r) ≡ r
unfolding recover_step recover_fast stored_mode
gates_keep_integrate git r m p = ground arith

-- A Fast session cannot be resumed while a merge is in progress in Austin's worktree, whatever Git
-- answers: the recovery moves it to INTEGRATE, a phase that Fast has not, and the restore refuses it.
pub fast_merge_blocks_resume :
    (now : Time) (git : Git) (m : MergeState) (snap : StoredSnapshot) (s : State)
    → stored_mode snap ≡ Mode.fast
    → git.merge_state AgentId.austin ≡ some m
    → m.in_progress ≡ true
    → reconcile_and_apply now git snap s ≡ none
unfolding reconcile_and_apply reconcile recover_merge new_report
fast_merge_blocks_resume now git m snap s f hm p = elim (Option-cases (git.head AgentId.austin)) [
  | inl e ↦ ground arith
  | inr (head, e) ↦
      let (r, landed, mode, phase) = interrupted_lem git m head snap f hm p e in
      no_fast_integrate now git snap (settle git r) s
        (ground (arith, settled_fields git r, gates_keep_integrate git r mode phase))
        (ground (arith, settled_fields git r, gates_keep_integrate git r mode phase))
        (reconcile_lem git snap r landed)
]

done_kept :
    (git : Git) (m : MergeState) (snap : StoredSnapshot)
    → snap.phase ≡ Phase.done
    → git.merge_state AgentId.austin ≡ some m
    → m.in_progress ≡ false
    → reconcile git snap ≡ some (settle git (new_report snap))
unfolding reconcile recover_merge new_report
done_kept git m snap d hm p = ground arith

new_report_phase :
    (snap : StoredSnapshot)
    → snap.phase ≡ Phase.done
    → (new_report snap).snapshot.phase ≡ Phase.done
unfolding new_report
new_report_phase snap d = d

done_gates :
    (git : Git) (r : Recovered)
    → r.snapshot.phase ≡ Phase.done
    → recover_step git (recover_fast git r) ≡ r
unfolding recover_step recover_fast
done_gates git r d = ground arith

done_recheck :
    (git : Git) (agent : AgentId) (r : Recovered)
    → is_peer agent ≡ true
    → r.snapshot.phase ≡ Phase.done
    → let t = (recheck git agent r).snapshot in (t.phase ≡ Phase.done) × (t.ready agent ≡ false)
unfolding recheck expected_evidence
done_recheck git agent r peer d = ground arith

done_signatures :
    (git : Git) (r : Recovered)
    → r.snapshot.phase ≡ Phase.done
    → let t = (recheck_all git r).snapshot in
      (t.ready AgentId.austin ≡ false) × (t.ready AgentId.tony ≡ false)
unfolding recheck_all
done_signatures git r d =
    let a = recheck git AgentId.austin r in
    let (phase, austin) = done_recheck git AgentId.austin r refl d in
    let (done, tony) = done_recheck git AgentId.tony a refl phase in
    ground (arith, recheck-others git a)

-- A session that is DONE, with no merge in progress in Austin's worktree, stays DONE on a resume, and
-- the signatures of both agents are revoked, for no DONE session has evidence to check them against.
pub resume-done :
    (git : Git) (m : MergeState) (snap : StoredSnapshot)
    → snap.phase ≡ Phase.done
    → git.merge_state AgentId.austin ≡ some m
    → m.in_progress ≡ false
    → (r : Recovered) × (reconcile git snap ≡ some r)
      × (r.snapshot.phase ≡ Phase.done)
      × (r.snapshot.ready AgentId.austin ≡ false)
      × (r.snapshot.ready AgentId.tony ≡ false)
resume-done git m snap d hm p =
    let n = new_report snap in
    let g = recover_step git (recover_fast git n) in
    let phase = new_report_phase snap d in
    let same = done_gates git n phase in
    let signatures = done_signatures git g (ap (λ r. r.snapshot.phase) same ∙ phase) in
    let fields = settled_fields git n in
    (
      settle git n,
      done_kept git m snap d hm p,
      ground arith,
      settle_ready git n AgentId.austin ∙ signatures.0,
      settle_ready git n AgentId.tony ∙ signatures.1,
    )
