-- ===== src/Recovery/Again.antt =====
-- A recovery that is run again, as after a crash during the first one.
use duo.Prelude.{◌≡◌, ◌≢◌, ◌⊎◌, inl, inr, refl, ◌∙◌, sym, ap, true, none, some, Option-cases, arith}
use duo.Project.Agent.{AgentId, is_peer}
use duo.Project.Mode.{Mode, Phase}
use duo.Store.Record.{StoredSnapshot, stored_mode}
use duo.Recovery.Report.{Git, Recovered, new_report}
use duo.Recovery.Evidence.{expected_evidence}
use duo.Recovery.Merge.{recover_merge}
use duo.Recovery.Gates.{recover_fast, recover_step}
use duo.Recovery.Signatures.{recheck, recheck_all, sync_tony}
use duo.Recovery.Safe.{settled_fields, recheck-keeps, recheck-others, reconcile_lem}
use duo.Recovery.Reconcile.{reconcile, settle}

module _ (git : Git) (r q : Recovered) where
  fast_again :
      let t = (recover_step git (recover_fast git r)).snapshot in
      q.snapshot.mode ≡ t.mode
      → q.snapshot.phase ≡ t.phase
      → q.snapshot.verification ≡ t.verification
      → recover_fast git q ≡ q
  unfolding recover_fast recover_step
  fast_again m p v = ground arith

  step_again :
      let t = (recover_step git r).snapshot in
      q.snapshot.mode ≡ t.mode
      → q.snapshot.phase ≡ t.phase
      → q.snapshot.steps ≡ t.steps
      → q.snapshot.step ≡ t.step
      → recover_step git q ≡ q
  unfolding recover_step
  step_again m p s c = ground arith

  sign_again :
      (signer : AgentId)
      → is_peer signer ≡ true
      → let t = (recheck git signer r).snapshot in
        q.snapshot.phase ≡ t.phase
        → q.snapshot.plan_version ≡ t.plan_version
        → q.snapshot.ready signer ≡ t.ready signer
        → q.snapshot.evidence signer ≡ t.evidence signer
        → recheck git signer q ≡ q
  unfolding recheck
  sign_again signer a p n y e =
      elim (Option-cases (expected_evidence git r.snapshot.phase signer r.snapshot.plan_version)) [
        | inl none_ ↦ ground arith
        | inr (x, some_) ↦ ground arith
      ]

sync_snapshot : (git : Git) (r : Recovered) → (sync_tony git r).snapshot ≡ r.snapshot
unfolding sync_tony
sync_snapshot git r = ground arith

-- Agents that are checked again after both have been.
rechecked :
    (git : Git) (r q : Recovered)
    → q.snapshot ≡ (recheck_all git r).snapshot
    → recheck_all git q ≡ q
unfolding recheck_all
rechecked git r q e =
    let a = recheck git AgentId.austin r in
    let austin : recheck git AgentId.austin q ≡ q =
      sign_again git r q AgentId.austin refl (ground (arith, e, recheck-keeps git AgentId.tony a))
        (ground (arith, e, recheck-keeps git AgentId.tony a))
        (ground (arith, e, recheck-others git a)) (ground (arith, e, recheck-others git a)) in
    let tony : recheck git AgentId.tony q ≡ q =
      sign_again git a q AgentId.tony refl (ground (arith, e)) (ground (arith, e))
        (ground (arith, e)) (ground (arith, e)) in
    ap (recheck git AgentId.tony) austin ∙ tony

settle_again :
    (git : Git) (r q : Recovered)
    → q.snapshot ≡ (settle git r).snapshot
    → (settle git q).snapshot ≡ q.snapshot
unfolding settle
settle_again git r q e =
    let f = recover_fast git r in
    let g = recover_step git f in
    let e' : q.snapshot ≡ (recheck_all git g).snapshot =
      e ∙ sync_snapshot git (recheck_all git g) in
    let (m, p, v, s, c) = settled_fields git r in
    let fast : recover_fast git q ≡ q =
      fast_again git r q (ground (arith, e, m)) (ground (arith, e, p)) (ground (arith, e, v)) in
    let step : recover_step git q ≡ q =
      step_again git f q (ground (arith, e, m)) (ground (arith, e, p)) (ground (arith, e, s))
        (ground (arith, e, c)) in
    rw (fast, step, rechecked git g q e') (sync_snapshot git q)

recheck-frame :
    (git : Git) (signer : AgentId) (r : Recovered)
    → let t = (recheck git signer r).snapshot in
      (t.base_commit ≡ r.snapshot.base_commit) × (t.integration ≡ r.snapshot.integration)
unfolding recheck
recheck-frame git signer r = ground arith

gates_frame :
    (git : Git) (r : Recovered)
    → let t = (recover_step git (recover_fast git r)).snapshot in
      (t.mode ≡ r.snapshot.mode)
      × (t.base_commit ≡ r.snapshot.base_commit)
      × (t.integration ≡ r.snapshot.integration)
      × ((t.phase ≡ r.snapshot.phase)
          ⊎ (((t.phase ≡ Phase.running) × (r.snapshot.phase ≡ Phase.verify))
              ⊎ (stored_mode r.snapshot ≡ Mode.step)))
unfolding recover_step recover_fast
gates_frame git r = ground arith

-- What the end of a recovery leaves of the merge: the phase too, but for a revoked Fast verdict and
-- for Step, which has no integration merge.
settle_frame :
    (git : Git) (r : Recovered)
    → let t = (settle git r).snapshot in
      (t.mode ≡ r.snapshot.mode)
      × (t.base_commit ≡ r.snapshot.base_commit)
      × (t.integration ≡ r.snapshot.integration)
      × ((t.phase ≡ r.snapshot.phase)
          ⊎ (((t.phase ≡ Phase.running) × (r.snapshot.phase ≡ Phase.verify))
              ⊎ (stored_mode r.snapshot ≡ Mode.step)))
unfolding settle recheck_all
settle_frame git r =
    let g = recover_step git (recover_fast git r) in
    let a = recheck git AgentId.austin g in
    ground (
      arith,
      settled_fields git r,
      gates_frame git r,
      recheck-frame git AgentId.austin g,
      recheck-frame git AgentId.tony a,
      sync_snapshot git (recheck_all git g),
    )

merge_again :
    (git : Git) (snap t : StoredSnapshot) (r x : Recovered)
    → recover_merge git (new_report snap) ≡ some r
    → recover_merge git (new_report t) ≡ some x
    → t.mode ≡ r.snapshot.mode
    → t.base_commit ≡ r.snapshot.base_commit
    → t.integration ≡ r.snapshot.integration
    → (t.phase ≡ r.snapshot.phase)
      ⊎ (((t.phase ≡ Phase.running) × (r.snapshot.phase ≡ Phase.verify))
          ⊎ (stored_mode r.snapshot ≡ Mode.step))
    → x.snapshot ≡ t
unfolding recover_merge new_report
merge_again git snap t r x h k m b i p = ground arith

merge_defined :
    (git : Git) (snap t : StoredSnapshot) (r : Recovered)
    → recover_merge git (new_report snap) ≡ some r
    → t.mode ≡ r.snapshot.mode
    → (t.phase ≡ r.snapshot.phase)
      ⊎ (((t.phase ≡ Phase.running) × (r.snapshot.phase ≡ Phase.verify))
          ⊎ (stored_mode r.snapshot ≡ Mode.step))
    → recover_merge git (new_report t) ≢ none
unfolding recover_merge new_report
merge_defined git snap t r h m p e = ground arith

reconcile-none :
    (git : Git) (snap : StoredSnapshot) (r : Recovered)
    → recover_merge git (new_report snap) ≡ none
    → reconcile git snap ≢ some r
unfolding reconcile
reconcile-none git snap r e h = ground arith

reconcile-some :
    (git : Git) (snap : StoredSnapshot) (r m : Recovered)
    → recover_merge git (new_report snap) ≡ some m
    → reconcile git snap ≡ some r
    → r ≡ settle git m
unfolding reconcile
reconcile-some git snap r m e h = ground arith

-- A recovery that succeeded can be run again: with the same answers of Git it succeeds and leaves the
-- recovered snapshot as it is.
pub reconcile_again :
    (git : Git) (snap : StoredSnapshot) (r : Recovered)
    → reconcile git snap ≡ some r
    → (x : Recovered) × (reconcile git r.snapshot ≡ some x) × (x.snapshot ≡ r.snapshot)
reconcile_again git snap r h = elim (Option-cases (recover_merge git (new_report snap))) [
  | inl e ↦ absurd (reconcile-none git snap r e h)
  | inr (m, e) ↦
      let done : r ≡ settle git m = reconcile-some git snap r m e h in
      let (mode, base, integration, phase) = settle_frame git m in
      elim (Option-cases (recover_merge git (new_report (settle git m).snapshot))) [
        | inl e' ↦ absurd (merge_defined git snap (settle git m).snapshot m e mode phase e')
        | inr (x, e') ↦
            let same =
              merge_again git snap (settle git m).snapshot m x e e' mode base integration phase in
            (
              settle git x,
              ap (λ y. reconcile git y.snapshot) done
                  ∙ reconcile_lem git (settle git m).snapshot x e',
              settle_again git m x same ∙ same ∙ sym (ap (λ y. y.snapshot) done),
            )
      ]
]
