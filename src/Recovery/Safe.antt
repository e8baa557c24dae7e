-- ===== src/Recovery/Safe.antt =====
-- What a recovered session may still claim.
use duo.Prelude.{◌≡◌, ◌≢◌, ◌⊎◌, inl, inr, Bool, true, false, none, some, Option-cases, arith}
use duo.Text.{Text}
use duo.Text.Laws.{text_eq→eq}
use duo.Project.Agent.{AgentId}
use duo.Store.Record.{StoredSnapshot, stored_mode, verification_result}
use duo.Recovery.Report.{Git, MergeState, Recovered, new_report}
use duo.Recovery.Evidence.{expected_evidence}
use duo.Recovery.Merge.{recover_merge}
use duo.Recovery.Gates.{recover_fast, recover_step}
use duo.Recovery.Signatures.{recheck, recheck_all, sync_tony}
use duo.Recovery.Verdicts.{FastVerdictHolds, StepVerdictHolds, fast_lem, step_lem}
use duo.Recovery.Reconcile.{reconcile, settle}

-- An agent's signature is gone, or it was there and carries what Git shows now.
abbrev pub SignatureHolds : Git → StoredSnapshot → StoredSnapshot → AgentId → Type 0
SignatureHolds git s t agent =
    (t.ready agent ≡ false)
    ⊎ ((s.ready agent ≡ true)
        × (t.evidence agent ≡ s.evidence agent)
        × (expected_evidence git t.phase agent t.plan_version ≡ some (t.evidence agent)))

pub recheck-keeps :
    (git : Git) (signer : AgentId) (r : Recovered)
    → let t = (recheck git signer r).snapshot in
      (t.phase ≡ r.snapshot.phase)
      × (t.plan_version ≡ r.snapshot.plan_version)
      × (t.mode ≡ r.snapshot.mode)
      × (t.verification ≡ r.snapshot.verification)
      × (t.steps ≡ r.snapshot.steps)
      × (t.step ≡ r.snapshot.step)
unfolding recheck
recheck-keeps git signer r = ground arith

austin_holds :
    (git : Git) (r : Recovered)
    → SignatureHolds git r.snapshot (recheck git AgentId.austin r).snapshot AgentId.austin
unfolding recheck
austin_holds git r =
    elim (Option-cases
      (expected_evidence git r.snapshot.phase AgentId.austin r.snapshot.plan_version)) [
        | inl e ↦ ground arith
        | inr (x, e) ↦ ground (arith, text_eq→eq x (r.snapshot.evidence AgentId.austin))
      ]

tony_holds :
    (git : Git) (r : Recovered)
    → SignatureHolds git r.snapshot (recheck git AgentId.tony r).snapshot AgentId.tony
unfolding recheck
tony_holds git r =
    elim (Option-cases
      (expected_evidence git r.snapshot.phase AgentId.tony r.snapshot.plan_version)) [
        | inl e ↦ ground arith
        | inr (x, e) ↦ ground (arith, text_eq→eq x (r.snapshot.evidence AgentId.tony))
      ]

-- A check of one agent leaves the other's signature alone.
pub recheck-others :
    (git : Git) (r : Recovered)
    → ((recheck git AgentId.austin r).snapshot.ready AgentId.tony ≡ r.snapshot.ready AgentId.tony)
      × ((recheck git AgentId.austin r).snapshot.evidence AgentId.tony
          ≡ r.snapshot.evidence AgentId.tony)
      × ((recheck git AgentId.tony r).snapshot.ready AgentId.austin
          ≡ r.snapshot.ready AgentId.austin)
      × ((recheck git AgentId.tony r).snapshot.evidence AgentId.austin
          ≡ r.snapshot.evidence AgentId.austin)
unfolding recheck
recheck-others git r = ground arith

sync_keeps : (git : Git) (r : Recovered) → (sync_tony git r).snapshot ≡ r.snapshot
unfolding sync_tony
sync_keeps git r = ground arith

gates_keep :
    (git : Git) (r : Recovered)
    → let t = (recover_step git (recover_fast git r)).snapshot in
      (t.ready ≡ r.snapshot.ready)
      × (t.evidence ≡ r.snapshot.evidence)
      × (t.plan_version ≡ r.snapshot.plan_version)
      × (t.mode ≡ r.snapshot.mode)
unfolding recover_step recover_fast
gates_keep git r = ground arith

merge_keeps :
    (git : Git) (r t : Recovered)
    → recover_merge git r ≡ some t
    → (t.snapshot.ready ≡ r.snapshot.ready)
      × (t.snapshot.evidence ≡ r.snapshot.evidence)
      × (t.snapshot.plan_version ≡ r.snapshot.plan_version)
      × (t.snapshot.mode ≡ r.snapshot.mode)
unfolding recover_merge
merge_keeps git r t h = ground arith

signatures_hold :
    (git : Git) (r : Recovered)
    → let t = (recheck_all git r).snapshot in
      SignatureHolds git r.snapshot t AgentId.austin × SignatureHolds git r.snapshot t AgentId.tony
unfolding recheck_all
signatures_hold git r =
    let u = recheck git AgentId.austin r in
    ground (
      arith,
      austin_holds git r,
      tony_holds git u,
      recheck-others git r,
      recheck-others git u,
      recheck-keeps git AgentId.austin r,
      recheck-keeps git AgentId.tony u,
    )

settle_signatures :
    (git : Git) (r : Recovered)
    → let t = (settle git r).snapshot in
      SignatureHolds git r.snapshot t AgentId.austin × SignatureHolds git r.snapshot t AgentId.tony
unfolding settle
settle_signatures git r =
    let u = recover_step git (recover_fast git r) in
    ground (arith, signatures_hold git u, gates_keep git r, sync_keeps git (recheck_all git u))

recover_total :
    (git : Git) (m : MergeState) (austin tony : Text) (ancestor : Bool) (r : Recovered)
    → git.merge_state AgentId.austin ≡ some m
    → git.head AgentId.austin ≡ some austin
    → git.head AgentId.tony ≡ some tony
    → git.is_ancestor AgentId.austin tony austin ≡ some ancestor
    → recover_merge git r ≢ none
unfolding recover_merge
recover_total git m austin tony ancestor r hm ha ht hi e = ground arith

pub reconcile_lem :
    (git : Git) (snap : StoredSnapshot) (r : Recovered)
    → recover_merge git (new_report snap) ≡ some r
    → reconcile git snap ≡ some (settle git r)
unfolding reconcile
reconcile_lem git snap r e = ground arith

pub record IsTrustworthy (git : Git) (s t : StoredSnapshot) : Type 0 where
  pub austin : SignatureHolds git s t AgentId.austin
  pub tony : SignatureHolds git s t AgentId.tony
  pub fast_verdict : FastVerdictHolds git t
  pub step_verdict : StepVerdictHolds git t

-- What `recheck_all` and `sync_tony` leave alone.
pub settled_fields :
    (git : Git) (r : Recovered)
    → let g = (recover_step git (recover_fast git r)).snapshot in
      let t = (settle git r).snapshot in
      (t.mode ≡ g.mode)
      × (t.phase ≡ g.phase)
      × (t.verification ≡ g.verification)
      × (t.steps ≡ g.steps)
      × (t.step ≡ g.step)
unfolding settle recheck_all
settled_fields git r =
    let g = recover_step git (recover_fast git r) in
    let a = recheck git AgentId.austin g in
    ground (
      arith,
      sync_keeps git (recheck_all git g),
      recheck-keeps git AgentId.austin g,
      recheck-keeps git AgentId.tony a,
    )

-- The signatures that the two checks leave.
pub settle_ready :
    (git : Git) (r : Recovered) (agent : AgentId)
    → let g = recover_step git (recover_fast git r) in
      (settle git r).snapshot.ready agent ≡ (recheck_all git g).snapshot.ready agent
unfolding settle
settle_ready git r agent =
    ground (arith, sync_keeps git (recheck_all git (recover_step git (recover_fast git r))))

fast_kept :
    (git : Git) (r : Recovered)
    → FastVerdictHolds git r.snapshot
    → FastVerdictHolds git (recover_step git r).snapshot
unfolding recover_step verification_result stored_mode
fast_kept git r h = ground arith

same_verdicts :
    (git : Git) (s t : StoredSnapshot)
    → t.mode ≡ s.mode
    → t.phase ≡ s.phase
    → t.verification ≡ s.verification
    → t.steps ≡ s.steps
    → t.step ≡ s.step
    → FastVerdictHolds git s
    → StepVerdictHolds git s
    → FastVerdictHolds git t × StepVerdictHolds git t
unfolding verification_result stored_mode
same_verdicts git s t m p v q c f h = rw (m, p, v, q, c) (f, h)

verdicts_hold :
    (git : Git) (r : Recovered)
    → let t = (settle git r).snapshot in FastVerdictHolds git t × StepVerdictHolds git t
verdicts_hold git r =
    let f = recover_fast git r in
    let g = recover_step git f in
    let (mode, phase, verification, steps, step) = settled_fields git r in
    same_verdicts git g.snapshot (settle git r).snapshot mode phase verification steps step
      (fast_kept git f (fast_lem git r)) (step_lem git f)

-- If Git answers for the two worktrees, a recovery succeeds, and what it keeps holds: each agent's
-- signature is gone, or it was on record and its evidence, unchanged, is what Git shows now for the
-- recovered phase; a passed Fast verdict in VERIFY is about Austin's present commit; and an open FAST
-- step in INTEGRATE was passed by Tony at Austin's present commit.
pub reconcile-IsTrustworthy :
    (git : Git) (m : MergeState) (austin tony : Text) (ancestor : Bool) (snap : StoredSnapshot)
    → git.merge_state AgentId.austin ≡ some m
    → git.head AgentId.austin ≡ some austin
    → git.head AgentId.tony ≡ some tony
    → git.is_ancestor AgentId.austin tony austin ≡ some ancestor
    → (r : Recovered) × (reconcile git snap ≡ some r) × IsTrustworthy git snap r.snapshot
unfolding new_report
reconcile-IsTrustworthy git m austin tony ancestor snap hm ha ht hi =
    elim (Option-cases (recover_merge git (new_report snap))) [
      | inl e ↦ absurd (recover_total git m austin tony ancestor (new_report snap) hm ha ht hi e)
      | inr (r, e) ↦
          let (holds_austin, holds_tony) = settle_signatures git r in
          let (fast, step) = verdicts_hold git r in
          let same = merge_keeps git (new_report snap) r e in
          (
            settle git r,
            reconcile_lem git snap r e,
            record {
              austin = ground arith;
              tony = ground arith;
              fast_verdict = fast;
              step_verdict = step;
            },
          )
    ]
