-- ===== src/Service/Approved.antt =====
-- What has to be on record before an artifact is delivered: the gates of DeliverAndPersistTo in
-- internal/session/delivery.go.
use duo.Prelude.{◌≡◌, ◌⊎◌, inl, inr, arith, true, false, none, some, Option-cases, [], pos}
use duo.Text.{Text, trim_space, is_blank}
use duo.Text.Laws.{text_eq→eq}
use duo.Project.Agent.{AgentId}
use duo.Project.Mode.{Mode, Phase}
use duo.Project.Verification.{Verification, VerificationResult, targets, passes}
use duo.Project.Steps.{Step, step_at, effective_policy, first_open_step}
use duo.Project.Steps.Laws.{step_at-finished}
use duo.Store.Record.{StoredSnapshot, stored_mode, verification_result, step_under}
use duo.Service.World.{Env, Status, austin_status}
use duo.Service.Head.{current_policy, step_verdict_binds}
use duo.Service.Gates.{
  gate, signature_gate, artifact_gate, worktree_gate, signs, is_signable, needs_verdict,
  needs_signatures,
}

-- A passed verdict on the head.
abbrev pub IsVerdict : Verification → Text → Type 0
IsVerdict v head = (v.status ≡ VerificationResult.passed) × (trim_space v.head ≡ trim_space head)

abbrev pub Signs : StoredSnapshot → Text → AgentId → Type 0
Signs snap head agent = (snap.ready agent ≡ true) × (trim_space (snap.evidence agent) ≡ head)

-- The cursor is at the first open step, as in every valid session.
abbrev pub HasCursor : StoredSnapshot → Type 0
HasCursor snap = snap.step ≡ pos (first_open_step snap.steps)

policy-cases : (st : Step) → (effective_policy st ≡ Mode.goal) ⊎ (effective_policy st ≡ Mode.fast)
unfolding effective_policy
policy-cases st = ground arith

module _ {W : Type 0} (env : Env W) (r : W) where
  -- Austin's worktree, where it can be read, is clean and at the head.
  abbrev pub IsAtHead : Text → Type 0
  IsAtHead head =
      (st : Status)
      → is_blank env.set.austin.path ≡ false
      → austin_status env r ≡ some st
      → (st.dirty ≡ false) × (st.head ≡ head)

  -- What lets an artifact pass, in each mode.
  pub data IsApproved (snap : StoredSnapshot) (head : Text) : Type 0 where
    verified :
        stored_mode snap ≡ Mode.fast
        → IsVerdict (verification_result snap) head
        → IsApproved snap head
    step_verified :
        stored_mode snap ≡ Mode.step
        → (st : Step) → step_under snap.steps snap.step ≡ some st
        → effective_policy st ≡ Mode.fast
        → IsVerdict st.verification head
        → IsApproved snap head
    signed :
        (stored_mode snap ≡ Mode.goal) ⊎ (stored_mode snap ≡ Mode.step)
        → (snap.phase ≡ Phase.integrate) ⊎ (snap.phase ≡ Phase.done)
        → IsAtHead head
        → Signs snap head AgentId.austin
        → Signs snap head AgentId.tony
        → IsApproved snap head
    settled :
        stored_mode snap ≡ Mode.loop
        → snap.phase ≡ Phase.integrate
        → snap.loop.finishing ≡ true
        → (st : Status) → austin_status env r ≡ some st
        → st.dirty ≡ false
        → (st.head ≡ head) ⊎ (st.head ≡ [])
        → IsApproved snap head

  artifact-IsAtHead :
      (snap : StoredSnapshot) (head : Text) → artifact_gate env r snap head ≡ none → IsAtHead head
  unfolding artifact_gate worktree_gate
  artifact-IsAtHead snap head h st p e = ground (arith, text_eq→eq st.head head)

  signs-Signs :
      (snap : StoredSnapshot) (head : Text) (a : AgentId)
      → signs snap head a ≡ true
      → Signs snap head a
  unfolding signs
  signs-Signs snap head a h = ground (arith, text_eq→eq (trim_space (snap.evidence a)) head)

  signature_lem :
      (snap : StoredSnapshot) (head : Text)
      → signature_gate env r snap head ≡ none
      → (is_signable snap ≡ true)
        × (artifact_gate env r snap head ≡ none)
        × (signs snap head AgentId.austin ≡ true)
        × (signs snap head AgentId.tony ≡ true)
  unfolding signature_gate
  signature_lem snap head h = elim (Option-cases (artifact_gate env r snap head)) [
    | inl e ↦ ground arith
    | inr (f, e) ↦ ground arith
  ]

  is_signable_lem :
      (snap : StoredSnapshot)
      → is_signable snap ≡ true
      → (snap.phase ≡ Phase.integrate) ⊎ (snap.phase ≡ Phase.done)
  unfolding is_signable
  is_signable_lem snap h = ground arith

  pub signature-IsApproved :
      (snap : StoredSnapshot) (head : Text)
      → (stored_mode snap ≡ Mode.goal) ⊎ (stored_mode snap ≡ Mode.step)
      → signature_gate env r snap head ≡ none
      → IsApproved snap head
  signature-IsApproved snap head m h =
      let (p, a, x, y) = signature_lem snap head h in
      IsApproved.signed m (is_signable_lem snap p) (artifact-IsAtHead snap head a)
        (signs-Signs snap head AgentId.austin x) (signs-Signs snap head AgentId.tony y)

  passed-IsVerdict : (v : Verification) (head : Text) → passes v head ≡ true → IsVerdict v head
  unfolding passes targets
  passed-IsVerdict v head h = ground (arith, text_eq→eq (trim_space v.head) (trim_space head))

  pub fast-IsApproved :
      (snap : StoredSnapshot) (head : Text)
      → stored_mode snap ≡ Mode.fast
      → gate env r snap head ≡ none
      → IsApproved snap head
  unfolding gate
  fast-IsApproved snap head m h =
      IsApproved.verified m (passed-IsVerdict (verification_result snap) head (ground arith))

  pub goal-IsApproved :
      (snap : StoredSnapshot) (head : Text)
      → stored_mode snap ≡ Mode.goal
      → gate env r snap head ≡ none
      → IsApproved snap head
  unfolding gate needs_verdict needs_signatures
  goal-IsApproved snap head m h = signature-IsApproved snap head (inl m) (ground arith)

  -- The step under the cursor has a verdict on the head, or both have signed.
  step_gate :
      (snap : StoredSnapshot) (head : Text)
      → stored_mode snap ≡ Mode.step
      → HasCursor snap
      → gate env r snap head ≡ none
      → ((st : Step) × (step_under snap.steps snap.step ≡ some st)
          × (effective_policy st ≡ Mode.fast)
          × (passes st.verification head ≡ true))
        ⊎ (signature_gate env r snap head ≡ none)
  unfolding gate needs_verdict needs_signatures current_policy step_verdict_binds step_under passes
  step_gate snap head m c h =
      elim (Option-cases (step_at snap.steps (first_open_step snap.steps))) [
        | inl e ↦ inr (ground arith)
        | inr (st, e) ↦ elim (policy-cases st) [
          | inl p ↦ inr (ground (arith, step_at-finished snap.steps))
          | inr p ↦ inl (st, ground arith, p, ground (arith, step_at-finished snap.steps))
        ]
      ]

  pub step-IsApproved :
      (snap : StoredSnapshot) (head : Text)
      → stored_mode snap ≡ Mode.step
      → HasCursor snap
      → gate env r snap head ≡ none
      → IsApproved snap head
  step-IsApproved snap head m c h = elim (step_gate snap head m c h) [
    | inl (st, e, p, v) ↦
        IsApproved.step_verified m st e p (passed-IsVerdict st.verification head v)
    | inr s ↦ signature-IsApproved snap head (inr m) s
  ]
