-- ===== src/Workspace/Removed.antt =====
-- When closeLocked of internal/session/service.go removes a session.
use duo.Prelude.{
  ◌≡◌, ◌≢◌, ◌⊎◌, subst, sym, inl, inr, refl, arith, Bool, true, false, Bool-cases, some, List, [],
  ◌∷◌,
}
use duo.Text.{Text, trim_space, is_blank}
use duo.Project.Mode.{Phase}
use duo.Project.Steps.{Steps}
use duo.Project.Snapshot.{Snapshot}
use duo.Store.Record.{DeliveryStatus}
use duo.Workspace.Discard.{Git, Action, discard_unstarted}
use duo.Workspace.Recall.{
  Service, has_landed, recall_blocked, writes_note, discard_recalled, close_removals,
}
use duo.Workspace.Unused.{IsUnused, discarded-IsUnused}

-- No step has a head in the user's repository.
abbrev pub AreUnlanded : Steps → Type 0
AreUnlanded [] = Unit {0}
AreUnlanded (st ∷ steps) = (is_blank st.delivery_head ≡ true) × AreUnlanded steps

-- The session has not started, and git finds no work in its worktrees.
abbrev pub IsUntouched : Git → Service → Type 0
IsUntouched git s =
    ((snap : Snapshot) × (s.state ≡ some snap) × (snap.started ≡ false))
    × IsUnused git (trim_space s.set.base_commit) s.set.austin
    × IsUnused git (trim_space s.set.base_commit) s.set.tony

-- Nothing of the session has reached the user's repository.
pub record IsUndelivered (s : Service) : Type 0 where
  pub pending : s.delivery.status ≢ DeliveryStatus.applied
  pub unfinished : (snap : Snapshot) → s.state ≡ some snap → snap.phase ≢ Phase.done
  pub unlanded : (snap : Snapshot) → s.state ≡ some snap → AreUnlanded snap.steps

has_landed-AreUnlanded : (steps : Steps) → has_landed steps ≡ false → AreUnlanded steps
unfolding has_landed
has_landed-AreUnlanded [] h = tt
has_landed-AreUnlanded (st ∷ steps) h = (ground arith, has_landed-AreUnlanded steps (ground arith))

recall_blocked-IsUndelivered : (s : Service) → recall_blocked s ≡ false → IsUndelivered s
unfolding recall_blocked
recall_blocked-IsUndelivered s h = record {
  pending = λ e. ground arith;
  unfinished = λ snap e p. ground arith;
  unlanded = λ snap e. has_landed-AreUnlanded snap.steps (ground arith);
}

-- The human asked for it, nothing has reached the user's repository, and the note comes first.
abbrev pub IsRecallable : Service → List Action → Type 0
IsRecallable s actions =
    (s.recall ≡ true)
    × IsUndelivered s
    × ((rest : List Action) × (actions ≡ Action.write_recall_note ∷ rest))

discard_recalled-IsRecallable :
    (home : Text) (can_write : Bool) (s : Service)
    → s.recall ≡ true
    → discard_recalled home can_write s ≢ []
    → IsRecallable s (discard_recalled home can_write s)
unfolding discard_recalled
discard_recalled-IsRecallable home can_write s r n = elim (Bool-cases (recall_blocked s)) [
  | inl b ↦ absurd (n (rw b refl))
  | inr b ↦ elim (Bool-cases (writes_note can_write s.set.repository s.session_id)) [
    | inl w ↦ rw (b, w) (r, recall_blocked-IsUndelivered s b, (_, refl))
    | inr w ↦ absurd (n (rw (b, w) refl))
  ]
]

-- Why a removal may happen.
abbrev Permits : Git → Service → List Action → Type 0
Permits git s actions =
    actions ≢ []
    → (s.closed ≡ false) × (((s.recall ≡ false) × IsUntouched git s) ⊎ IsRecallable s actions)

close_removals-cases :
    (git : Git) (home : Text) (can_write : Bool) (s : Service)
    → (close_removals git home can_write s ≡ [])
      ⊎ ((s.closed ≡ false)
          × (((s.recall ≡ true)
                × (close_removals git home can_write s ≡ discard_recalled home can_write s))
              ⊎ ((s.recall ≡ false)
                  × (close_removals git home can_write s
                      ≡ discard_unstarted git home s.has_store s.state s.set))))
unfolding close_removals
close_removals-cases git home can_write s = ground arith

-- A session that is closed and whose end does anything on disk was closed for the first time; and
-- either it was not recalled, it has never started, and git, asked at that moment, has answered for
-- each worktree with a path that it is clean and, where a base commit is recorded, has no commit on
-- top of it; or it was recalled, its delivery is not applied, it is not DONE, no step of its queue has
-- a delivered head, and the recall note is written before anything is removed.
pub removal_is_allowed :
    (git : Git) (home : Text) (can_write : Bool) (s : Service)
    → let actions = close_removals git home can_write s in
      actions ≢ []
      → (s.closed ≡ false) × (((s.recall ≡ false) × IsUntouched git s) ⊎ IsRecallable s actions)
removal_is_allowed git home can_write s = elim (close_removals-cases git home can_write s) [
  | inl e ↦ λ n. absurd (n e)
  | inr (c, inl (r, e)) ↦
      subst (Permits git s) (sym e)
        (λ n. (c, inr (discard_recalled-IsRecallable home can_write s r n)))
  | inr (c, inr (r, e)) ↦
      subst (Permits git s) (sym e)
        (λ n. (c, inl (r, discarded-IsUnused git home s.has_store s.state s.set n)))
]
