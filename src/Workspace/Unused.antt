-- ===== src/Workspace/Unused.antt =====
-- What git has said of the worktrees of a session that is discarded: Set.CarriesWork and
-- discardUnstarted.
use duo.Prelude.{
  ◌≡◌, ◌≢◌, ◌⊎◌, inl, inr, refl, arith, Bool, true, false, Bool-cases, Option, none, some,
  Option-cases, [], ◌∷◌, ◌++◌, is_empty,
}
use duo.Text.{Text, codes, text_eq, trim_space, is_blank}
use duo.Text.Laws.{text_eq→eq}
use duo.Project.Snapshot.{Snapshot}
use duo.Store.Record.{Worktree}
use duo.Workspace.Discard.{Set, Git, Work, commits_at, work_at, carries_work, discard_unstarted}

-- The head is the base, or git counts no commit from the base to it.
abbrev pub NoCommits : Git → Text → Text → Type 0
NoCommits git base path =
    (head : Text) × (git path (codes "rev-parse" ∷ codes "HEAD" ∷ []) ≡ some head)
    × ((trim_space head ≡ base)
        ⊎ ((n : Text) × (git path
                (codes "rev-list" ∷ codes "--count" ∷ (base ++ codes "..HEAD") ∷ [])
              ≡ some n)
            × (trim_space n ≡ codes "0")))

-- There is no worktree, or it is clean and has no commit on top of the base.
abbrev pub IsUnused : Git → Text → Worktree → Type 0
IsUnused git base wt =
    (is_blank wt.path ≡ true)
    ⊎ ((t : Text) × (git wt.path (codes "status" ∷ codes "--porcelain" ∷ []) ≡ some t)
        × (is_blank t ≡ true)
        × ((base ≡ []) ⊎ NoCommits git base wt.path))

commits_at-NoCommits :
    (git : Git) (base path : Text)
    → commits_at git base path ≡ Work.nothing
    → NoCommits git base path
unfolding commits_at
commits_at-NoCommits git base path h =
    elim (Option-cases (git path (codes "rev-parse" ∷ codes "HEAD" ∷ []))) [
      | inl e ↦ ground arith
      | inr (head, e) ↦ elim (Bool-cases (text_eq (trim_space head) base)) [
        | inl b ↦ (head, e, inl (text_eq→eq (trim_space head) base b))
        | inr b ↦
            elim (Option-cases
              (git path (codes "rev-list" ∷ codes "--count" ∷ (base ++ codes "..HEAD") ∷ []))) [
                | inl f ↦ ground arith
                | inr (n, f) ↦
                    (head, e, inr (n, f, text_eq→eq (trim_space n) (codes "0") (ground arith)))
              ]
      ]
    ]

is_empty-eq : (t : Text) → is_empty t ≡ true → t ≡ []
is_empty-eq [] h = refl
is_empty-eq (c ∷ t) h = ground arith

work_at-IsUnused :
    (git : Git) (base : Text) (wt : Worktree)
    → work_at git base wt ≡ Work.nothing
    → IsUnused git base wt
unfolding work_at
work_at-IsUnused git base wt h = elim (Bool-cases (is_blank wt.path)) [
  | inl b ↦ inl b
  | inr b ↦ elim (Option-cases (git wt.path (codes "status" ∷ codes "--porcelain" ∷ []))) [
    | inl e ↦ ground arith
    | inr (t, e) ↦ elim (Bool-cases (is_empty base)) [
      | inl c ↦ inr (t, e, ground arith, inl (is_empty-eq base c))
      | inr c ↦ inr (t, e, ground arith, inr (commits_at-NoCommits git base wt.path (ground arith)))
    ]
  ]
]

work-cases : (w : Work) → (w ≡ Work.nothing) ⊎ (w ≢ Work.nothing)
work-cases Work.nothing = inl refl
work-cases Work.carried = inr (λ e. ground arith)
work-cases Work.unreadable = inr (λ e. ground arith)

-- A session that discardUnstarted removes has never started; and git, asked at that moment, has
-- answered for each worktree that has a path that it is clean and, where a base commit is recorded, that its
-- head is the base or has no commit on top of it.
pub discarded-IsUnused :
    (git : Git) (home : Text) (has_store : Bool) (state : Option Snapshot) (s : Set)
    → discard_unstarted git home has_store state s ≢ []
    → ((snap : Snapshot) × (state ≡ some snap) × (snap.started ≡ false))
      × IsUnused git (trim_space s.base_commit) s.austin
      × IsUnused git (trim_space s.base_commit) s.tony
unfolding discard_unstarted carries_work
discarded-IsUnused git home has_store none s h = ground arith
discarded-IsUnused git home has_store (some snap) s h =
    elim (work-cases (work_at git (trim_space s.base_commit) s.austin)) [
      | inr e ↦ ground arith
      | inl e ↦ elim (work-cases (work_at git (trim_space s.base_commit) s.tony)) [
        | inr f ↦ ground arith
        | inl f ↦ (
          (snap, refl, ground arith),
          work_at-IsUnused git (trim_space s.base_commit) s.austin e,
          work_at-IsUnused git (trim_space s.base_commit) s.tony f,
        )
      ]
    ]
