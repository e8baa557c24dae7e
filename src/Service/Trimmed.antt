-- ===== src/Service/Trimmed.antt =====
-- The head that a session delivers has no space around it: ResolveFinalHead of
-- internal/session/delivery.go, and Status of internal/workspace/git.go.
use duo.Prelude.{◌≡◌, arith, some, Option-cases, inl, inr, >>=-eq-some, [], ◌∷◌, ◌++◌}
use duo.Text.{Text, codes, trim_space}
use duo.Text.Laws.{trim_space_twice}
use duo.Project.Agent.{AgentId}
use duo.Store.Record.{StoredSnapshot, Worktree}
use duo.Delivery.Git.{git_output, rev_parse}
use duo.Delivery.Push.{branch_head}
use duo.Service.World.{Env, Status, austin_head, austin_status}
use duo.Service.Head.{from_worktree, from_branch, from_signatures, from_git, resolve_final_head}

abbrev pub IsTrimmed : Text → Type 0
IsTrimmed t = trim_space t ≡ t

module _ {W : Type 0} (env : Env W) (r : W) where
  from_worktree-IsTrimmed : (wt : Worktree) → IsTrimmed (from_worktree env r wt)
  unfolding from_worktree austin_head
  from_worktree-IsTrimmed wt =
      elim (Option-cases (env.tree r env.set.austin.path (codes "rev-parse" ∷ codes "HEAD" ∷ []))) [
        | inl e ↦ ground arith
        | inr (head, e) ↦ ground (arith, trim_space_twice head)
      ]

  rev_parse-IsTrimmed :
      (dir ref head : Text) → rev_parse env.git r dir ref ≡ some head → IsTrimmed head
  unfolding rev_parse git_output
  rev_parse-IsTrimmed dir ref head h =
      let out =
        env.git.read r dir
          (codes "rev-parse" ∷ codes "--verify" ∷ (ref ++ codes "^{commit}") ∷ []) in
      ground (arith, trim_space_twice out.stdout)

  from_branch-IsTrimmed :
      (snap : StoredSnapshot) (wt : Worktree) → IsTrimmed (from_branch env r snap wt)
  unfolding from_branch branch_head
  from_branch-IsTrimmed snap wt =
      let ref = codes "refs/heads/" ++ trim_space wt.branch in
      elim (Option-cases (rev_parse env.git r snap.repository ref)) [
        | inl e ↦ ground arith
        | inr (head, e) ↦ ground (arith, rev_parse-IsTrimmed snap.repository ref head e)
      ]

  from_signatures-IsTrimmed : (snap : StoredSnapshot) → IsTrimmed (from_signatures env r snap)
  unfolding from_signatures
  from_signatures-IsTrimmed snap = ground (arith, trim_space_twice (snap.evidence AgentId.austin))

  from_git-IsTrimmed : (snap : StoredSnapshot) → IsTrimmed (from_git env r snap)
  unfolding from_git
  from_git-IsTrimmed snap = elim (Option-cases (snap.worktrees AgentId.austin)) [
    | inl e ↦ rw (e, from_git) (from_signatures-IsTrimmed snap)
    | inr (wt, e) ↦ ground (
      arith,
      from_worktree-IsTrimmed wt,
      from_branch-IsTrimmed snap wt,
      from_signatures-IsTrimmed snap,
    )
  ]

  pub resolve_final_head-IsTrimmed :
      (snap : StoredSnapshot) → IsTrimmed (resolve_final_head env r snap)
  unfolding resolve_final_head
  resolve_final_head-IsTrimmed snap = ground (
    arith,
    from_git-IsTrimmed snap,
    trim_space_twice snap.delivery.final_head,
    trim_space_twice snap.integration.head,
  )

  pub status-IsTrimmed : (st : Status) → austin_status env r ≡ some st → IsTrimmed st.head
  unfolding austin_status
  status-IsTrimmed st h =
      let ask = env.tree r env.set.austin.path in
      let (head, e, h1) = >>=-eq-some (ask (codes "rev-parse" ∷ codes "HEAD" ∷ [])) _ h in
      let (porcelain, f, h2) = >>=-eq-some (ask (codes "status" ∷ codes "--porcelain" ∷ [])) _ h1 in
      let (ahead, g, h3) =
        >>=-eq-some
          (ask (codes "rev-list" ∷ codes "--count" ∷ (env.set.base_commit ++ codes "..HEAD") ∷ []))
          _ h2 in
      ground (arith, trim_space_twice head)
