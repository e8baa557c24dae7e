-- ===== src/Tests/Discards.antt =====
-- The theorems on the end of a session at a concrete one.
use duo.Prelude.{◌≡◌, ◌⊎◌, ◌++◌, refl, arith, true, false, none, some, [], ◌∷◌, if◌then◌else◌}
use duo.Text.{codes, text_eq, is_space}
use duo.Project.Mode.{Mode}
use duo.Project.State.{new_state_for}
use duo.Project.Snapshot.{Snapshot, snapshot}
use duo.Workspace.Paths.{clean}
use duo.Workspace.Discard.{
  Set, Git, Action, discard, discard_unstarted, carries_work, removed_dirs, removed_record,
}
use duo.Workspace.Recall.{Service, close_removals}
use duo.Workspace.Removed.{IsUntouched, IsRecallable, removal_is_allowed}
use duo.Tests.Checkpoints.{no_delivery}

-- Both worktrees are clean and at the base.
abbrev git : Git
git path (command ∷ rest) = if text_eq command (codes "status") then some [] else some (codes "b0")
git path [] = none

abbrev fresh : Snapshot
fresh = snapshot (new_state_for 0 Mode.goal)

abbrev session : Set
session = record {
  repository = codes "/repo";
  base_commit = codes "b0";
  session = codes "s1";
  austin = record { path = codes "/h/.duo/worktrees/r/s1/austin"; branch = codes "duo/s1/austin" };
  tony = record { path = codes "/h/.duo/worktrees/r/s1/tony"; branch = codes "duo/s1/tony" };
}

ended :
    discard_unstarted git (codes "/h") true (some fresh) session
    ≡ Action.remove_transcripts
      ∷ Action.remove_worktree (codes "/h/.duo/worktrees/r/s1/austin")
      ∷ Action.remove_worktree (codes "/h/.duo/worktrees/r/s1/tony")
      ∷ Action.prune_worktrees
      ∷ Action.delete_branch (codes "duo/s1/austin")
      ∷ Action.delete_branch (codes "duo/s1/tony")
      ∷ Action.remove_tree (clean (codes "/h/.duo/worktrees/r/s1"))
      ∷ Action.remove_directory (clean (codes "/h/.duo/worktrees/r"))
      ∷ Action.remove_record
      ∷ []
unfolding discard_unstarted is_space discard carries_work text_eq snapshot new_state_for
    removed_dirs removed_record
ended = refl

-- The service of the session, with a checkpoint in the store.
abbrev service : Service
service = record {
  recall = false;
  closed = false;
  state = some fresh;
  delivery = no_delivery;
  has_store = true;
  session_id = codes "s1";
  set = session;
}

-- A session that has started, and that the human recalls.
abbrev recalled : Service
recalled = record service { recall = true; state = some (record fresh { started = true }) }

recall_example :
    close_removals git (codes "/h") true recalled
    ≡ Action.write_recall_note
      ∷ (discard (codes "/h") session ++ Action.remove_transcripts ∷ Action.remove_record ∷ [])
unfolding close_removals is_space snapshot new_state_for
recall_example = refl

removal_is_allowed_example :
    (false ≡ false)
    × (((true ≡ false) × IsUntouched git recalled)
        ⊎ IsRecallable recalled (close_removals git (codes "/h") true recalled))
removal_is_allowed_example =
    removal_is_allowed git (codes "/h") true recalled (λ e. ground (arith, e, recall_example))
