-- ===== src/Recovery/Merge.antt =====
-- internal/recovery/recovery.go, Reconcile: the integration merge.
use duo.Prelude.{
  Bool, true, false, ◌&&◌, ◌||◌, not, Option, none, some, [], ◌∷◌, ◌++◌, if◌then◌else◌, is_empty,
}
use duo.Text.{Text, text_eq}
use duo.Project.Agent.{AgentId}
use duo.Project.Mode.{Mode, Phase, mode_eq, phase_eq}
use duo.Store.Record.{StoredSnapshot, Integration, stored_mode}
use duo.Recovery.Report.{Git, MergeState, RecoveryNote, Recovered}

-- A line at the end of the report.
abbrev pub add_note : RecoveryNote → Recovered → Recovered
add_note note r = record r { report = record (r.report) { notes = r.report.notes ++ note ∷ [] } }

-- The phase of the snapshot and of the report.
abbrev pub set_phase : Phase → Recovered → Recovered
set_phase p r = record r {
  snapshot = record (r.snapshot) { phase = p };
  report = record (r.report) { phase = p };
}

-- A session that has no integration merge.
abbrev pub merges_in_steps : StoredSnapshot → Bool
merges_in_steps snap = mode_eq (stored_mode snap) Mode.step || mode_eq (stored_mode snap) Mode.loop

-- INTEGRATE with the integration that Git shows.
abbrev pub integrated : Integration → RecoveryNote → Recovered → Recovered
integrated integration note r =
    let moved = add_note note (set_phase Phase.integrate r) in
    record moved {
      snapshot = record (moved.snapshot) { integration = integration };
      report = record (moved.report) { integration_recovered = true };
    }

-- An interrupted merge in Austin's worktree.
unfoldable pub interrupted : Git → MergeState → Recovered → Option Recovered
interrupted git m r = elim (git.head AgentId.austin) [
  | none ↦ none
  | some head ↦ some (
      integrated
        (record {
          started = true;
          conflicted = m.conflicted;
          head = head;
          merged_tony = m.merge_head;
        })
        RecoveryNote.interrupted_merge r)
]

-- Whether Tony's work is merged: an ancestor, where both sides have moved off the base commit.
unfoldable pub landed_merge : Bool → Text → Text → Text → Bool
unfolding text_eq
landed_merge ancestor tony austin base =
    ancestor && (not (is_empty tony) && (not (text_eq tony base) && not (text_eq austin base)))

unfoldable pub check_merge : Git → Recovered → Option Recovered
unfolding landed_merge
check_merge git r = elim (git.head AgentId.tony) [
  | none ↦ none
  | some tony ↦ elim (git.head AgentId.austin) [
    | none ↦ none
    | some austin ↦ elim (git.is_ancestor AgentId.austin tony austin) [
      | none ↦ none
      | some ancestor ↦
          if landed_merge ancestor tony austin r.snapshot.base_commit
          then some (
              integrated
                (record { started = true; conflicted = false; head = austin; merged_tony = tony })
                RecoveryNote.already_merged r)
          else some r
    ]
  ]
]

-- The switch on the merge state.
unfoldable pub recover_merge : Git → Recovered → Option Recovered
unfolding interrupted check_merge stored_mode
recover_merge git r = elim (git.merge_state AgentId.austin) [
  | none ↦ none
  | some m ↦
      if m.in_progress
      then if merges_in_steps r.snapshot
        then some (add_note RecoveryNote.unfinished_merge r)
        else interrupted git m r
      else if not (merges_in_steps r.snapshot)
          && (phase_eq r.snapshot.phase Phase.review || phase_eq r.snapshot.phase Phase.integrate)
      then check_merge git r
      else some r
]
