-- ===== src/Workspace/Recall.antt =====
-- internal/session/service.go: how a session that is closed is recalled or discarded (requestRecall,
-- recallBlocked, discardRecalled and the end of closeLocked), and WriteRecallNote of
-- internal/sessionstore/recallnote.go.
use duo.Prelude.{
  ℕ, Bool, true, false, not, ◌&&◌, ◌||◌, Option, none, some, List, [], ◌∷◌, ◌++◌, leb, ◌==◌,
  if◌then◌else◌, is_empty,
}
use duo.Text.{Text, text_eq, trim_space, is_blank}
use duo.Project.Mode.{Phase, phase_eq}
use duo.Project.Steps.{Steps}
use duo.Project.Snapshot.{Snapshot}
use duo.Store.Record.{Delivery, is_applied}
use duo.Workspace.Discard.{Set, Git, Action, discard, removed_record, discard_unstarted}

-- The fields of `Service` that are read here: `delivery` is the coordinator's record, if there is a
-- coordinator, and else its own.
pub record Service : Type 0 where
  pub recall : Bool
  pub closed : Bool
  pub state : Option Snapshot
  pub delivery : Delivery
  pub has_store : Bool
  pub session_id : Text
  pub set : Set

-- A step with a head in the user's repository.
unfoldable pub has_landed : Steps → Bool
unfolding is_blank
has_landed [] = false
has_landed (st ∷ steps) = not (is_blank st.delivery_head) || has_landed steps

-- `recallBlocked`, whose reasons are left out; the zero snapshot is in no phase and has no step.
unfoldable pub recall_blocked : Service → Bool
unfolding has_landed
recall_blocked s = is_applied s.delivery.status || elim s.state [
  | none ↦ false
  | some snap ↦ phase_eq snap.phase Phase.done || has_landed snap.steps
]

-- `requestRecall`, less the agents that it stops; `none` is an error.
unfoldable pub request_recall : Service → Option Service
unfolding recall_blocked
request_recall s = if recall_blocked s then none else some (record s { recall = true })

-- `invalidName` matches runs of all other characters.
abbrev pub is_name_char : ℕ → Bool
is_name_char c =
    (leb 65 c && leb c 90)
    || ((leb 97 c && leb c 122)
        || ((leb 48 c && leb c 57) || ((c == 46) || ((c == 95) || (c == 45)))))

abbrev pub is_edge : ℕ → Bool
is_edge c = (c == 45) || ((c == 46) || (c == 95))

-- `invalidName.ReplaceAllString(value, "-")`; the flag is set inside a run.
unfoldable pub replaced : Bool → Text → Text
replaced inside [] = []
replaced inside (c ∷ cs) =
    let rest = replaced (not (is_name_char c)) cs in
    if is_name_char c then c ∷ rest else if inside then rest else 45 ∷ rest

-- `strings.Trim(value, "-._")`.
abbrev pub strip_left : Text → Text
strip_left [] = []
strip_left (c ∷ cs) = if is_edge c then strip_left cs else c ∷ cs

abbrev pub strip_right : Text → Text
strip_right [] = []
strip_right (c ∷ cs) =
    let rest = strip_right cs in if is_edge c && is_empty rest then [] else c ∷ rest

-- `sanitize` and `validName`; `.` and `..` are stripped to nothing, and a slash, a backslash and a zero
-- are no characters of a name, so the first tests of `validName` are kept for the empty text only.
unfoldable pub sanitize : Text → Text
unfolding trim_space replaced
sanitize value = strip_right (strip_left (replaced false (trim_space value)))

unfoldable pub valid_name : Text → Bool
unfolding sanitize text_eq
valid_name value = not (is_empty value) && text_eq value (sanitize value)

-- `WriteRecallNote` returns no error; whether the disk takes the note is `can_write`.
unfoldable pub writes_note : Bool → Text → Text → Bool
unfolding is_blank valid_name trim_space
writes_note can_write repository session_id =
    not (is_blank repository)
    && (not (is_blank session_id) && (valid_name (trim_space session_id) && can_write))

-- `discardRecalled`; the actions, none if the session is kept. `Discard` returns no error.
unfoldable pub discard_recalled : Text → Bool → Service → List Action
unfolding recall_blocked writes_note discard removed_record
discard_recalled home can_write s =
    if recall_blocked s
    then []
    else if not (writes_note can_write s.set.repository s.session_id)
    then []
    else Action.write_recall_note
      ∷ (discard home s.set ++ Action.remove_transcripts ∷ removed_record s.has_store)

-- What `closeLocked` removes, once the agents have stopped and the lock is released.
unfoldable pub close_removals : Git → Text → Bool → Service → List Action
unfolding discard_recalled discard_unstarted
close_removals git home can_write s =
    if s.closed
    then []
    else if s.recall
    then discard_recalled home can_write s
    else discard_unstarted git home s.has_store s.state s.set
