-- ===== src/Store/Needs.antt =====
-- internal/sessionstore/snapshot.go: whether an artifact still has to be handed to the user.
use duo.Prelude.{
  ◌+◌, Bool, true, false, ◌&&◌, ◌||◌, not, none, some, leb, ◌==◌, if◌then◌else◌, is_empty, map, ℕ,
  Option, [], ◌∷◌,
}
use duo.Text.{Text, text_eq, trim_space}
use duo.Project.Agent.{AgentId}
use duo.Project.Mode.{Mode, Phase, mode_eq, phase_eq}
use duo.Project.Verification.{is_passed}
use duo.Project.Steps.{Step, Steps, effective_policy}
use duo.Store.Record.{StoredSnapshot, stored_mode, verification_result, step_under, is_applied}

-- The simple case folding of Unicode, exact where one of the two texts is ASCII: the Latin capitals,
-- the Kelvin sign and the long s.
unfoldable pub fold : ℕ → ℕ
fold c =
    if leb b'A' c && leb c b'Z'
    then c + 32
    else if c == 0x212a
    then b'k'
    else if c == 0x17f
    then b's'
    else c

-- `strings.EqualFold`.
unfoldable pub equal_fold : Text → Text → Bool
unfolding fold text_eq
equal_fold a b = text_eq (map fold a) (map fold b)

-- The head that the open step stands for: its submission, or what both signed for a GOAL step. An
-- empty one is none.
unfoldable pub step_head : StoredSnapshot → Step → Text
unfolding effective_policy trim_space text_eq
step_head snap st =
    if mode_eq (effective_policy st) Mode.goal
    then if not (snap.ready AgentId.austin)
        || (not (snap.ready AgentId.tony)
            || not (
                text_eq (trim_space (snap.evidence AgentId.austin))
                  (trim_space (snap.evidence AgentId.tony))))
      then []
      else trim_space (snap.evidence AgentId.austin)
    else trim_space st.head

-- `StepDeliveryIsCurrent`.
unfoldable pub step_delivery_is_current : StoredSnapshot → Bool
unfolding step_head step_under equal_fold trim_space
step_delivery_is_current snap = elim (step_under snap.steps snap.step) [
  | none ↦ false
  | some st ↦
      if st.done
      then false
      else not (is_empty (step_head snap st))
        && equal_fold (step_head snap st) (trim_space snap.delivery.final_head)
]

abbrev is_open : Option Step → Bool
is_open none = false
is_open (some st) = not st.done

-- `StepAwaitsDelivery`.
unfoldable pub step_awaits_delivery : StoredSnapshot → Bool
unfolding step_delivery_is_current step_under
step_awaits_delivery snap =
    is_open (step_under snap.steps snap.step) && not (step_delivery_is_current snap)

unfoldable pub has_open : Steps → Bool
has_open [] = false
has_open (st ∷ rest) = not st.done || has_open rest

abbrev both_signed : StoredSnapshot → Bool
both_signed snap = snap.ready AgentId.austin && snap.ready AgentId.tony

-- The switch of `NeedsDelivery` on the phase, in Goal.
goal_needs : Phase → StoredSnapshot → Bool
unfolding trim_space
goal_needs Phase.integrate snap = both_signed snap
goal_needs Phase.done snap =
    not (is_empty (trim_space snap.integration.head))
    || not (is_empty (trim_space snap.delivery.final_head))
goal_needs _ snap = false

-- The switch of `NeedsDelivery` on the mode.
mode_needs : Mode → StoredSnapshot → Bool
unfolding goal_needs verification_result has_open
mode_needs Mode.loop snap = phase_eq snap.phase Phase.integrate && snap.loop.finishing
mode_needs Mode.fast snap =
    phase_eq snap.phase Phase.verify && is_passed (verification_result snap).status
mode_needs Mode.step snap =
    if not (phase_eq snap.phase Phase.integrate)
    then false
    else if has_open snap.steps
    then true
    else both_signed snap
mode_needs _ snap = goal_needs snap.phase snap

unfoldable pub needs_delivery : StoredSnapshot → Bool
unfolding mode_needs step_awaits_delivery stored_mode
needs_delivery snap =
    if is_applied snap.delivery.status && not (step_awaits_delivery snap)
    then false
    else mode_needs (stored_mode snap) snap

-- `FinalHead`.
unfoldable pub final_head : StoredSnapshot → Text
unfolding trim_space
final_head snap =
    let head = trim_space snap.delivery.final_head in
    if is_empty head then trim_space snap.integration.head else head
