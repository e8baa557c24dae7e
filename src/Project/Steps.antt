-- ===== src/Project/Steps.antt =====
-- internal/project/steps.go: the Step queue and its cursor.
pub mod Parse
pub mod Laws
use duo.Prelude.{
  ℕ, suc, ◌-◌, Bool, true, false, ◌&&◌, ◌||◌, not, Option, none, List, [], ◌∷◌, ltb, if◌then◌else◌,
  is_empty, length, get_elem?, modify,
}
use duo.Text.{Text}
use duo.Project.Mode.{Mode}
use duo.Project.Verification.{Verification}

pub record Step : Type 0 where
  pub title : Text
  pub done : Bool
  pub policy : Mode
  pub head : Text
  pub verification : Verification
  pub delivery_head : Text
  pub delivered_at : Text

abbrev pub Steps : Type 0
Steps = List Step

unfoldable pub policy_of : Mode → Mode
policy_of Mode.goal = Mode.goal
policy_of _ = Mode.fast

unfoldable pub effective_policy : Step → Mode
unfolding policy_of
effective_policy st = policy_of st.policy

-- The 1-based index of the first step that is not done, or `length steps + 1`.
unfoldable pub first_open_step : Steps → ℕ
first_open_step [] = 1
first_open_step (st ∷ rest) = let later = first_open_step rest in if st.done then suc later else 1

all_done : Steps → Bool
all_done [] = true
all_done (st ∷ rest) = st.done && all_done rest

unfoldable pub queue_finished : Steps → Bool
unfolding all_done
queue_finished steps = all_done steps && not (is_empty steps)

-- Whether a submitted queue has a ticked step: the loop of `stepWorkflow.setSteps`.
unfoldable pub has_ticked : Steps → Bool
has_ticked [] = false
has_ticked (st ∷ rest) = st.done || has_ticked rest

-- `currentStepLocked`: the step under a 1-based cursor.
unfoldable pub step_at : Steps → ℕ → Option Step
step_at steps cursor =
    if ltb cursor 1 || ltb (length steps) cursor then none else get_elem? steps (cursor - 1)

-- A write through the pointer that `currentStepLocked` returns.
unfoldable pub update_step : Steps → ℕ → (Step → Step) → Steps
update_step steps cursor f = modify steps (cursor - 1) f
