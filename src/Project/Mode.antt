-- ===== src/Project/Mode.antt =====
-- internal/project/mode.go and phase.go.
use duo.Prelude.{Bool, true, false, Option, none, some, if◌then◌else◌}
use duo.Text.{Text, codes, text_eq, trim_space, to_lower}

-- `Mode` is a string; `other` holds the strings that name no workflow, the empty one included.
pub data Mode : Type 0 where
  fast goal step loop : Mode
  other : Text → Mode

pub data Phase : Type 0 where
  plan execute review integrate done running verify : Phase
  other : Text → Phase

-- The zero value of `Phase`.
abbrev pub no_phase : Phase
no_phase = Phase.other (codes "")

abbrev pub mode_eq : Mode → Mode → Bool
mode_eq Mode.fast Mode.fast = true
mode_eq Mode.goal Mode.goal = true
mode_eq Mode.step Mode.step = true
mode_eq Mode.loop Mode.loop = true
mode_eq (Mode.other a) (Mode.other b) = text_eq a b
mode_eq _ _ = false

abbrev pub phase_eq : Phase → Phase → Bool
phase_eq Phase.plan Phase.plan = true
phase_eq Phase.execute Phase.execute = true
phase_eq Phase.review Phase.review = true
phase_eq Phase.integrate Phase.integrate = true
phase_eq Phase.done Phase.done = true
phase_eq Phase.running Phase.running = true
phase_eq Phase.verify Phase.verify = true
phase_eq (Phase.other a) (Phase.other b) = text_eq a b
phase_eq _ _ = false

-- `ParseMode`; `none` is its error.
unfoldable pub parse_mode : Text → Option Mode
unfolding to_lower trim_space text_eq
parse_mode value =
    let key = to_lower (trim_space value) in
    if text_eq key (codes "")
    then some Mode.goal
    else if text_eq key (codes "fast")
    then some Mode.fast
    else if text_eq key (codes "goal")
    then some Mode.goal
    else if text_eq key (codes "step")
    then some Mode.step
    else if text_eq key (codes "loop")
    then some Mode.loop
    else none

-- The conversion `Mode(value)` of a string.
unfoldable pub mode_of : Text → Mode
unfolding text_eq
mode_of value =
    if text_eq value (codes "fast")
    then Mode.fast
    else if text_eq value (codes "goal")
    then Mode.goal
    else if text_eq value (codes "step")
    then Mode.step
    else if text_eq value (codes "loop")
    then Mode.loop
    else Mode.other value

unfoldable pub mode_string : Mode → Text
mode_string Mode.fast = codes "fast"
mode_string Mode.goal = codes "goal"
mode_string Mode.step = codes "step"
mode_string Mode.loop = codes "loop"
mode_string (Mode.other t) = t

unfoldable pub normalize : Mode → Mode
normalize Mode.fast = Mode.fast
normalize Mode.step = Mode.step
normalize Mode.loop = Mode.loop
normalize _ = Mode.goal

unfoldable pub initial_phase : Mode → Phase
initial_phase Mode.fast = Phase.running
initial_phase Mode.loop = Phase.running
initial_phase _ = Phase.plan

is_loop_phase : Phase → Bool
is_loop_phase Phase.running = true
is_loop_phase Phase.integrate = true
is_loop_phase Phase.done = true
is_loop_phase _ = false

is_fast_phase : Phase → Bool
is_fast_phase Phase.running = true
is_fast_phase Phase.verify = true
is_fast_phase Phase.done = true
is_fast_phase _ = false

is_goal_phase : Phase → Bool
is_goal_phase Phase.plan = true
is_goal_phase Phase.execute = true
is_goal_phase Phase.review = true
is_goal_phase Phase.integrate = true
is_goal_phase Phase.done = true
is_goal_phase _ = false

unfoldable pub valid_phase : Mode → Phase → Bool
unfolding is_loop_phase is_fast_phase is_goal_phase
valid_phase Mode.loop p = is_loop_phase p
valid_phase Mode.fast p = is_fast_phase p
valid_phase _ p = is_goal_phase p

next_fast : Phase → Phase × Bool
next_fast Phase.running = (Phase.verify, true)
next_fast Phase.verify = (Phase.done, true)
next_fast p = (p, false)

next_goal : Phase → Phase × Bool
next_goal Phase.plan = (Phase.execute, true)
next_goal Phase.execute = (Phase.review, true)
next_goal Phase.review = (Phase.integrate, true)
next_goal Phase.integrate = (Phase.done, true)
next_goal p = (p, false)

-- `Mode.Next`: the next phase of the mode's chain, and whether there is one.
unfoldable pub next : Mode → Phase → Phase × Bool
unfolding next_fast next_goal
next Mode.loop p = (p, false)
next Mode.fast p = next_fast p
next _ p = next_goal p
