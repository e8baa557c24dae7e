-- ===== src/Project/Steps/Laws.antt =====
-- Lemmas on the queue: the cursor, and what a write to the current step leaves alone.
use duo.Prelude.{
  ℕ, zero, suc, ◌+◌, ◌-◌, ◌≤◌, ◌≡◌, refl, true, false, none, [], ◌∷◌, ◌++◌, arith, length, modify,
  is_empty,
}
use duo.Project.Steps.{
  Step, Steps, first_open_step, has_ticked, update_step, all_done, queue_finished, step_at,
}

pub first_open_pos : (q : Steps) → 1 ≤ first_open_step q
unfolding first_open_step
first_open_pos [] = omega arith
first_open_pos (st ∷ rest) = ground (arith, first_open_pos rest)

pub first_open-le : (q : Steps) → first_open_step q ≤ length q + 1
unfolding first_open_step
first_open-le [] = omega arith
first_open-le (st ∷ rest) = ground (arith, first_open-le rest)

-- A write that keeps the tick of every step moves no cursor.
pub first_open-modify :
    (q : Steps) (i : ℕ) (f : Step → Step)
    → ((st : Step) → (f st).done ≡ st.done)
    → first_open_step (modify q i f) ≡ first_open_step q
unfolding first_open_step
first_open-modify [] i f h = refl
first_open-modify (st ∷ q) zero f h = ground (arith, h st)
first_open-modify (st ∷ q) (suc i) f h = ground (arith, first_open-modify q i f h)

-- Appended steps, none of them ticked, move no cursor.
pub first_open-append :
    (q new : Steps) → has_ticked new ≡ false → first_open_step (q ++ new) ≡ first_open_step q
unfolding first_open_step has_ticked
first_open-append [] [] h = refl
first_open-append [] (st ∷ new) h = ground arith
first_open-append (st ∷ q) new h = ground (arith, first_open-append q new)

pub is_empty-modify : (q : Steps) (i : ℕ) (f : Step → Step) → is_empty (modify q i f) ≡ is_empty q
is_empty-modify [] i f = refl
is_empty-modify (st ∷ q) zero f = refl
is_empty-modify (st ∷ q) (suc i) f = refl

pub first_open-update :
    (q : Steps) (n : ℕ) (f : Step → Step)
    → ((st : Step) → (f st).done ≡ st.done)
    → first_open_step (update_step q n f) ≡ first_open_step q
unfolding update_step
first_open-update q n f h = first_open-modify q (n - 1) f h

all_done-first_open : (q : Steps) → all_done q ≡ true → first_open_step q ≡ suc (length q)
unfolding all_done first_open_step
all_done-first_open [] h = refl
all_done-first_open (st ∷ rest) h = ground (arith, all_done-first_open rest)

-- No step is under the cursor of a queue that is finished.
pub step_at-finished : (q : Steps) → queue_finished q ≡ true → step_at q (first_open_step q) ≡ none
unfolding queue_finished step_at
step_at-finished q h = ground (arith, all_done-first_open q)
