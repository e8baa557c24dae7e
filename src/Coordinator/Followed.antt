-- ===== src/Coordinator/Followed.antt =====
-- What refreshPause of internal/coordinator/coordinator.go makes of an event.
use duo.Prelude.{◌≡◌, inl, inr, arith, Bool, false, Bool-cases, Option}
use duo.Project.Agent.{AgentId, Activity, put}
use duo.Coordinator.State.{Coordinator, is_running, is_busy}
use duo.Coordinator.Pause.{note_settled, moved_pause}

-- All but the settled flags is the same.
pub record IsNoted (c d : Coordinator) : Type 0 where
  pub state : d.pause_state ≡ c.pause_state
  pub flags : d.paused ≡ c.paused
  pub held : d.held ≡ c.held
  pub sent : d.sent ≡ c.sent

pub note_settled-IsNoted :
    (activity : Option Activity) (agent : AgentId) (c : Coordinator)
    → IsNoted c (note_settled activity agent c)
unfolding note_settled
note_settled-IsNoted activity agent c = elim (Bool-cases (is_busy c agent)) [
  | inl b ↦ record {
    state = ground arith;
    flags = ground arith;
    held = ground arith;
    sent = ground arith;
  }
  | inr b ↦ record {
    state = ground arith;
    flags = ground arith;
    held = ground arith;
    sent = ground arith;
  }
]

-- The coordinator after one flag is written.
abbrev pub with_flag : AgentId → Bool → Coordinator → Coordinator
with_flag agent idle c = record c { paused = put c.paused agent idle }

pub moved_pause-waits :
    (agent : AgentId) (c : Coordinator)
    → is_running c.pause_state ≡ false
    → is_running (moved_pause agent c) ≡ false
unfolding moved_pause
moved_pause-waits agent c n = ground arith
