-- ===== src/Coordinator/Frame.antt =====
-- What a message sent through sendToAgent of internal/coordinator/coordinator.go leaves as it is.
use duo.Prelude.{◌≡◌, refl, ◌∙◌, inl, inr, arith, true, false, Bool-cases, List, [], ◌∷◌, is_empty}
use duo.Text.{Text, trim_space}
use duo.Project.Agent.{AgentId}
use duo.Coordinator.Message.{Message, Treatment, is_injected}
use duo.Coordinator.State.{Coordinator, Link, HeldMessage, is_running}
use duo.Coordinator.Pause.{send_held}
use duo.Coordinator.Send.{
  note_injected, send_terminal, route, transmit, send_paused, prepared, send_to_agent,
  send_mode_change, mode_message,
}

-- The state of the pause is the same, and so is what is held, unless the session was not running.
pub record IsFramed (c d : Coordinator) : Type 0 where
  pub state : d.pause_state ≡ c.pause_state
  pub flags : d.paused ≡ c.paused
  pub held : is_running c.pause_state ≡ true → d.held ≡ c.held

pub IsFramed-refl : (c : Coordinator) → IsFramed c c
IsFramed-refl c = record { state = refl; flags = refl; held = λ r. refl }

pub IsFramed-trans : (c d e : Coordinator) → IsFramed c d → IsFramed d e → IsFramed c e
IsFramed-trans c d e f g = record {
  state = cc;
  flags = cc;
  held = λ r. ground (arith, f.state, f.held r, g.held (ground (arith, f.state)));
}

-- Sending a message changes what went out and what is recorded of it only.
pub record IsSent (c d : Coordinator) : Type 0 where
  pub state : d.pause_state ≡ c.pause_state
  pub flags : d.paused ≡ c.paused
  pub held : d.held ≡ c.held

note_injected-IsSent :
    (agent : AgentId) (text : Text) (c : Coordinator) → IsSent c (note_injected agent text c)
unfolding note_injected
note_injected-IsSent agent text c = elim (Bool-cases (is_empty (trim_space text))) [
  | inl e ↦ record { state = ground arith; flags = ground arith; held = ground arith }
  | inr e ↦ record { state = ground arith; flags = ground arith; held = ground arith }
]

route-IsSent :
    (l : Link) (agent : AgentId) (m : Message) (c : Coordinator)
    → IsSent c (route l agent m c).state
unfolding route send_terminal
route-IsSent l agent m c = record {
  state = ground arith;
  flags = ground arith;
  held = ground arith;
}

pub transmit-IsSent :
    (l : Link) (agent : AgentId) (m : Message) (c : Coordinator)
    → IsSent c (transmit l agent m c).state
unfolding transmit
transmit-IsSent l agent m c = elim (Bool-cases (is_injected m.kind)) [
  | inl i ↦
      (let noted = note_injected-IsSent agent m.text c in
        let routed = route-IsSent l agent m (note_injected agent m.text c) in
        rw i (record {
          state = routed.state ∙ noted.state;
          flags = routed.flags ∙ noted.flags;
          held = routed.held ∙ noted.held;
        }))
  | inr i ↦ rw i (route-IsSent l agent m c)
]

IsSent-IsFramed : (c d : Coordinator) → IsSent c d → IsFramed c d
IsSent-IsFramed c d s = record { state = s.state; flags = s.flags; held = λ r. s.held }

send_paused-IsFramed :
    (t : Treatment) (l : Link) (agent : AgentId) (m : Message) (c : Coordinator)
    → is_running c.pause_state ≡ false
    → IsFramed c (send_paused t l agent m c).state
unfolding send_paused
send_paused-IsFramed Treatment.hold l agent m c n = record {
  state = refl;
  flags = refl;
  held = λ r. ground arith;
}
send_paused-IsFramed Treatment.drop l agent m c n = IsFramed-refl c
send_paused-IsFramed Treatment.pass l agent m c n =
    IsSent-IsFramed c (transmit l agent m c).state (transmit-IsSent l agent m c)

pub send_to_agent-IsFramed :
    (l : Link) (agent : AgentId) (m : Message) (c : Coordinator)
    → IsFramed c (send_to_agent l agent m c).state
unfolding send_to_agent
send_to_agent-IsFramed l agent m c = elim (Bool-cases (is_running c.pause_state)) [
  | inl r ↦ rw r (
      IsSent-IsFramed c (transmit l agent (prepared l agent m) c).state
        (transmit-IsSent l agent (prepared l agent m) c))
  | inr r ↦ rw r (send_paused-IsFramed _ l agent (prepared l agent m) c r)
]

pub send_mode_change-IsFramed :
    (l : Link) (mode text : Text) (agent : AgentId) (c : Coordinator)
    → IsFramed c (send_mode_change l mode text agent c)
unfolding send_mode_change
send_mode_change-IsFramed l mode text agent c =
    send_to_agent-IsFramed l agent (mode_message mode text agent) c

pub send_held-IsFramed :
    (l : Link) (items : List HeldMessage) (c : Coordinator) → IsFramed c (send_held l items c)
unfolding send_held
send_held-IsFramed l [] c = IsFramed-refl c
send_held-IsFramed l (item ∷ rest) c =
    let d = (send_to_agent l item.agent item.message c).state in
    IsFramed-trans c d (send_held l rest d) (send_to_agent-IsFramed l item.agent item.message c)
      (send_held-IsFramed l rest d)
