-- ===== src/Coordinator/Send.antt =====
-- internal/coordinator/coordinator.go: sendToAgent, noteInjected and sendModeChange.
use duo.Prelude.{Bool, true, false, ◌&&◌, not, [], ◌∷◌, ◌++◌, if◌then◌else◌, is_empty}
use duo.Text.{Text, codes, trim_space}
use duo.Text.Split.{has_char}
use duo.Project.Agent.{AgentId, put}
use duo.Coordinator.Message.{
  MessageType, Message, is_core_text, is_injected, Treatment, treatment_of,
}
use duo.Coordinator.State.{Coordinator, Link, Outgoing, is_running}

-- What an operation leaves, and whether it returned no error.
pub record Done : Type 0 where
  pub state : Coordinator
  pub ok : Bool

abbrev pub done : Coordinator → Bool → Done
done c ok = record { state = c; ok = ok }

-- The message with the tools it may name.
unfoldable pub prepared : Link → AgentId → Message → Message
unfolding is_core_text
prepared l agent m = if is_core_text m.kind then record m { text = l.available agent m.text } else m

-- `noteInjected`.
unfoldable pub note_injected : AgentId → Text → Coordinator → Coordinator
unfolding trim_space
note_injected agent text c =
    let trimmed = trim_space text in
    if is_empty trimmed then c else record c { injected = put c.injected agent trimmed }

-- A text of several lines is pasted in brackets; a carriage return sends it.
unfoldable pub keystrokes : Text → Text
keystrokes text =
    if has_char 10 text
    then (27 ∷ codes "[200~") ++ (text ++ ((27 ∷ codes "[201~") ++ (13 ∷ [])))
    else text ++ (13 ∷ [])

abbrev pub log : Outgoing → Coordinator → Coordinator
log o c = record c { sent = o ∷ c.sent }

-- `server.Send`.
abbrev pub send_bridge : Link → AgentId → Message → Coordinator → Done
send_bridge l agent m c = done (log (Outgoing.bridged agent m) c) (l.server_send agent m)

-- A running driver has a terminal, which it may say that nothing typed there reaches it.
unfoldable pub send_terminal : Link → AgentId → Message → Coordinator → Done
unfolding keystrokes
send_terminal l agent m c =
    if not (l.pty_fallback agent)
    then done c false
    else if is_empty m.text
    then done c true
    else done (log (Outgoing.typed agent m (keystrokes m.text)) c)
        (l.write agent (keystrokes m.text))

-- The choice of the delivery path.
unfoldable pub route : Link → AgentId → Message → Coordinator → Done
unfolding send_terminal
route l agent m c =
    if l.has_server && (l.is_connected agent && l.live_steering agent)
    then send_bridge l agent m c
    else if l.is_driven agent
    then send_terminal l agent m c
    else if l.has_server
    then send_bridge l agent m c
    else done c false

-- From the pause on.
unfoldable pub transmit : Link → AgentId → Message → Coordinator → Done
unfolding route note_injected is_injected
transmit l agent m c =
    route l agent m (if is_injected m.kind then note_injected agent m.text c else c)

abbrev pub held_with : AgentId → Message → Coordinator → Coordinator
held_with agent m c = record c { held = c.held ++ (record { agent = agent; message = m } ∷ []) }

-- While a session is pausing or paused.
unfoldable pub send_paused : Treatment → Link → AgentId → Message → Coordinator → Done
unfolding transmit
send_paused Treatment.hold l agent m c = done (held_with agent m c) true
send_paused Treatment.drop l agent m c = done c true
send_paused Treatment.pass l agent m c = transmit l agent m c

-- `sendToAgent`.
unfoldable pub send_to_agent : Link → AgentId → Message → Coordinator → Done
unfolding prepared transmit send_paused treatment_of
send_to_agent l agent m c =
    let m' = prepared l agent m in
    if is_running c.pause_state
    then transmit l agent m' c
    else send_paused (treatment_of m'.kind m'.text) l agent m' c

abbrev pub mode_message : Text → Text → AgentId → Message
mode_message mode text agent = record {
  kind = MessageType.mode_change;
  sender = AgentId.duo_core;
  recipient = agent;
  mode = mode;
  text = text;
}

-- `sendModeChange` to one agent, whose error is ignored.
unfoldable pub send_mode_change : Link → Text → Text → AgentId → Coordinator → Coordinator
unfolding send_to_agent
send_mode_change l mode text agent c =
    (send_to_agent l agent (mode_message mode text agent) c).state
