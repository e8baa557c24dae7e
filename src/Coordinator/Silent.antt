-- ===== src/Coordinator/Silent.antt =====
-- What sendToAgent of internal/coordinator/coordinator.go lets out of a session that is not running.
use duo.Prelude.{
  ◌≡◌, refl, ◌∙◌, ap, sym, inl, inr, arith, true, false, not, ◌&&◌, Bool, Bool-cases, List, [], ◌∷◌,
  ◌++◌, append_nil, append_assoc, is_empty,
}
use duo.Text.{Text}
use duo.Project.Agent.{AgentId}
use duo.Coordinator.Message.{MessageType, Message, Treatment, treatment_of, is_injected}
use duo.Coordinator.State.{Coordinator, Link, HeldMessage, Outgoing, is_running}
use duo.Coordinator.Send.{
  note_injected, keystrokes, send_terminal, route, transmit, send_paused, prepared, send_to_agent,
  log,
}

-- A message that would start or steer a turn of the agent, or tell it something.
abbrev pub wakes : MessageType → Text → Bool
wakes MessageType.human_prompt text = true
wakes MessageType.steer text = true
wakes MessageType.duo_notice text = true
wakes MessageType.harness_prompt text = true
wakes MessageType.resume_prompt text = true
wakes MessageType.mode_change text = not (is_empty text)
wakes _ text = false

-- What a pause lets out: a message of another kind, over the bridge or typed as it stands.
pub data IsSilent : Outgoing → Type 0 where
  bridged :
      (agent : AgentId) (m : Message)
      → wakes m.kind m.text ≡ false
      → IsSilent (Outgoing.bridged agent m)
  typed :
      (agent : AgentId) (m : Message)
      → wakes m.kind m.text ≡ false
      → IsSilent (Outgoing.typed agent m (keystrokes m.text))

passed_lem :
    (kind : MessageType) (text : Text)
    → treatment_of kind text ≡ Treatment.pass
    → wakes kind text ≡ false
unfolding treatment_of
passed_lem kind text p = ground arith

abbrev pub AreSilent : List Outgoing → Type 0
AreSilent [] = Unit {0}
AreSilent (o ∷ os) = IsSilent o × AreSilent os

AreSilent-append : (xs ys : List Outgoing) → AreSilent xs → AreSilent ys → AreSilent (xs ++ ys)
AreSilent-append [] ys h k = k
AreSilent-append (x ∷ xs) ys (h, hs) k = (h, AreSilent-append xs ys hs k)

-- The session is still not running, what was held is held, and only silent messages have gone out.
pub record IsQuiet (c d : Coordinator) : Type 0 where
  pub waits : is_running d.pause_state ≡ false
  pub more : List HeldMessage
  pub held : d.held ≡ c.held ++ more
  pub news : List Outgoing
  pub sent : d.sent ≡ news ++ c.sent
  pub silent : AreSilent news

pub IsQuiet-trans : (c d e : Coordinator) → IsQuiet c d → IsQuiet d e → IsQuiet c e
IsQuiet-trans c d e f g = record {
  waits = g.waits;
  more = f.more ++ g.more;
  held = g.held ∙ (ap (λ h. h ++ g.more) f.held ∙ append_assoc c.held f.more g.more);
  news = g.news ++ f.news;
  sent = g.sent ∙ (ap (λ s. g.news ++ s) f.sent ∙ sym (append_assoc g.news f.news c.sent));
  silent = AreSilent-append g.news f.news g.silent f.silent;
}

pub unchanged-IsQuiet :
    (c d : Coordinator)
    → is_running d.pause_state ≡ false
    → d.held ≡ c.held
    → d.sent ≡ c.sent
    → IsQuiet c d
unchanged-IsQuiet c d n h s = record {
  waits = n;
  more = [];
  held = h ∙ sym (append_nil c.held);
  news = [];
  sent = s;
  silent = tt;
}

module _ (l : Link) (agent : AgentId) (m : Message) where
  log-IsQuiet :
      (o : Outgoing) (c : Coordinator)
      → is_running c.pause_state ≡ false
      → IsSilent o
      → IsQuiet c (log o c)
  log-IsQuiet o c n s = record {
    waits = n;
    more = [];
    held = sym (append_nil c.held);
    news = o ∷ [];
    sent = refl;
    silent = (s, tt);
  }

  terminal-IsQuiet :
      (c : Coordinator)
      → is_running c.pause_state ≡ false
      → treatment_of m.kind m.text ≡ Treatment.pass
      → IsQuiet c (send_terminal l agent m c).state
  unfolding send_terminal
  terminal-IsQuiet c n p = elim (Bool-cases (l.pty_fallback agent)) [
    | inl f ↦ elim (Bool-cases (is_empty m.text)) [
      | inl e ↦ rw (f, e) (unchanged-IsQuiet c c n refl refl)
      | inr e ↦ rw (f, e) (log-IsQuiet _ c n (IsSilent.typed agent m (passed_lem m.kind m.text p)))
    ]
    | inr f ↦ rw f (unchanged-IsQuiet c c n refl refl)
  ]

  route-IsQuiet :
      (c : Coordinator)
      → is_running c.pause_state ≡ false
      → treatment_of m.kind m.text ≡ Treatment.pass
      → IsQuiet c (route l agent m c).state
  unfolding route
  route-IsQuiet c n p =
      elim (Bool-cases (l.has_server && (l.is_connected agent && l.live_steering agent))) [
        | inl b ↦ rw b (log-IsQuiet _ c n (IsSilent.bridged agent m (passed_lem m.kind m.text p)))
        | inr b ↦ elim (Bool-cases (l.is_driven agent)) [
          | inl d ↦ rw (b, d) (terminal-IsQuiet c n p)
          | inr d ↦ elim (Bool-cases l.has_server) [
            | inl s ↦
                rw (b, d, s)
                  (log-IsQuiet _ c n (IsSilent.bridged agent m (passed_lem m.kind m.text p)))
            | inr s ↦ rw (b, d, s) (unchanged-IsQuiet c c n refl refl)
          ]
        ]
      ]

  note_injected-IsQuiet :
      (c : Coordinator)
      → is_running c.pause_state ≡ false
      → IsQuiet c (note_injected agent m.text c)
  unfolding note_injected
  note_injected-IsQuiet c n =
      unchanged-IsQuiet c (note_injected agent m.text c) (ground arith) (ground arith)
        (ground arith)

  transmit-IsQuiet :
      (c : Coordinator)
      → is_running c.pause_state ≡ false
      → treatment_of m.kind m.text ≡ Treatment.pass
      → IsQuiet c (transmit l agent m c).state
  unfolding transmit
  transmit-IsQuiet c n p = elim (Bool-cases (is_injected m.kind)) [
    | inl i ↦
        (let noted = note_injected agent m.text c in
          let quiet = note_injected-IsQuiet c n in
          rw i (
            IsQuiet-trans c noted (route l agent m noted).state quiet
              (route-IsQuiet noted quiet.waits p)))
    | inr i ↦ rw i (route-IsQuiet c n p)
  ]

  send_paused-IsQuiet :
      (t : Treatment) (c : Coordinator)
      → is_running c.pause_state ≡ false
      → treatment_of m.kind m.text ≡ t
      → IsQuiet c (send_paused t l agent m c).state
  unfolding send_paused
  send_paused-IsQuiet Treatment.hold c n p = record {
    waits = n;
    more = record { agent = agent; message = m } ∷ [];
    held = refl;
    news = [];
    sent = refl;
    silent = tt;
  }
  send_paused-IsQuiet Treatment.drop c n p = unchanged-IsQuiet c c n refl refl
  send_paused-IsQuiet Treatment.pass c n p = transmit-IsQuiet c n p

pub send_to_agent-IsQuiet :
    (l : Link) (agent : AgentId) (m : Message) (c : Coordinator)
    → is_running c.pause_state ≡ false
    → IsQuiet c (send_to_agent l agent m c).state
unfolding send_to_agent
send_to_agent-IsQuiet l agent m c n =
    rw n (send_paused-IsQuiet l agent (prepared l agent m) _ c n refl)
