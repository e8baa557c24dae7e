-- ===== src/Coordinator/Invisible.antt =====
-- What CancelPause of internal/coordinator/coordinator.go does with the messages of the pause.
use duo.Prelude.{
  ◌≡◌, refl, ◌∙◌, sym, ap, arith, true, false, List, [], ◌∷◌, ◌++◌, map, append_nil, append_assoc,
}
use duo.Coordinator.Message.{Treatment, treatment_of}
use duo.Coordinator.State.{Coordinator, Link, HeldMessage, is_running, is_pausing}
use duo.Coordinator.Send.{send_to_agent, send_paused, prepared}
use duo.Coordinator.Pause.{send_held, released, cancel_pause}
use duo.Coordinator.State.{emit_pause, PauseState}

-- A message in the form in which it is held.
abbrev pub prepared_item : Link → HeldMessage → HeldMessage
prepared_item l item = record item { message = prepared l item.agent item.message }

-- Every message is of a type that a pause holds.
abbrev pub AreHeld : Link → List HeldMessage → Type 0
AreHeld l [] = Unit {0}
AreHeld l (item ∷ rest) =
    (treatment_of (prepared_item l item).message.kind (prepared_item l item).message.text
      ≡ Treatment.hold)
    × AreHeld l rest

-- A message that a pause holds goes to the end of the list.
hold_lem :
    (l : Link) (item : HeldMessage) (c : Coordinator)
    → is_running c.pause_state ≡ false
    → treatment_of (prepared_item l item).message.kind (prepared_item l item).message.text
      ≡ Treatment.hold
    → (send_to_agent l item.agent item.message c).state
      ≡ record c { held = c.held ++ (prepared_item l item ∷ []) }
unfolding send_to_agent send_paused
hold_lem l item c n h = rw (n, h) refl

pub held_lem :
    (l : Link) (items : List HeldMessage) (c : Coordinator)
    → is_running c.pause_state ≡ false
    → AreHeld l items
    → send_held l items c ≡ record c { held = c.held ++ map (prepared_item l) items }
unfolding send_held
held_lem l [] c n h = ap (λ h. record c { held = h }) (sym (append_nil c.held))
held_lem l (item ∷ rest) c n (h, hs) = rw (hold_lem l item c n h) (
    held_lem l rest (record c { held = c.held ++ (prepared_item l item ∷ []) }) n hs
    ∙ ap (λ h. record c { held = h })
        (append_assoc c.held (prepared_item l item ∷ []) (map (prepared_item l) rest)))

send_held-append :
    (l : Link) (xs ys : List HeldMessage) (c : Coordinator)
    → send_held l (xs ++ ys) c ≡ send_held l ys (send_held l xs c)
unfolding send_held
send_held-append l [] ys c = refl
send_held-append l (x ∷ xs) ys c = send_held-append l xs ys _

cancel_lem :
    (l : Link) (c : Coordinator)
    → is_pausing c.pause_state ≡ true
    → (cancel_pause l c).state ≡ send_held l c.held (emit_pause (released c))
unfolding cancel_pause
cancel_lem l c p = rw p refl

-- Messages that a pending pause holds, and a cancel after them, leave all that the cancel and the same
-- messages after it leave, in the form in which they were held: nothing is lost, doubled or reordered.
pub cancelled_pause_is_invisible :
    (l l' : Link) (items : List HeldMessage) (c : Coordinator)
    → c.pause_state ≡ PauseState.pausing
    → AreHeld l items
    → (cancel_pause l' (send_held l items c)).state
      ≡ send_held l' (map (prepared_item l) items) (cancel_pause l' c).state
cancelled_pause_is_invisible l l' items c p h = rw (held_lem l items c (ground arith) h) (
    cancel_lem l' (record c { held = c.held ++ map (prepared_item l) items }) (ground arith)
    ∙ send_held-append l' c.held (map (prepared_item l) items) (emit_pause (released c))
    ∙ ap (send_held l' (map (prepared_item l) items)) (sym (cancel_lem l' c (ground arith))))
