-- ===== src/Coordinator/Consistent.antt =====
-- Every history keeps the invariant of the pause of internal/coordinator/coordinator.go.
use duo.Prelude.{
  ◌≡◌, refl, inl, inr, arith, Bool, true, false, ◌&&◌, Bool-cases, Option, List, [], ◌∷◌,
}
use duo.Project.Agent.{AgentId, Activity, is_peer}
use duo.Coordinator.State.{Coordinator, Link, is_running, is_idle, all_paused, emit_pause}
use duo.Coordinator.Pause.{
  note_settled, moved_pause, follow, refresh_pause, hold_harness, release_harness, hold_resume,
}
use duo.Coordinator.Operation.{Op, apply, run}
use duo.Coordinator.Frame.{send_to_agent-IsFramed}
use duo.Coordinator.Framed.{deliver_resume_work-IsFramed, request_resume_work-IsFramed}
use duo.Coordinator.Followed.{with_flag, note_settled-IsNoted}
use duo.Coordinator.Begun.{
  IsConsistent, is_published, same-IsConsistent, framed-IsConsistent, emitted-IsConsistent,
  choose-IsConsistent, set_pause-IsConsistent, cancel_pause-IsConsistent,
  continue_pause-IsConsistent, restore_pause-IsConsistent,
}

moved-IsConsistent :
    (agent : AgentId) (idle : Bool) (c : Coordinator)
    → is_peer agent ≡ true
    → is_running c.pause_state ≡ false
    → IsConsistent c
    → let d = with_flag agent idle c in
      IsConsistent (record d { pause_state = moved_pause agent d })
unfolding moved_pause all_paused
moved-IsConsistent AgentId.austin idle c p n v = record {
  known = ground (arith, v.known);
  empty = λ r. ground (arith, v.known);
  austin = λ r. ground (arith, v.known);
  tony = λ r. ground (arith, v.known);
  pending = λ r. ground (arith, v.known, v.pending, v.reached);
  reached = λ r. ground (arith, v.known, v.pending, v.reached);
}
moved-IsConsistent AgentId.tony idle c p n v = record {
  known = ground (arith, v.known);
  empty = λ r. ground (arith, v.known);
  austin = λ r. ground (arith, v.known);
  tony = λ r. ground (arith, v.known);
  pending = λ r. ground (arith, v.known, v.pending, v.reached);
  reached = λ r. ground (arith, v.known, v.pending, v.reached);
}
moved-IsConsistent AgentId.duo_core idle c p n v = absurd (ground arith)
moved-IsConsistent (AgentId.other t) idle c p n v = absurd (ground arith)

followed-IsConsistent :
    (l : Link) (agent : AgentId) (c : Coordinator)
    → is_peer agent ≡ true
    → is_running c.pause_state ≡ false
    → IsConsistent c
    → IsConsistent (follow l agent c)
unfolding follow
followed-IsConsistent l agent c p n v =
    let idle = is_idle l c agent in
    let d = with_flag agent idle c in
    let e = record d { pause_state = moved_pause agent d } in
    let made = moved-IsConsistent agent idle c p n v in
    choose-IsConsistent _ (emit_pause e) e (emitted-IsConsistent e made) made

pub refresh_pause-IsConsistent :
    (l : Link) (agent : AgentId) (activity : Option Activity) (c : Coordinator)
    → is_peer agent ≡ true
    → IsConsistent c
    → IsConsistent (refresh_pause l agent activity c)
unfolding refresh_pause
refresh_pause-IsConsistent l agent activity c p v =
    let d = note_settled activity agent c in
    let f = note_settled-IsNoted activity agent c in
    let noted =
      framed-IsConsistent c d (record { state = f.state; flags = f.flags; held = λ r. f.held }) v in
    elim (Bool-cases (is_running d.pause_state)) [
      | inl r ↦ rw r noted
      | inr r ↦ rw r (followed-IsConsistent l agent d p r noted)
    ]

-- A refresh is of Austin or Tony, and a pause is restored as it was published.
abbrev pub is_proper : Op → Bool
is_proper (Op.restore l snap) = is_published snap
is_proper (Op.refresh l agent activity) = is_peer agent
is_proper _ = true

apply-IsConsistent :
    (op : Op) (c : Coordinator) → is_proper op ≡ true → IsConsistent c → IsConsistent (apply op c)
unfolding apply hold_harness release_harness hold_resume
apply-IsConsistent (Op.pause l) c p v = set_pause-IsConsistent l c v
apply-IsConsistent (Op.cancel l) c p v = cancel_pause-IsConsistent l c v
apply-IsConsistent (Op.continue l) c p v = continue_pause-IsConsistent l c v
apply-IsConsistent (Op.restore l snap) c p v = restore_pause-IsConsistent l snap c p v
apply-IsConsistent (Op.refresh l agent activity) c p v =
    refresh_pause-IsConsistent l agent activity c p v
apply-IsConsistent (Op.send l agent m) c p v =
    framed-IsConsistent c _ (send_to_agent-IsFramed l agent m c) v
apply-IsConsistent (Op.request_resume l now) c p v =
    framed-IsConsistent c _ (request_resume_work-IsFramed l now c) v
apply-IsConsistent (Op.connect l now agent) c p v =
    framed-IsConsistent c _ (deliver_resume_work-IsFramed l now agent c) v
apply-IsConsistent Op.hold_work c p v = same-IsConsistent c (hold_harness c) refl refl refl v
apply-IsConsistent Op.release_work c p v = same-IsConsistent c (release_harness c) refl refl refl v
apply-IsConsistent Op.hold_resumed c p v = same-IsConsistent c (hold_resume c) refl refl refl v
apply-IsConsistent (Op.change_project s) c p v =
    same-IsConsistent c (record c { project = s }) refl refl refl v
apply-IsConsistent (Op.change_tracker t) c p v =
    same-IsConsistent c (record c { tracker = t }) refl refl refl v

abbrev pub all_proper : List Op → Bool
all_proper [] = true
all_proper (op ∷ ops) = is_proper op && all_proper ops

-- Every history, whose refreshes are of Austin or Tony and which restores a pause only as it was
-- published, keeps this: a running session holds no message and has no flag set, a pausing one has an
-- agent whose flag is not set, a paused one has none.
pub run-IsConsistent :
    (ops : List Op) (c : Coordinator)
    → all_proper ops ≡ true
    → IsConsistent c
    → IsConsistent (run ops c)
unfolding run
run-IsConsistent [] c p v = v
run-IsConsistent (op ∷ ops) c p v =
    run-IsConsistent ops (apply op c) (ground arith) (apply-IsConsistent op c (ground arith) v)
