-- ===== src/Coordinator/Quiet.antt =====
-- What leaves a session of internal/coordinator/coordinator.go while it is pausing or paused.
use duo.Prelude.{
  ◌≡◌, refl, subst, ◌∙◌, ap, inl, inr, arith, true, false, not, ◌&&◌, ◌||◌, Bool, Bool-cases,
  Option, List, [], ◌∷◌,
}
use duo.Project.Agent.{AgentId, Activity}
use duo.Coordinator.State.{Coordinator, Link, PauseSnapshot, is_running, is_idle}
use duo.Coordinator.Send.{send_to_agent}
use duo.Coordinator.State.{emit_pause}
use duo.Coordinator.Followed.{with_flag, note_settled-IsNoted, moved_pause-waits}
use duo.Coordinator.Pause.{
  settle_pause, restored_pause, restore_pause, note_settled, follow, refresh_pause, set_pause,
  hold_harness, release_harness, hold_resume,
}
use duo.Coordinator.Wake.{
  request_resume_work, may_resume, deliver_resume_work, after_prompt, is_waiting, attempted,
  resume_message,
}
use duo.Project.Snapshot.{snapshot}
use duo.Coordinator.Send.{Done}
use duo.Project.Verification.{Time}
use duo.Coordinator.Operation.{Op, apply, run}
use duo.Coordinator.Silent.{IsQuiet, IsQuiet-trans, unchanged-IsQuiet, send_to_agent-IsQuiet}

settle_pause-IsQuiet :
    (c : Coordinator) → is_running c.pause_state ≡ false → IsQuiet c (settle_pause c)
unfolding settle_pause
settle_pause-IsQuiet c n =
    unchanged-IsQuiet c (settle_pause c) (ground arith) (ground arith) (ground arith)

restore-IsQuiet :
    (l : Link) (snap : PauseSnapshot) (c : Coordinator)
    → is_running c.pause_state ≡ false
    → IsQuiet c (restore_pause l snap c)
unfolding restore_pause restored_pause settle_pause emit_pause
restore-IsQuiet l snap c n =
    unchanged-IsQuiet c (restore_pause l snap c) (ground arith) (ground arith) (ground arith)

follow-IsQuiet :
    (l : Link) (agent : AgentId) (c : Coordinator)
    → is_running c.pause_state ≡ false
    → IsQuiet c (follow l agent c)
unfolding follow emit_pause
follow-IsQuiet l agent c n =
    unchanged-IsQuiet c (follow l agent c)
      (ground (arith, moved_pause-waits agent (with_flag agent (is_idle l c agent) c) n))
      (ground arith) (ground arith)

refresh-IsQuiet :
    (l : Link) (agent : AgentId) (activity : Option Activity) (c : Coordinator)
    → is_running c.pause_state ≡ false
    → IsQuiet c (refresh_pause l agent activity c)
unfolding refresh_pause
refresh-IsQuiet l agent activity c n =
    let d = note_settled activity agent c in
    let m = ap is_running (note_settled-IsNoted activity agent c).state ∙ n in
    rw m (
      IsQuiet-trans c d (follow l agent d)
        (unchanged-IsQuiet c d m (note_settled-IsNoted activity agent c).held
          (note_settled-IsNoted activity agent c).sent)
        (follow-IsQuiet l agent d m))

-- An operation that does not end a pause.
abbrev pub keeps_pause : Op → Bool
keeps_pause (Op.cancel l) = false
keeps_pause (Op.continue l) = false
keeps_pause _ = true

refused_pause-IsQuiet :
    (l : Link) (c : Coordinator)
    → is_running c.pause_state ≡ false
    → IsQuiet c (set_pause l c).state
unfolding set_pause
refused_pause-IsQuiet l c n = rw n (unchanged-IsQuiet c c n refl refl)

request-IsQuiet :
    (l : Link) (now : Time) (c : Coordinator)
    → is_running c.pause_state ≡ false
    → IsQuiet c (request_resume_work l now c).state
unfolding request_resume_work may_resume
request-IsQuiet l now c n = subst (IsQuiet c) (ground arith) (unchanged-IsQuiet c c n refl refl)

after_prompt-IsQuiet :
    (now : Time) (agent : AgentId) (r : Done)
    → is_running r.state.pause_state ≡ false
    → IsQuiet r.state (after_prompt now agent r).state
unfolding after_prompt
after_prompt-IsQuiet now agent r n =
    unchanged-IsQuiet r.state (after_prompt now agent r).state (ground arith) (ground arith)
      (ground arith)

connect-IsQuiet :
    (l : Link) (now : Time) (agent : AgentId) (c : Coordinator)
    → is_running c.pause_state ≡ false
    → IsQuiet c (deliver_resume_work l now agent c).state
unfolding deliver_resume_work
connect-IsQuiet l now agent c n =
    elim (Bool-cases (not c.resume_work_enabled || c.resume_work_attempted agent)) [
      | inl s ↦ rw s (unchanged-IsQuiet c c n refl refl)
      | inr s ↦ elim (Bool-cases (is_waiting (snapshot c.project) agent)) [
        | inl w ↦ rw (s, w) (unchanged-IsQuiet c (attempted agent true c) n refl refl)
        | inr w ↦
            (let d = attempted agent true c in
              let m = resume_message agent (l.resume_prompt agent (snapshot c.project)) in
              let sent = send_to_agent-IsQuiet l agent m d n in
              let r = send_to_agent l agent m d in
              rw (s, w)
                (IsQuiet-trans c d (after_prompt now agent r).state
                  (unchanged-IsQuiet c d n refl refl)
                  (IsQuiet-trans d r.state (after_prompt now agent r).state sent
                    (after_prompt-IsQuiet now agent r sent.waits))))
      ]
    ]

apply-IsQuiet :
    (op : Op) (c : Coordinator)
    → keeps_pause op ≡ true
    → is_running c.pause_state ≡ false
    → IsQuiet c (apply op c)
unfolding apply hold_harness release_harness hold_resume
apply-IsQuiet (Op.pause l) c k n = refused_pause-IsQuiet l c n
apply-IsQuiet (Op.restore l snap) c k n = restore-IsQuiet l snap c n
apply-IsQuiet (Op.refresh l agent activity) c k n = refresh-IsQuiet l agent activity c n
apply-IsQuiet (Op.send l agent m) c k n = send_to_agent-IsQuiet l agent m c n
apply-IsQuiet (Op.request_resume l now) c k n = request-IsQuiet l now c n
apply-IsQuiet (Op.connect l now agent) c k n = connect-IsQuiet l now agent c n
apply-IsQuiet Op.hold_work c k n = unchanged-IsQuiet c (hold_harness c) n refl refl
apply-IsQuiet Op.release_work c k n = unchanged-IsQuiet c (release_harness c) n refl refl
apply-IsQuiet Op.hold_resumed c k n = unchanged-IsQuiet c (hold_resume c) n refl refl
apply-IsQuiet (Op.change_project s) c k n =
    unchanged-IsQuiet c (record c { project = s }) n refl refl
apply-IsQuiet (Op.change_tracker t) c k n =
    unchanged-IsQuiet c (record c { tracker = t }) n refl refl
apply-IsQuiet (Op.cancel l) c k n = absurd (ground arith)
apply-IsQuiet (Op.continue l) c k n = absurd (ground arith)

abbrev pub all_keep_pause : List Op → Bool
all_keep_pause [] = true
all_keep_pause (op ∷ ops) = keeps_pause op && all_keep_pause ops

-- From a session that is pausing or paused, whatever happens but a cancel or a continue: it is still
-- not running, what was held is held, in its order, and nothing has gone out that would start or steer
-- a turn of an agent, or tell it something.
pub paused_is_quiet :
    (ops : List Op) (c : Coordinator)
    → all_keep_pause ops ≡ true
    → is_running c.pause_state ≡ false
    → IsQuiet c (run ops c)
unfolding run
paused_is_quiet [] c k n = unchanged-IsQuiet c c n refl refl
paused_is_quiet (op ∷ ops) c k n =
    let first = apply-IsQuiet op c (ground arith) n in
    IsQuiet-trans c (apply op c) (run ops (apply op c)) first
      (paused_is_quiet ops (apply op c) (ground arith) first.waits)
