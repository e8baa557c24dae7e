-- ===== src/Coordinator/Begun.antt =====
-- The invariant of the pause of internal/coordinator/coordinator.go, and the operations that end a
-- pause or begin one.
use duo.Prelude.{
  ◌≡◌, refl, subst, inl, inr, arith, Bool, true, false, not, ◌&&◌, ◌||◌, Bool-cases, [],
  if◌then◌else◌,
}
use duo.Project.Agent.{AgentId}
use duo.Coordinator.State.{
  Coordinator, Link, PauseState, PauseSnapshot, is_running, is_paused, is_pausing, is_idle,
  all_paused, emit_pause,
}
use duo.Coordinator.Pause.{
  with_flags, settle_pause, restored_pause, restore_pause, set_pause, released, cancel_pause,
  clear_resume_pending,
}
use duo.Coordinator.Wake.{continued, wake_agent, continue_pause}
use duo.Coordinator.Frame.{IsFramed, send_held-IsFramed}
use duo.Coordinator.Framed.{wake_agent-IsFramed}

-- A session that runs holds no message and has no flag set; one that is pausing has an agent whose flag
-- is not set; one that is paused has none.
pub record IsConsistent (c : Coordinator) : Type 0 where
  pub known :
      (is_running c.pause_state || (is_pausing c.pause_state || is_paused c.pause_state)) ≡ true
  pub empty : is_running c.pause_state ≡ true → c.held ≡ []
  pub austin : is_running c.pause_state ≡ true → c.paused AgentId.austin ≡ false
  pub tony : is_running c.pause_state ≡ true → c.paused AgentId.tony ≡ false
  pub pending : is_pausing c.pause_state ≡ true → all_paused c ≡ false
  pub reached : is_paused c.pause_state ≡ true → all_paused c ≡ true

pub framed-IsConsistent : (c d : Coordinator) → IsFramed c d → IsConsistent c → IsConsistent d
unfolding all_paused
framed-IsConsistent c d f v = record {
  known = rw f.state v.known;
  empty = λ r. ground (arith, f.state, f.held, v.empty);
  austin = λ r. rw f.flags (v.austin (subst (λ s. is_running s ≡ true) f.state r));
  tony = λ r. rw f.flags (v.tony (subst (λ s. is_running s ≡ true) f.state r));
  pending = λ r. rw f.flags (v.pending (subst (λ s. is_pausing s ≡ true) f.state r));
  reached = λ r. rw f.flags (v.reached (subst (λ s. is_paused s ≡ true) f.state r));
}

pub settled-IsConsistent :
    (c : Coordinator)
    → (is_pausing c.pause_state || (is_paused c.pause_state && all_paused c)) ≡ true
    → IsConsistent (settle_pause c)
unfolding settle_pause all_paused
settled-IsConsistent c h = record {
  known = ground arith;
  empty = λ r. ground arith;
  austin = λ r. ground arith;
  tony = λ r. ground arith;
  pending = λ r. ground arith;
  reached = λ r. ground arith;
}

pub same-IsConsistent :
    (c d : Coordinator)
    → d.pause_state ≡ c.pause_state
    → d.paused ≡ c.paused
    → d.held ≡ c.held
    → IsConsistent c
    → IsConsistent d
same-IsConsistent c d s p h =
    framed-IsConsistent c d (record { state = s; flags = p; held = λ r. h })

pub emitted-IsConsistent : (c : Coordinator) → IsConsistent c → IsConsistent (emit_pause c)
unfolding emit_pause
emitted-IsConsistent c v = same-IsConsistent c (emit_pause c) refl refl refl v

pub choose-IsConsistent :
    (b : Bool) (c d : Coordinator)
    → IsConsistent c
    → IsConsistent d
    → IsConsistent (if b then c else d)
choose-IsConsistent true c d v w = v
choose-IsConsistent false c d v w = w

-- `RestorePause` of a state that the coordinator published: paused only with both flags.
abbrev pub is_published : PauseSnapshot → Bool
is_published snap =
    not (is_paused snap.state) || (snap.paused AgentId.austin && snap.paused AgentId.tony)

pub restored-IsConsistent :
    (l : Link) (snap : PauseSnapshot) (c : Coordinator)
    → is_published snap ≡ true
    → (is_pausing snap.state || is_paused snap.state) ≡ true
    → IsConsistent (restored_pause l snap c)
unfolding restored_pause all_paused
restored-IsConsistent l snap c p t =
    let d = record c { pause_state = snap.state } in
    settled-IsConsistent
      (if is_paused snap.state then with_flags snap.paused d else with_flags (is_idle l d) d)
      (ground arith)

pub restore_pause-IsConsistent :
    (l : Link) (snap : PauseSnapshot) (c : Coordinator)
    → is_published snap ≡ true
    → IsConsistent c
    → IsConsistent (restore_pause l snap c)
unfolding restore_pause
restore_pause-IsConsistent l snap c p v =
    elim (Bool-cases (is_pausing snap.state || is_paused snap.state)) [
      | inl t ↦
          (let d = restored_pause l snap c in
            let made = restored-IsConsistent l snap c p t in
            rw t (
              choose-IsConsistent (is_running d.pause_state) d (emit_pause d) made
                (emitted-IsConsistent d made)))
      | inr t ↦ rw t (
          choose-IsConsistent (is_running c.pause_state) c (emit_pause c) v
            (emitted-IsConsistent c v))
    ]

pub set_pause-IsConsistent :
    (l : Link) (c : Coordinator) → IsConsistent c → IsConsistent (set_pause l c).state
unfolding set_pause
set_pause-IsConsistent l c v = elim (Bool-cases (is_running c.pause_state)) [
  | inl r ↦ rw r (
      emitted-IsConsistent
        (settle_pause (with_flags (is_idle l c) (record c { pause_state = PauseState.pausing })))
        (settled-IsConsistent
          (with_flags (is_idle l c) (record c { pause_state = PauseState.pausing }))
          (ground arith)))
  | inr r ↦ rw r v
]

pub released-IsConsistent : (c : Coordinator) → IsConsistent (released c)
unfolding all_paused
released-IsConsistent c = record {
  known = refl;
  empty = λ r. refl;
  austin = λ r. refl;
  tony = λ r. refl;
  pending = λ r. ground arith;
  reached = λ r. ground arith;
}

pub cancel_pause-IsConsistent :
    (l : Link) (c : Coordinator) → IsConsistent c → IsConsistent (cancel_pause l c).state
unfolding cancel_pause
cancel_pause-IsConsistent l c v = elim (Bool-cases (is_pausing c.pause_state)) [
  | inl r ↦ rw r (
      framed-IsConsistent (emit_pause (released c)) _
        (send_held-IsFramed l c.held (emit_pause (released c)))
        (emitted-IsConsistent (released c) (released-IsConsistent c)))
  | inr r ↦ rw r v
]

pub continued-IsConsistent : (c : Coordinator) → IsConsistent (continued c)
unfolding continued clear_resume_pending emit_pause
continued-IsConsistent c =
    framed-IsConsistent (released c) (continued c)
      (record { state = ground arith; flags = ground arith; held = λ r. ground arith })
      (released-IsConsistent c)

pub continue_pause-IsConsistent :
    (l : Link) (c : Coordinator) → IsConsistent c → IsConsistent (continue_pause l c).state
unfolding continue_pause
continue_pause-IsConsistent l c v = elim (Bool-cases (is_paused c.pause_state)) [
  | inl r ↦
      (let a = wake_agent l c.held AgentId.austin (continued c) in
        let first =
          framed-IsConsistent (continued c) a.state
            (wake_agent-IsFramed l c.held AgentId.austin (continued c))
            (continued-IsConsistent c) in
        elim (Bool-cases a.ok) [
          | inl ok ↦
              rw (r, ok)
                (framed-IsConsistent a.state (wake_agent l c.held AgentId.tony a.state).state
                  (wake_agent-IsFramed l c.held AgentId.tony a.state) first)
          | inr ok ↦ rw (r, ok) first
        ])
  | inr r ↦ rw r v
]
