-- ===== src/Coordinator/Reached.antt =====
-- When refreshPause of internal/coordinator/coordinator.go completes a pause.
use duo.Prelude.{
  ◌≡◌, refl, ◌∙◌, ap, inl, inr, Option-cases, arith, Bool, true, false, ◌&&◌, Option, none,
}
use duo.Project.Agent.{AgentId, Activity, is_peer, peer_of}
use duo.Coordinator.State.{
  Coordinator, Link, is_running, is_paused, is_idle, is_busy, all_paused, emit_pause,
}
use duo.Coordinator.Pause.{note_settled, moved_pause, follow, refresh_pause}
use duo.Coordinator.Followed.{with_flag, note_settled-IsNoted, moved_pause-waits}
use duo.Coordinator.Begun.{IsConsistent, framed-IsConsistent}
use duo.Coordinator.Consistent.{refresh_pause-IsConsistent}

-- The state after one flag is written.
moved_lem :
    (agent : AgentId) (idle : Bool) (c : Coordinator)
    → is_peer agent ≡ true
    → is_running c.pause_state ≡ false
    → IsConsistent c
    → is_paused (moved_pause agent (with_flag agent idle c)) ≡ (idle && c.paused (peer_of agent))
unfolding moved_pause all_paused peer_of
moved_lem AgentId.austin idle c p n v = ground (arith, v.known, v.pending, v.reached)
moved_lem AgentId.tony idle c p n v = ground (arith, v.known, v.pending, v.reached)
moved_lem AgentId.duo_core idle c p n v = absurd (ground arith)
moved_lem (AgentId.other t) idle c p n v = absurd (ground arith)

-- What a pause that follows an agent leaves.
record IsFollowed (l : Link) (agent : AgentId) (c d : Coordinator) : Type 0 where
  state : d.pause_state ≡ moved_pause agent (with_flag agent (is_idle l c agent) c)
  flags : d.paused ≡ (with_flag agent (is_idle l c agent) c).paused
  settled : d.settled ≡ c.settled
  tracker : d.tracker ≡ c.tracker

follow-IsFollowed :
    (l : Link) (agent : AgentId) (c : Coordinator) → IsFollowed l agent c (follow l agent c)
unfolding follow emit_pause
follow-IsFollowed l agent c = record {
  state = ground arith;
  flags = ground arith;
  settled = ground arith;
  tracker = ground arith;
}

refresh_lem :
    (l : Link) (agent : AgentId) (activity : Option Activity) (c : Coordinator)
    → is_running c.pause_state ≡ false
    → refresh_pause l agent activity c ≡ follow l agent (note_settled activity agent c)
unfolding refresh_pause
refresh_lem l agent activity c n =
    rw (ap is_running (note_settled-IsNoted activity agent c).state ∙ n) refl

noted-IsConsistent :
    (activity : Option Activity) (agent : AgentId) (c : Coordinator)
    → IsConsistent c
    → IsConsistent (note_settled activity agent c)
noted-IsConsistent activity agent c v =
    let f = note_settled-IsNoted activity agent c in
    framed-IsConsistent c (note_settled activity agent c)
      (record { state = f.state; flags = f.flags; held = λ r. f.held }) v

-- In a consistent session that is not running, a refresh of Austin or Tony ends in the paused state
-- exactly if this agent is idle, once the event is noted, and the flag of the other one is set.
pub refresh_decides :
    (l : Link) (agent : AgentId) (activity : Option Activity) (c : Coordinator)
    → is_peer agent ≡ true
    → is_running c.pause_state ≡ false
    → IsConsistent c
    → is_paused (refresh_pause l agent activity c).pause_state
      ≡ (is_idle l (note_settled activity agent c) agent && c.paused (peer_of agent))
refresh_decides l agent activity c p n v =
    let d = note_settled activity agent c in
    let f = note_settled-IsNoted activity agent c in
    rw (refresh_lem l agent activity c n) (
      ap is_paused (follow-IsFollowed l agent d).state
      ∙ moved_lem agent (is_idle l d agent) d p (ap is_running f.state ∙ n)
          (noted-IsConsistent activity agent c v)
      ∙ ap (λ flags. is_idle l d agent && flags (peer_of agent)) f.flags)

same_idle :
    (l : Link) (b : AgentId) (c d : Coordinator)
    → d.settled ≡ c.settled
    → d.tracker ≡ c.tracker
    → is_idle l d b ≡ is_idle l c b
unfolding is_idle is_busy
same_idle l b c d s t = elim (Option-cases c.tracker) [
  | inl e ↦ ground (arith, ap (λ f. f b) s, t, e)
  | inr (r, e) ↦ ground (arith, ap (λ f. f b) s, t, e)
]

-- A bare refresh leaves an idle agent idle.
noted_stays_idle :
    (l : Link) (agent b : AgentId) (c : Coordinator)
    → is_peer agent ≡ true
    → is_peer b ≡ true
    → is_idle l c b ≡ true
    → is_idle l (note_settled none agent c) b ≡ true
unfolding note_settled is_idle is_busy
noted_stays_idle l AgentId.austin AgentId.austin c p q h = ground arith
noted_stays_idle l AgentId.austin AgentId.tony c p q h = ground arith
noted_stays_idle l AgentId.tony AgentId.austin c p q h = ground arith
noted_stays_idle l AgentId.tony AgentId.tony c p q h = ground arith
noted_stays_idle l AgentId.duo_core b c p q h = absurd (ground arith)
noted_stays_idle l (AgentId.other t) b c p q h = absurd (ground arith)
noted_stays_idle l a AgentId.duo_core c p q h = absurd (ground arith)
noted_stays_idle l a (AgentId.other t) c p q h = absurd (ground arith)

refreshed_stays_idle :
    (l : Link) (c : Coordinator)
    → is_running c.pause_state ≡ false
    → is_idle l c AgentId.tony ≡ true
    → is_idle l (refresh_pause l AgentId.austin none c) AgentId.tony ≡ true
refreshed_stays_idle l c n t =
    let d = note_settled none AgentId.austin c in
    let f = follow-IsFollowed l AgentId.austin d in
    rw (refresh_lem l AgentId.austin none c n) (
      same_idle l AgentId.tony d (follow l AgentId.austin d) f.settled f.tracker
      ∙ noted_stays_idle l AgentId.austin AgentId.tony c refl refl t)

refreshed_flag :
    (l : Link) (c : Coordinator)
    → is_running c.pause_state ≡ false
    → is_idle l c AgentId.austin ≡ true
    → (refresh_pause l AgentId.austin none c).paused AgentId.austin ≡ true
refreshed_flag l c n a =
    let d = note_settled none AgentId.austin c in
    rw (refresh_lem l AgentId.austin none c n) (
      ap (λ flags. flags AgentId.austin) (follow-IsFollowed l AgentId.austin d).flags
      ∙ noted_stays_idle l AgentId.austin AgentId.austin c refl refl a)

refreshed_waits :
    (l : Link) (agent : AgentId) (c : Coordinator)
    → is_running c.pause_state ≡ false
    → is_running (refresh_pause l agent none c).pause_state ≡ false
refreshed_waits l agent c n =
    let d = note_settled none agent c in
    let f = note_settled-IsNoted none agent c in
    rw (refresh_lem l agent none c n) (
      ap is_running (follow-IsFollowed l agent d).state
      ∙ moved_pause-waits agent (with_flag agent (is_idle l d agent) d) (ap is_running f.state ∙ n))

-- In a consistent session that is not running, whose agents are both idle, a refresh of each completes
-- the pause.
pub pause_completes :
    (l : Link) (c : Coordinator)
    → is_running c.pause_state ≡ false
    → IsConsistent c
    → is_idle l c AgentId.austin ≡ true
    → is_idle l c AgentId.tony ≡ true
    → is_paused
        (refresh_pause l AgentId.tony none (refresh_pause l AgentId.austin none c)).pause_state
      ≡ true
unfolding peer_of
pause_completes l c n v a t =
    let d = refresh_pause l AgentId.austin none c in
    refresh_decides l AgentId.tony none d refl (refreshed_waits l AgentId.austin c n)
      (refresh_pause-IsConsistent l AgentId.austin none c refl v)
    ∙ rw (noted_stays_idle l AgentId.tony AgentId.tony d refl refl (refreshed_stays_idle l c n t))
        (refreshed_flag l c n a)
