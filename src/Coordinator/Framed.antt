-- ===== src/Coordinator/Framed.antt =====
-- What the prompts of internal/coordinator/coordinator.go leave as it is when the agents work again.
use duo.Prelude.{◌≡◌, refl, inl, inr, arith, true, false, not, ◌||◌, ◌&&◌, Bool, Bool-cases, List}
use duo.Text.{codes}
use duo.Project.Agent.{AgentId}
use duo.Project.Mode.{mode_string}
use duo.Project.Verification.{Time}
use duo.Project.Snapshot.{snapshot}
use duo.Coordinator.State.{Coordinator, Link, HeldMessage, is_agent_connected}
use duo.Coordinator.Send.{Done, send_to_agent, send_mode_change}
use duo.Coordinator.Wake.{
  is_waiting, wake_agent, wake_text, attempted, resume_message, after_prompt, deliver_resume_work,
  prompt_connected, may_resume, enabled, end_request, request_resume_work,
}
use duo.Coordinator.Frame.{
  IsFramed, IsFramed-refl, IsFramed-trans, send_to_agent-IsFramed, send_mode_change-IsFramed,
}

pub wake_agent-IsFramed :
    (l : Link) (held : List HeldMessage) (agent : AgentId) (c : Coordinator)
    → IsFramed c (wake_agent l held agent c).state
unfolding wake_agent
wake_agent-IsFramed l held agent c = elim (Bool-cases (is_waiting (snapshot c.project) agent)) [
  | inl w ↦ rw w (IsFramed-refl c)
  | inr w ↦
      (let d = send_mode_change l (mode_string c.project.mode) (codes "") agent c in
        let m = resume_message agent (wake_text l held agent d) in
        rw w (
          IsFramed-trans c d (send_to_agent l agent m d).state
            (send_mode_change-IsFramed l (mode_string c.project.mode) (codes "") agent c)
            (send_to_agent-IsFramed l agent m d)))
]

-- Nothing of the pause is written.
same-IsFramed :
    (c d : Coordinator)
    → d.pause_state ≡ c.pause_state
    → d.paused ≡ c.paused
    → d.held ≡ c.held
    → IsFramed c d
same-IsFramed c d s p h = record { state = s; flags = p; held = λ r. h }

after_prompt-IsFramed :
    (now : Time) (agent : AgentId) (r : Done) → IsFramed r.state (after_prompt now agent r).state
unfolding after_prompt
after_prompt-IsFramed now agent r =
    same-IsFramed r.state (after_prompt now agent r).state (ground arith) (ground arith)
      (ground arith)

pub deliver_resume_work-IsFramed :
    (l : Link) (now : Time) (agent : AgentId) (c : Coordinator)
    → IsFramed c (deliver_resume_work l now agent c).state
unfolding deliver_resume_work
deliver_resume_work-IsFramed l now agent c =
    elim (Bool-cases (not c.resume_work_enabled || c.resume_work_attempted agent)) [
      | inl s ↦ rw s (IsFramed-refl c)
      | inr s ↦ elim (Bool-cases (is_waiting (snapshot c.project) agent)) [
        | inl w ↦ rw (s, w) (same-IsFramed c (attempted agent true c) refl refl refl)
        | inr w ↦
            (let d = attempted agent true c in
              let m = resume_message agent (l.resume_prompt agent (snapshot c.project)) in
              let r = send_to_agent l agent m d in
              rw (s, w)
                (IsFramed-trans c d (after_prompt now agent r).state
                  (same-IsFramed c d refl refl refl)
                  (IsFramed-trans d r.state (after_prompt now agent r).state
                    (send_to_agent-IsFramed l agent m d) (after_prompt-IsFramed now agent r))))
      ]
    ]

prompt_connected-IsFramed :
    (l : Link) (now : Time) (agent : AgentId) (c : Coordinator)
    → IsFramed c (prompt_connected l now agent c).state
unfolding prompt_connected
prompt_connected-IsFramed l now agent c = elim (Bool-cases (is_agent_connected l agent)) [
  | inl s ↦ rw s (deliver_resume_work-IsFramed l now agent c)
  | inr s ↦ rw s (IsFramed-refl c)
]

end_request-IsFramed : (ok : Bool) (c : Coordinator) → IsFramed c (end_request ok c).state
unfolding end_request
end_request-IsFramed true c = same-IsFramed c (end_request true c).state refl refl refl
end_request-IsFramed false c = same-IsFramed c (end_request false c).state refl refl refl

enabled-IsFramed : (c : Coordinator) → IsFramed c (enabled c)
unfolding enabled
enabled-IsFramed c = same-IsFramed c (enabled c) (ground arith) (ground arith) (ground arith)

pub request_resume_work-IsFramed :
    (l : Link) (now : Time) (c : Coordinator) → IsFramed c (request_resume_work l now c).state
unfolding request_resume_work
request_resume_work-IsFramed l now c = elim (Bool-cases (may_resume c)) [
  | inl g ↦
      (let a = prompt_connected l now AgentId.austin (enabled c) in
        let t = prompt_connected l now AgentId.tony a.state in
        rw g (
          IsFramed-trans c (enabled c) (end_request (a.ok && t.ok) t.state).state
            (enabled-IsFramed c)
            (IsFramed-trans (enabled c) a.state (end_request (a.ok && t.ok) t.state).state
              (prompt_connected-IsFramed l now AgentId.austin (enabled c))
              (IsFramed-trans a.state t.state (end_request (a.ok && t.ok) t.state).state
                (prompt_connected-IsFramed l now AgentId.tony a.state)
                (end_request-IsFramed (a.ok && t.ok) t.state)))))
  | inr g ↦ rw g (IsFramed-refl c)
]
