-- ===== src/Project/Restore.antt =====
-- internal/project/state.go: Restore, on resume.
use duo.Prelude.{ℕ, false, not, if◌then◌else◌, pos, negsuc}
use duo.Project.Agent.{AgentId, put}
use duo.Project.Mode.{Phase, phase_eq, valid_phase}
use duo.Project.Verification.{Time}
use duo.Project.Steps.{first_open_step}
use duo.Project.State.{State, Error}
use duo.Project.Snapshot.{Snapshot, effective_mode, Reply, commit, refuse}

abbrev pub copy_agents {ℓ} : {A : Type ℓ} → (AgentId → A) → (AgentId → A) → AgentId → A
copy_agents to from =
    put (put to AgentId.austin (from AgentId.austin)) AgentId.tony (from AgentId.tony)

restored : Time → Snapshot → ℕ → State → State
unfolding effective_mode first_open_step
restored now snap version s = record s {
  mode = effective_mode snap;
  loop =
      if phase_eq snap.phase Phase.running
      then record (snap.loop) { finishing = false }
      else snap.loop;
  phase = snap.phase;
  plan = snap.plan;
  plan_version = version;
  ready = copy_agents s.ready snap.ready;
  notes = copy_agents s.notes snap.notes;
  evidence = copy_agents s.evidence snap.evidence;
  verification = snap.verification;
  started = snap.started;
  steps = snap.steps;
  step = first_open_step snap.steps;
  last_mutation = now;
}

-- `Restore`, which returns an error alone.
unfoldable pub restore : Time → Snapshot → State → Reply (Unit {0})
unfolding restored effective_mode valid_phase
restore now snap s =
    if not (valid_phase (effective_mode snap) snap.phase)
    then refuse s tt Error.invalid_phase
    else elim snap.plan_version [
      | negsuc n ↦ refuse s tt Error.invalid_version
      | pos n ↦ commit (restored now snap n s) tt
    ]
