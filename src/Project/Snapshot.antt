-- ===== src/Project/Snapshot.antt =====
-- internal/project/state.go: snapshots, and what a public operation hands back.
use duo.Prelude.{ℕ, Bool, false, not, Option, none, some, [], if◌then◌else◌, ℤ, pos}
use duo.Text.{Text, codes}
use duo.Project.Agent.{AgentId}
use duo.Project.Mode.{Mode, Phase, no_phase, phase_eq, normalize}
use duo.Project.Verification.{Time, Verification, no_verification}
use duo.Project.Steps.{Steps}
use duo.Project.LoopState.{LoopState, fresh_loop}
use duo.Project.State.{State, Error, Result, ok, err, Transition, no_transition}

pub record Snapshot : Type 0 where
  pub loop : LoopState
  pub mode : Mode
  pub phase : Phase
  pub plan : Text
  pub plan_version : ℤ
  pub ready : AgentId → Bool
  pub notes : AgentId → Text
  pub evidence : AgentId → Text
  pub verification : Verification
  pub started : Bool
  pub last_mutation : Time
  pub step : ℕ
  pub steps : Steps

-- `EffectiveMode`.
unfoldable pub effective_mode : Snapshot → Mode
unfolding normalize
effective_mode snap = normalize snap.mode

-- A map literal with the entries of the two agents.
abbrev pub of_agents {ℓ} : {A : Type ℓ} → A → (AgentId → A) → AgentId → A
of_agents zero_value m AgentId.austin = m AgentId.austin
of_agents zero_value m AgentId.tony = m AgentId.tony
of_agents zero_value m _ = zero_value

-- `snapshotLocked`; what it copies deeply is immutable here.
unfoldable pub snapshot : State → Snapshot
snapshot s = record {
  loop = s.loop;
  mode = s.mode;
  phase = s.phase;
  plan = s.plan;
  plan_version = pos s.plan_version;
  ready = of_agents false s.ready;
  notes = of_agents (codes "") s.notes;
  evidence = of_agents (codes "") s.evidence;
  verification = s.verification;
  started = s.started;
  last_mutation = s.last_mutation;
  step = s.step;
  steps = s.steps;
}

-- `Snapshot{}`.
unfoldable pub empty_snapshot : Snapshot
empty_snapshot = record {
  loop = fresh_loop 0;
  mode = Mode.other (codes "");
  phase = no_phase;
  plan = codes "";
  plan_version = pos 0;
  ready = λ a. false;
  notes = λ a. codes "";
  evidence = λ a. codes "";
  verification = no_verification;
  started = false;
  last_mutation = 0;
  step = 0;
  steps = [];
}

-- What an operation leaves and returns, and the call of the persistence callback that it made.
pub record Reply {ℓ} (A : Type ℓ) : Type ℓ where
  pub state : State
  pub value : A
  pub error : Option Error
  pub notified : Option Snapshot

-- `notify(s.onChange, s.snapshotLocked())`.
unfoldable pub notify : State → Option Snapshot
notify s = if s.on_change then some (snapshot s) else none

abbrev pub commit {ℓ} : {A : Type ℓ} → State → A → Reply A
commit s v = record { state = s; value = v; error = none; notified = notify s }

abbrev pub refuse {ℓ} : {A : Type ℓ} → State → A → Error → Reply A
refuse s v e = record { state = s; value = v; error = some e; notified = none }

-- A return with no error and no notification.
abbrev pub silent {ℓ} : {A : Type ℓ} → State → A → Reply A
silent s v = record { state = s; value = v; error = none; notified = none }

-- `transition.Previous`, `Next` and `Advanced`, as every public operation fills them in.
abbrev pub observed : Phase → Phase → Transition → Transition
observed previous current t = record t {
  previous = previous;
  next = current;
  advanced = not (phase_eq current previous);
}

-- The common end of the operations with a transition: `s` is the state before.
unfoldable pub settle : State → Result (State × Transition) → Reply (Snapshot × Transition)
unfolding notify
settle s (err e) = refuse s (snapshot s, no_transition) e
settle s (ok (s', t)) = commit s' (snapshot s', observed s.phase s'.phase t)

-- The same for the operations that return a snapshot alone.
unfoldable pub settle_state : State → Result State → Reply Snapshot
unfolding notify
settle_state s (err e) = refuse s (snapshot s) e
settle_state s (ok s') = commit s' (snapshot s')
