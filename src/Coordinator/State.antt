-- ===== src/Coordinator/State.antt =====
-- internal/coordinator/coordinator.go: the fields of Coordinator that a pause touches, and what the
-- delivery paths of the agents answer.
use duo.Prelude.{Bool, true, false, ◌&&◌, ◌||◌, not, Option, none, some, List, [], ◌∷◌}
use duo.Text.{Text, codes}
use duo.Project.Agent.{AgentId, put}
use duo.Project.State.{State}
use duo.Project.Snapshot.{Snapshot}
use duo.Harness.Tracker.{Tracker, snapshot}
use duo.Coordinator.Message.{Message}

-- `pauseState` is a string; `other` holds the strings that the code never sets.
pub data PauseState : Type 0 where
  running pausing paused : PauseState
  other : Text → PauseState

abbrev pub is_running : PauseState → Bool
is_running PauseState.running = true
is_running _ = false

abbrev pub is_pausing : PauseState → Bool
is_pausing PauseState.pausing = true
is_pausing _ = false

abbrev pub is_paused : PauseState → Bool
is_paused PauseState.paused = true
is_paused _ = false

-- `heldMessage`.
pub record HeldMessage : Type 0 where
  pub agent : AgentId
  pub message : Message

-- `PauseSnapshot`.
pub record PauseSnapshot : Type 0 where
  pub state : PauseState
  pub paused : AgentId → Bool

-- What goes out: a message over the bridge, or a message with the bytes that are typed for it into the
-- agent's terminal.
pub data Outgoing : Type 0 where
  bridged : AgentId → Message → Outgoing
  typed : AgentId → Message → Text → Outgoing

-- `sent` has what went out, the latest first, and `published` the snapshots that the observer of the
-- pause got. The map of attempted agents is empty until resume work is enabled.
pub record Coordinator : Type 0 where
  pub project : State
  pub tracker : Option Tracker
  pub pause_state : PauseState
  pub paused : AgentId → Bool
  pub settled : AgentId → Bool
  pub held : List HeldMessage
  pub harness_off : Bool
  pub resume_pending : Bool
  pub resume_work_in_flight : Bool
  pub resume_work_enabled : Bool
  pub resume_work_attempted : AgentId → Bool
  pub injected : AgentId → Text
  pub sent : List Outgoing
  pub published : List PauseSnapshot

-- The paths to the agents while an operation runs: the socket server and the agents connected to it,
-- the running drivers and what they declare, and whether a write succeeds. The texts that Core words
-- are here, too: the prompt of a resume, the paragraph on transcripts, which is empty where no
-- session is on record, and the cut of a text to the tools of an agent.
pub record Link : Type 0 where
  pub has_server : Bool
  pub is_connected : AgentId → Bool
  pub is_driven : AgentId → Bool
  pub live_steering : AgentId → Bool
  pub pty_fallback : AgentId → Bool
  pub server_send : AgentId → Message → Bool
  pub write : AgentId → Text → Bool
  pub available : AgentId → Text → Text
  pub resume_prompt : AgentId → Snapshot → Text
  pub transcripts : AgentId → Text

-- `New`.
abbrev pub new_coordinator : State → Option Tracker → Coordinator
new_coordinator state tracker = record {
  project = state;
  tracker = tracker;
  pause_state = PauseState.running;
  paused = λ a. false;
  settled = put (put (λ a. false) AgentId.austin true) AgentId.tony true;
  held = [];
  harness_off = false;
  resume_pending = false;
  resume_work_in_flight = false;
  resume_work_enabled = false;
  resume_work_attempted = λ a. false;
  injected = λ a. codes "";
  sent = [];
  published = [];
}

-- `IsAgentConnected`.
abbrev pub is_agent_connected : Link → AgentId → Bool
is_agent_connected l agent = (l.has_server && l.is_connected agent) || l.is_driven agent

-- The tracker, if there is one, has the agent busy.
unfoldable pub is_busy : Coordinator → AgentId → Bool
unfolding snapshot
is_busy c agent = elim c.tracker [ none ↦ false | some t ↦ (snapshot agent t).busy ]

-- `isIdleLocked`.
unfoldable pub is_idle : Link → Coordinator → AgentId → Bool
unfolding is_busy
is_idle l c agent =
    not (is_agent_connected l agent)
    || elim c.tracker [ none ↦ true | some t ↦ not (is_busy c agent) && c.settled agent ]

-- `allPausedLocked`.
unfoldable pub all_paused : Coordinator → Bool
all_paused c = c.paused AgentId.austin && c.paused AgentId.tony

-- `pauseSnapshotLocked`.
unfoldable pub pause_snapshot : Coordinator → PauseSnapshot
pause_snapshot c = record {
  state = c.pause_state;
  paused =
      put (put (λ a. false) AgentId.austin (c.paused AgentId.austin)) AgentId.tony
        (c.paused AgentId.tony);
}

-- `emitPause`, whose text for the timeline is left out.
unfoldable pub emit_pause : Coordinator → Coordinator
unfolding pause_snapshot
emit_pause c = record c { published = pause_snapshot c ∷ c.published }

-- `HarnessHeld`.
unfoldable pub harness_held : Coordinator → Bool
harness_held c = c.harness_off || not (is_running c.pause_state)
