-- ===== src/Store/Migrate.antt =====
-- internal/sessionstore/migrate.go: the upgrade of a snapshot that an older schema wrote.
pub mod Laws
use duo.Prelude.{
  ℕ, zero, suc, ◌+◌, ◌-◌, Bool, true, false, ◌&&◌, ◌||◌, not, Option, none, some, map, ltb, ◌==◌,
  if◌then◌else◌, ℤ, pos, negsuc,
}
use duo.Text.{codes}
use duo.Project.Mode.{Mode, Phase, mode_eq, phase_eq}
use duo.Project.Steps.{Step, effective_policy}
use duo.Project.LoopState.{LoopState, LoopWait}
use duo.Store.Record.{StoredSnapshot, stored_mode}

-- `SchemaVersion`.
abbrev pub current_schema : ℕ
current_schema = 5

abbrev pub explicit_policy : Step → Step
explicit_policy st = record st { policy = effective_policy st }

unfoldable pub migrate_v2_to_v3 : StoredSnapshot → StoredSnapshot
unfolding stored_mode
migrate_v2_to_v3 snap = record snap {
  mode = stored_mode snap;
  steps = map explicit_policy snap.steps;
}

abbrev set_pending : Option LoopWait → Option LoopWait
set_pending none = none
set_pending (some w) = some (record w { pending = true })

unfoldable pub migrate_v3_to_v4 : StoredSnapshot → StoredSnapshot
unfolding stored_mode
migrate_v3_to_v4 snap =
    if mode_eq (stored_mode snap) Mode.loop && not (phase_eq snap.phase Phase.done)
    then record snap {
      loop = record (snap.loop) {
        approvals = λ a. codes "";
        proposal = none;
        waiting = λ a. set_pending (snap.loop.waiting a);
      };
    }
    else snap

unfoldable pub migrate_v4_to_v5 : StoredSnapshot → StoredSnapshot
unfolding stored_mode
migrate_v4_to_v5 snap =
    if mode_eq (stored_mode snap) Mode.loop
    then record snap {
      loop = record (snap.loop) { proposal = none; approvals = λ a. codes ""; finishing = false };
    }
    else snap

-- The map `migrations`.
unfoldable pub migration : ℕ → Option (StoredSnapshot → StoredSnapshot)
unfolding migrate_v2_to_v3 migrate_v3_to_v4 migrate_v4_to_v5
migration v =
    if v == 2
    then some migrate_v2_to_v3
    else if v == 3
    then some migrate_v3_to_v4
    else if v == 4
    then some migrate_v4_to_v5
    else none

abbrev is_some : Option (StoredSnapshot → StoredSnapshot) → Bool
is_some none = false
is_some (some f) = true

-- The loop of `hasMigrationPath` from `v`, with `rounds` left until the current version.
chain : ℕ → ℕ → Bool
unfolding migration
chain zero v = true
chain (suc rounds) v = let rest = chain rounds (v + 1) in is_some (migration v) && rest

unfoldable pub has_migration_path : ℤ → Bool
unfolding chain
has_migration_path (negsuc n) = false
has_migration_path (pos v) =
    if ltb v 1 || ltb current_schema v then false else chain (current_schema - v) v

abbrev apply_step : Option (StoredSnapshot → StoredSnapshot) → StoredSnapshot → StoredSnapshot
apply_step none snap = snap
apply_step (some f) snap = f snap

-- The loop of `Migrate`. A missing step would be the call of a nil function; the path excludes it.
upgrade : ℕ → ℕ → StoredSnapshot → StoredSnapshot
unfolding migration
upgrade zero v snap = snap
upgrade (suc rounds) v snap =
    upgrade rounds (v + 1) (record (apply_step (migration v) snap) { schema_version = pos (v + 1) })

-- `Migrate`; `none` is a version that cannot be read.
unfoldable pub migrate : StoredSnapshot → Option StoredSnapshot
unfolding has_migration_path upgrade
migrate snap = elim snap.schema_version [
  | negsuc n ↦ none
  | pos v ↦
      if has_migration_path (pos v)
      then some (record (upgrade (current_schema - v) v snap) { persisted_schema_version = pos v })
      else none
]
