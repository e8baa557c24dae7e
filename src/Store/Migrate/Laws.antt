-- ===== src/Store/Migrate/Laws.antt =====
-- What an upgrade keeps of a session.
use duo.Prelude.{ℕ, zero, suc, ◌+◌, ◌-◌, ◌≤◌, ◌≡◌, refl, some, [], ◌∷◌, map, true, arith, ℤ, pos}
use duo.Project.Mode.{normalize}
use duo.Project.Steps.{Steps, effective_policy}
use duo.Store.Record.{StoredSnapshot, stored_mode}
use duo.Store.Migrate.{
  explicit_policy, current_schema, migrate_v2_to_v3, migrate_v3_to_v4, migrate_v4_to_v5, migration,
  apply_step, upgrade, migrate, has_migration_path,
}

-- The same session: its workflow, phase, queue with its gates, signatures, inboxes, and records.
pub record SameSession (s t : StoredSnapshot) : Type 0 where
  pub mode : stored_mode t ≡ stored_mode s
  pub phase : t.phase ≡ s.phase
  pub plan : t.plan ≡ s.plan
  pub plan_version : t.plan_version ≡ s.plan_version
  pub step : t.step ≡ s.step
  pub steps : map explicit_policy t.steps ≡ map explicit_policy s.steps
  pub ready : t.ready ≡ s.ready
  pub evidence : t.evidence ≡ s.evidence
  pub verification : t.verification ≡ s.verification
  pub events : t.loop.events ≡ s.loop.events
  pub next_id : t.loop.next_id ≡ s.loop.next_id
  pub consultation : t.loop.consultation ≡ s.loop.consultation
  pub integration : t.integration ≡ s.integration
  pub delivery : t.delivery ≡ s.delivery

SameSession-refl : (s : StoredSnapshot) → SameSession s s
SameSession-refl s = ground arith

SameSession-trans : (s t u : StoredSnapshot) → SameSession s t → SameSession t u → SameSession s u
SameSession-trans s t u p q = ground arith

explicit_twice : (q : Steps) → map explicit_policy (map explicit_policy q) ≡ map explicit_policy q
unfolding effective_policy
explicit_twice [] = refl
explicit_twice (st ∷ q) = ground (arith, explicit_twice q)

migrate_v2-SameSession : (s : StoredSnapshot) → SameSession s (migrate_v2_to_v3 s)
unfolding migrate_v2_to_v3 stored_mode normalize
migrate_v2-SameSession s = ground (arith, explicit_twice s.steps)

migrate_v3-SameSession : (s : StoredSnapshot) → SameSession s (migrate_v3_to_v4 s)
unfolding migrate_v3_to_v4
migrate_v3-SameSession s = ground arith

migrate_v4-SameSession : (s : StoredSnapshot) → SameSession s (migrate_v4_to_v5 s)
unfolding migrate_v4_to_v5
migrate_v4-SameSession s = ground arith

stamp-SameSession : (n : ℤ) (s : StoredSnapshot) → SameSession s (record s { schema_version = n })
unfolding stored_mode
stamp-SameSession n s = ground arith

read-SameSession :
    (n : ℤ) (s t : StoredSnapshot)
    → SameSession s t
    → SameSession s (record t { persisted_schema_version = n })
unfolding stored_mode
read-SameSession n s t h = ground arith

apply_step-SameSession : (v : ℕ) (s : StoredSnapshot) → SameSession s (apply_step (migration v) s)
unfolding migration
apply_step-SameSession v s = ground (
  arith,
  migrate_v2-SameSession s,
  migrate_v3-SameSession s,
  migrate_v4-SameSession s,
  SameSession-refl s,
)

upgrade-SameSession : (rounds v : ℕ) (s : StoredSnapshot) → SameSession s (upgrade rounds v s)
unfolding upgrade
upgrade-SameSession zero v s = SameSession-refl s
upgrade-SameSession (suc rounds) v s =
    let stepped = apply_step (migration v) s in
    let stamped = record stepped { schema_version = pos (v + 1) } in
    SameSession-trans s stamped (upgrade rounds (v + 1) stamped)
      (SameSession-trans s stepped stamped (apply_step-SameSession v s)
        (stamp-SameSession (pos (v + 1)) stepped))
      (upgrade-SameSession rounds (v + 1) stamped)

upgrade-version :
    (rounds v : ℕ) (s : StoredSnapshot)
    → s.schema_version ≡ pos v
    → (upgrade rounds v s).schema_version ≡ pos (v + rounds)
unfolding upgrade
upgrade-version zero v s h = ground arith
upgrade-version (suc rounds) v s h = ground (
  arith,
  upgrade-version rounds (v + 1)
      (record (apply_step (migration v) s) { schema_version = pos (v + 1) }),
)

chain_complete : (v : ℕ) → 2 ≤ v → v ≤ 5 → has_migration_path (pos v) ≡ true
unfolding has_migration_path migration
chain_complete zero h k = ground arith
chain_complete (suc zero) h k = ground arith
chain_complete (suc (suc zero)) h k = refl
chain_complete (suc (suc (suc zero))) h k = refl
chain_complete (suc (suc (suc (suc zero)))) h k = refl
chain_complete (suc (suc (suc (suc (suc zero))))) h k = refl
chain_complete (suc (suc (suc (suc (suc (suc v)))))) h k = ground arith

migrate_lem :
    (v : ℕ) (s : StoredSnapshot)
    → s.schema_version ≡ pos v
    → has_migration_path (pos v) ≡ true
    → migrate s
      ≡ some (record (upgrade (current_schema - v) v s) { persisted_schema_version = pos v })
unfolding migrate
migrate_lem v s e h = ground arith

-- A snapshot of a schema from 2 to 5 is read: it becomes current, remembers the version it was written
-- with, and is the same session, with its workflow, phase, plan, queue and gates, signatures,
-- verification, inboxes, integration and delivery records.
pub migrate-SameSession :
    (v : ℕ) (s : StoredSnapshot)
    → s.schema_version ≡ pos v
    → 2 ≤ v
    → v ≤ 5
    → (t : StoredSnapshot) × (migrate s ≡ some t)
      × (t.schema_version ≡ pos 5)
      × (t.persisted_schema_version ≡ pos v)
      × SameSession s t
migrate-SameSession v s e lo hi =
    let t = upgrade (5 - v) v s in
    (
      record t { persisted_schema_version = pos v },
      migrate_lem v s e (chain_complete v lo hi),
      ground (arith, upgrade-version (5 - v) v s e),
      refl,
      read-SameSession (pos v) s t (upgrade-SameSession (5 - v) v s),
    )
