-- ===== src/Recovery/Reconcile.antt =====
-- internal/recovery/recovery.go: Reconcile.
use duo.Prelude.{Option, none, some}
use duo.Store.Record.{StoredSnapshot}
use duo.Recovery.Report.{Git, Recovered, new_report}
use duo.Recovery.Merge.{recover_merge}
use duo.Recovery.Gates.{recover_fast, recover_step}
use duo.Recovery.Signatures.{recheck_all, sync_tony}

-- What follows the merge, and cannot fail.
unfoldable pub settle : Git → Recovered → Recovered
settle git r = sync_tony git (recheck_all git (recover_step git (recover_fast git r)))

-- `Reconcile`; `none` is an error of Git.
unfoldable pub reconcile : Git → StoredSnapshot → Option Recovered
unfolding settle
reconcile git snap = elim (recover_merge git (new_report snap)) [
  | none ↦ none
  | some r ↦ some (settle git r)
]
