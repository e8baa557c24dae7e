-- ===== src/Service/World.antt =====
-- internal/session/delivery.go: what a delivery transaction sees and changes, and
-- internal/workspace/git.go: Status and Head.
use duo.Prelude.{Bool, false, not, Option, none, some, List, [], ◌∷◌, ◌++◌, ◌>>=◌, if◌then◌else◌}
use duo.Text.{Text, codes, trim_space, is_blank}
use duo.Project.Verification.{Time}
use duo.Store.Record.{StoredSnapshot}
use duo.Workspace.Discard.{Set}
use duo.Workspace.Discard
use duo.Delivery.Git.{Git}
use duo.Delivery.Check.{Check}
use duo.Delivery.Changes.{Change}
use duo.Delivery.Push.{PushCheck}
use duo.Delivery.Deliver.{Delivered}

-- What a transaction is given. `git` is the command in the user's repository, `tree` what it prints in
-- a worktree, `missing` the test that a path does not exist, and `can_save` whether the store writes a
-- checkpoint after those it has written. The clock is read once, `now`, and printed as `stamp`. No rule
-- reads the wording of a reason, which is a parameter.
pub record Env (W : Type 0) : Type 0 where
  pub git : Git W
  pub tree : W → Discard.Git
  pub missing : W → Text → Bool
  pub can_save : List StoredSnapshot → StoredSnapshot → Bool
  pub set : Set
  pub now : Time
  pub stamp : Text
  pub refusal_text : Check → Text
  pub push_text : PushCheck → Text
  pub error_text : Text

-- The entries of the journal that a delivery writes, less their fields.
pub data Entry : Type 0 where
  step_landed session_delivered delivery_pending : Entry

-- The repositories, and the checkpoints and journal entries on disk, the latest first.
pub record World (W : Type 0) : Type 0 where
  pub repo : W
  pub saved : List StoredSnapshot
  pub journal : List Entry

-- The errors, one constructor for each message.
pub data Failure : Type 0 where
  unsettled unreadable unsaved no_artifact stale_verdict no_verdict : Failure
  not_integrated uninspected other_head other_branch unverified unsigned : Failure
  push_unchecked incomplete unlanded : Failure

-- `DeliveryOptions`.
pub record DeliveryOptions : Type 0 where
  pub branch : Text
  pub push : Bool

abbrev pub no_options : DeliveryOptions
no_options = record { branch = codes ""; push = false }

-- Why a requested push did not happen.
pub data PushReason : Type 0 where
  refused : PushCheck → PushReason
  failed : PushReason

-- `DeliveryOutcome`.
pub record DeliveryOutcome : Type 0 where
  pub snapshot : StoredSnapshot
  pub result : Option Delivered
  pub changes : List Change
  pub applied : Bool
  pub reason : Text
  pub pushed : Bool
  pub push_reason : Option PushReason

-- How a transaction ends: the world it leaves, its outcome, and its error.
pub record Ended (W : Type 0) : Type 0 where
  pub world : World W
  pub outcome : DeliveryOutcome
  pub failure : Option Failure

-- `DeliveryOutcome{Snapshot: snap}`.
abbrev pub only : StoredSnapshot → DeliveryOutcome
only snap = record {
  snapshot = snap;
  result = none;
  changes = [];
  applied = false;
  reason = codes "";
  pushed = false;
  push_reason = none;
}

-- The outcome of a landing that is reported with its result.
abbrev pub with_result : StoredSnapshot → Option Delivered → DeliveryOutcome
with_result snap none = only snap
with_result snap (some d) = record (only snap) { result = some d; changes = d.changes }

abbrev pub fail_with : {W : Type 0} → World W → DeliveryOutcome → Failure → Ended W
fail_with w o e = record { world = w; outcome = o; failure = some e }

abbrev pub fail : {W : Type 0} → World W → StoredSnapshot → Failure → Ended W
fail w snap e = record { world = w; outcome = only snap; failure = some e }

-- `journal.Record`.
abbrev pub noted : {W : Type 0} → Entry → World W → World W
noted e w = record w { journal = e ∷ w.journal }

abbrev pub return : {W : Type 0} → World W → DeliveryOutcome → Ended W
return w o = record { world = w; outcome = o; failure = none }

-- `workspace.Status`, as far as it is read here.
pub record Status : Type 0 where
  pub head : Text
  pub dirty : Bool

module _ {W : Type 0} (env : Env W) where
  -- `store.Save`: the world after a checkpoint that the store wrote.
  abbrev pub stored_in : World W → StoredSnapshot → World W
  stored_in w snap = record w { saved = snap ∷ w.saved }

  -- Saves the checkpoint of an outcome and goes on; an error ends the transaction with that outcome.
  abbrev pub saving : World W → DeliveryOutcome → (World W → Ended W) → Ended W
  saving w o go_on =
      if env.can_save w.saved o.snapshot
      then go_on (stored_in w o.snapshot)
      else record { world = w; outcome = o; failure = some Failure.unsaved }

  -- `GitManager.Head` of Austin; `none` is an error.
  unfoldable pub austin_head : W → Option Text
  unfolding trim_space
  austin_head r = do
    head ← env.tree r env.set.austin.path (codes "rev-parse" ∷ codes "HEAD" ∷ [])
    some (trim_space head)

  -- `GitManager.Status` of Austin; the number of commits ahead of the base is not read here.
  unfoldable pub austin_status : W → Option Status
  unfolding trim_space is_blank
  austin_status r = do
    head ← env.tree r env.set.austin.path (codes "rev-parse" ∷ codes "HEAD" ∷ [])
    porcelain ← env.tree r env.set.austin.path (codes "status" ∷ codes "--porcelain" ∷ [])
    ahead ←
        env.tree r env.set.austin.path
          (codes "rev-list" ∷ codes "--count" ∷ (env.set.base_commit ++ codes "..HEAD") ∷ [])
    some (record { head = trim_space head; dirty = not (is_blank porcelain) })
