-- ===== src/Tests/Landings.antt =====
-- The theorems on the hand-over of a session at concrete ones.
use duo.Prelude.{◌≡◌, refl, arith, true, false, none, some, [], ◌∷◌, if◌then◌else◌}
use duo.Text.{Text, codes, text_eq, is_space}
use duo.Project.Mode.{Mode, Phase}
use duo.Project.Verification.{VerificationResult, no_verification}
use duo.Project.Steps.{Step, first_open_step}
use duo.Store.Record.{StoredSnapshot, DeliveryStatus}
use duo.Store.Needs.{needs_delivery}
use duo.Workspace.Discard.{Git}
use duo.Project.Workflow.Goal
use duo.Project.Workflow.Step
use duo.Delivery.Git.{rev_parse, current_branch, status, is_ancestor, fast_forward}
use duo.Delivery.Check.{check}
use duo.Service.Head.{manager_for}
use duo.Service.Gates.{signature_gate}
use duo.Delivery.Deliver.{Delivered, deliver}
use duo.Service.World.{Env, World, no_options}
use duo.Service.Transact.{pending_checkpoint}
use duo.Service.Persist.{deliver_and_persist_to}
use duo.Service.Reconcile.{reconcile_delivery}
use duo.Service.Safe.{IsGatedDelivery, landing_is_approved}
use duo.Service.Crash.{crash_is_reconciled}
use duo.Service.Resumed.{IsDurable, outcome-IsDurable, resumed_needs_no_delivery}
use duo.Tests.Checkpoints.{git, behind, forwarded, Repository, stored, no_delivery, forwarded-IsGit}

-- What git prints in a clean worktree at `f`, one commit ahead.
abbrev tree : Git
tree path (command ∷ rest) =
    if text_eq command (codes "status")
    then some []
    else if text_eq command (codes "rev-list")
    then some (codes "1")
    else some (codes "f")
tree path [] = none

abbrev env : Env Repository
env = record {
  git = git;
  tree = λ r. tree;
  missing = λ r path. false;
  can_save = λ saved snap. true;
  set = record {
    repository = codes "/repo";
    base_commit = codes "base";
    session = codes "s";
    austin = record { path = codes "/a"; branch = codes "duo/austin" };
    tony = record { path = codes "/t"; branch = codes "duo/tony" };
  };
  now = 9;
  stamp = codes "now";
  refusal_text = λ c. codes "refused";
  push_text = λ c. codes "not pushed";
  error_text = codes "delivery failed";
}

abbrev start : World Repository
start = record { repo = behind; saved = []; journal = [] }

-- A Goal session in INTEGRATE that both have signed at `f`.
abbrev signed : StoredSnapshot
signed = record (stored Mode.goal Phase.integrate) { evidence = λ a. codes "f" }

landed : (deliver_and_persist_to env start signed no_options).world.repo ≡ forwarded
unfolding deliver_and_persist_to is_space signature_gate check current_branch status is_ancestor
    fast_forward Goal.complete
landed = refl

landing_is_approved_example :
    (head : Text) × IsGatedDelivery env start no_options signed head
      (deliver_and_persist_to env start signed no_options)
unfolding first_open_step
landing_is_approved_example =
    landing_is_approved env start no_options signed refl refl (λ e. ground (arith, e, landed))

abbrev applied : Delivered
applied = record {
  check = record {
    repository = codes "/repo";
    current_branch = codes "main";
    current_head = codes "f";
    base_branch = codes "main";
    base_commit = codes "base";
    final_head = codes "f";
    clean = true;
    detached = false;
    already_applied = false;
    can_fast_forward = true;
    reason = none;
  };
  applied = true;
  changes = [];
}

crash_is_reconciled_example :
    let p = pending_checkpoint env signed no_options (codes "f") in
    (deliver_and_persist_to env
      (record start { repo = forwarded; saved = p ∷ [] })
      p
      no_options).world.repo
    ≡ forwarded
unfolding manager_for deliver is_space check rev_parse current_branch status is_ancestor
    fast_forward
crash_is_reconciled_example =
    crash_is_reconciled env no_options signed (codes "f") refl refl refl start applied refl refl
      forwarded-IsGit

outcome-IsDurable_example :
    IsDurable env start signed (deliver_and_persist_to env start signed no_options)
unfolding deliver_and_persist_to is_space signature_gate check current_branch status is_ancestor
    fast_forward Goal.complete
outcome-IsDurable_example = outcome-IsDurable env start signed no_options refl

-- The first of two steps was verified and landed, and then the process crashed.
abbrev open_step : Text → Text → VerificationResult → Step
open_step title head result = record {
  title = title;
  done = false;
  policy = Mode.fast;
  head = head;
  verification = record no_verification { status = result; head = head };
  delivery_head = codes "";
  delivered_at = codes "";
}

abbrev interrupted : StoredSnapshot
interrupted = record (stored Mode.step Phase.integrate) {
  steps =
      open_step (codes "one") (codes "f") VerificationResult.passed
      ∷ open_step (codes "two") (codes "") VerificationResult.no_verdict
      ∷ [];
  delivery = record no_delivery {
    status = DeliveryStatus.applied;
    final_head = codes "f";
    applied_head = codes "f";
  };
}

resumed_needs_no_delivery_example :
    needs_delivery (reconcile_delivery env start interrupted).ended.outcome.snapshot ≡ false
unfolding reconcile_delivery is_space Step.land_step
resumed_needs_no_delivery_example = resumed_needs_no_delivery env start interrupted refl refl
