-- ===== src/Tests/Checkpoints.antt =====
-- Concrete checkpoints, worktrees and repositories.
use duo.Prelude.{
  ◌≡◌, arith, true, false, none, some, Bool, ℕ, List, [], ◌∷◌, ◌++◌, if◌then◌else◌, pos, is_empty,
}
use duo.Text.{Text, codes, text_eq}
use duo.Project.Mode.{Mode, Phase}
use duo.Project.LoopState.{fresh_loop}
use duo.Project.State.{State}
use duo.Project.Snapshot.{snapshot}
use duo.Store.Record.{StoredSnapshot, Delivery, DeliveryStatus}
use duo.Recovery.Report.{MergeState}
use duo.Recovery.Report
use duo.Recovery.Compose.{ComposeInput}
use duo.Delivery.Git
use duo.Delivery.Git.{is_ancestor, ref_exists, rev_parse}
use duo.Delivery.Again.{IsGit}
use duo.Delivery.Check.{Manager}

abbrev pub no_delivery : Delivery
no_delivery = record {
  status = DeliveryStatus.unattempted;
  final_head = codes "";
  final_branch = codes "";
  target_repo = codes "";
  target_branch = codes "";
  applied_head = codes "";
  reason = codes "";
  attempted_at = none;
  completed_at = none;
}

-- A checkpoint of a mode in a phase, where both agents have signed the head `abc`.
abbrev pub stored : Mode → Phase → StoredSnapshot
stored m p = record {
  schema_version = pos 2;
  persisted_schema_version = pos 0;
  duo_version = codes "1";
  session_id = codes "s";
  title = codes "";
  repo_id = codes "r";
  repository = codes "/repo";
  scope_path = codes "";
  base_branch = codes "main";
  base_commit = codes "base";
  loop = fresh_loop 0;
  phase = p;
  plan = codes "plan";
  plan_version = pos 1;
  started = true;
  step = pos 1;
  steps = [];
  mode = m;
  driver = codes "";
  ready = λ a. true;
  notes = λ a. codes "";
  evidence = λ a. codes "abc";
  verification = none;
  worktrees = λ a. none;
  integration = record {
    started = true;
    conflicted = false;
    head = codes "abc";
    merged_tony = codes "t";
  };
  delivery = no_delivery;
  created_at = 0;
}

abbrev pub no_merge : MergeState
no_merge = record { in_progress = false; merge_head = codes ""; conflicted = false }

abbrev pub open_merge : MergeState
open_merge = record { in_progress = true; merge_head = codes "t"; conflicted = true }

-- Clean worktrees at `abc`, with a state of Austin's merge.
abbrev pub worktrees : MergeState → Report.Git
worktrees m = record {
  capture = λ a. some (codes "abc");
  head = λ a. some (codes "abc");
  merge_state = λ a. some m;
  is_ancestor = λ a x y. some true;
  sync_tony = λ head. none;
}

abbrev pub composed : State → ComposeInput
composed s = record {
  duo_version = codes "1";
  session_id = codes "s";
  repo_id = codes "r";
  repository = codes "/repo";
  base_branch = codes "main";
  base_commit = codes "base";
  created_at = 0;
  project = snapshot s;
  worktrees = record {
    scope_path = codes "";
    austin = record { path = codes "/a"; branch = codes "duo/austin" };
    tony = record { path = codes "/t"; branch = codes "duo/tony" };
  };
  integration = record { head = codes "abc"; merged_tony = codes "t"; conflicted = false };
  delivery = no_delivery;
}

abbrev pub manager : Manager
manager = record {
  repository = codes "/repo";
  base_branch = codes "main";
  base_commit = codes "";
  final_branch = codes "duo/austin";
  final_head = codes "f";
  branch = codes "";
}

-- A repository on `main`, where each name stands for `f`: the commit of `main` and of the remote's `main`, in a history of two
-- commits, `b` and then `f`.
pub record Repository : Type 0 where
  pub main : Text
  pub remote : Text

abbrev pub answer : Text → Git.Outcome
answer out = record { exit = Git.Exit.success; stdout = out; stderr = [] }

abbrev pub failure : ℕ → Git.Outcome
failure n = record { exit = Git.Exit.code n; stdout = []; stderr = codes "error" }

abbrev says : Bool → Git.Outcome
says true = answer []
says false = failure 1

-- `b` is an ancestor of both commits, `f` of itself.
abbrev is_before : Text → Text → Bool
unfolding text_eq
is_before a b = if text_eq a (codes "f") then text_eq b (codes "f") else true

abbrev read_args : Repository → List Text → Git.Outcome
unfolding text_eq is_before
read_args r (c ∷ x ∷ []) = if text_eq c (codes "status") then answer [] else failure 2
read_args r (c ∷ x ∷ y ∷ []) =
    if text_eq c (codes "rev-parse")
    then answer (if text_eq y (codes "HEAD^{commit}") then r.main else codes "f")
    else if text_eq c (codes "cat-file")
    then answer []
    else failure 1
read_args r (c ∷ x ∷ y ∷ z ∷ []) =
    if text_eq c (codes "merge-base")
    then says (is_before y z)
    else if text_eq c (codes "symbolic-ref")
    then answer (codes "main\n")
    else if text_eq c (codes "ls-remote")
    then answer (r.remote ++ codes "\t" ++ z)
    else answer (codes "f")
read_args r args = if is_empty args then failure 2 else answer (codes "origin")

abbrev write_args : Repository → List Text → Repository
unfolding text_eq
write_args r (c ∷ rest) =
    if text_eq c (codes "push")
    then record r { remote = codes "f" }
    else record r { main = codes "f" }
write_args r [] = r

abbrev pub git : Git.Git Repository
unfolding read_args write_args
git = record {
  read = λ r dir args. read_args r args;
  write = λ r dir args. (write_args r args, answer []);
}

abbrev pub behind : Repository
behind = record { main = codes "b"; remote = codes "b" }

-- `main` was fast-forwarded to the final head.
abbrev pub forwarded : Repository
forwarded = record { main = codes "f"; remote = codes "b" }

is_before_refl : (t : Text) → is_before t t ≡ true
unfolding is_before
is_before_refl t = ground arith

pub forwarded-IsGit : IsGit git forwarded
unfolding is_ancestor ref_exists git read_args is_before
forwarded-IsGit = record {
  reflexive = λ dir head. rw (is_before_refl head) (λ e. cc);
  resolves = λ dir ref e. ground arith;
}
