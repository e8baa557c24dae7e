-- ===== src/Tests/Deliveries.antt =====
-- The theorems on delivery at a concrete repository.
use duo.Prelude.{◌≡◌, ◌⊎◌, ◌≢◌, refl, true, false, none, some, List, [], ◌∷◌}
use duo.Text.{codes, trim_space, is_space}
use duo.Text.Split.{split, trim_end}
use duo.Delivery.Git.{
  is_ancestor, rev_parse, ls_remote, current_branch, status, fast_forward, push_ref, git_config,
  remote_exists, object_present,
}
use duo.Delivery.Check.{check, new_check}
use duo.Delivery.Changes.{Change, changes_of}
use duo.Delivery.Deliver.{Delivered, deliver}
use duo.Delivery.Push.{PushCheck, check_push, push}
use duo.Delivery.Safety.{FastForwards, Creates, deliver_writes_safely}
use duo.Delivery.Again.{AtBase, Branched, applied_is_delivered, deliver_again}
use duo.Delivery.Pushed.{KeepsRemote, IsRead, push-KeepsRemote}
use duo.Delivery.Listing.{IsChange, listing, changes_of-listing}
use duo.Tests.Checkpoints.{git, behind, manager, forwarded, forwarded-IsGit}

abbrev delivered : Delivered
delivered = record {
  check = record {
    repository = codes "/repo";
    current_branch = codes "main";
    current_head = codes "f";
    base_branch = codes "main";
    base_commit = codes "";
    final_head = codes "f";
    clean = true;
    detached = false;
    already_applied = false;
    can_fast_forward = true;
    reason = none;
  };
  applied = true;
  changes = [];
}

run : deliver git behind manager ≡ (forwarded, some delivered)
unfolding deliver is_space check rev_parse current_branch status is_ancestor fast_forward
run = refl

deliver_writes_safely_example :
    let w' = (deliver git behind manager).0 in
    let branch = trim_space manager.branch in
    (w' ≡ behind)
    ⊎ ((branch ≡ []) × FastForwards git behind (new_check manager) w')
    ⊎ ((branch ≢ []) × Creates git behind (new_check manager) branch w')
deliver_writes_safely_example = deliver_writes_safely git behind manager

applied_is_delivered_example :
    let branch = trim_space manager.branch in
    let w' = (deliver git behind manager).0 in
    ((branch ≡ []) × AtBase git w' (new_check manager))
    ⊎ ((branch ≢ []) × Branched git behind w' (new_check manager) branch)
unfolding deliver is_space check rev_parse current_branch status is_ancestor fast_forward
applied_is_delivered_example = applied_is_delivered git behind manager delivered refl refl

deliver_again_example : (deliver git forwarded manager).0 ≡ forwarded
unfolding deliver is_space check rev_parse current_branch status is_ancestor fast_forward
deliver_again_example = deliver_again git behind manager delivered refl refl forwarded-IsGit

abbrev pushing : PushCheck
pushing = record {
  repository = codes "/repo";
  branch = codes "main";
  remote = codes "origin";
  remote_ref = codes "refs/heads/main";
  head = codes "f";
  remote_head = codes "b";
  can_push = true;
  already_pushed = false;
  reason = none;
}

push-KeepsRemote_example :
    let w' = (push git forwarded pushing).0 in
    (w' ≡ forwarded)
    ⊎ (KeepsRemote git forwarded pushing
        × IsRead git forwarded pushing
        × (pushing.repository ≡ trim_space (codes "/repo"))
        × (pushing.head ≡ trim_space (codes "f"))
        × (w'
            ≡ (push_ref git forwarded pushing.repository pushing.remote pushing.head
                pushing.remote_ref).0))
unfolding check_push is_space git_config remote_exists ls_remote object_present is_ancestor
push-KeepsRemote_example =
    push-KeepsRemote git forwarded (codes "/repo") (codes "main") (codes "f") pushing refl

abbrev changes : List Change
changes = record { status = codes "M"; path = codes "a.go" } ∷ []

change_lem : IsChange (record { status = codes "M"; path = codes "a.go" })
unfolding trim_end is_space trim_space
change_lem = record {
  trimmed = refl;
  one_field = refl;
  one_line = refl;
  plain_path = refl;
  path_line = refl;
  no_return = refl;
}

changes_of-listing_example : changes_of (split 10 (listing changes)) ≡ changes
unfolding trim_end trim_space is_space
changes_of-listing_example = changes_of-listing changes (change_lem, tt)
