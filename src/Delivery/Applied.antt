-- ===== src/Delivery/Applied.antt =====
-- When a check finds the final head in place: internal/delivery/delivery.go, Manager.Check.
use duo.Prelude.{◌≡◌, ◌∙◌, refl, true, false, some, >>=-eq-some, arith}
use duo.Text.{Text, codes}
use duo.Delivery.Git.{Git, rev_parse, current_branch, status, is_ancestor}
use duo.Delivery.Check.{Manager, Check, new_check, check, inspect, compare, relate, from_base}
use duo.Delivery.Checked.{inspect_lem}

module _ {W : Type 0} (git : Git W) (w : W) where
  -- The checkout has the final head in its history.
  abbrev pub HasFinal : Text → Text → Type 0
  HasFinal dir final =
      (head : Text) × (rev_parse git w dir (codes "HEAD") ≡ some head)
      × (is_ancestor git w dir final head ≡ some true)

  inspect_flag : (c c' : Check) → inspect git w c ≡ some c' → c'.already_applied ≡ c.already_applied
  unfolding inspect
  inspect_flag c c' h =
      let (head, e, h1) = >>=-eq-some (rev_parse git w c.repository (codes "HEAD")) _ h in
      let (branch, f, h2) = >>=-eq-some (current_branch git w c.repository) _ h1 in
      let (t, g, h3) = >>=-eq-some (status git w c.repository) _ h2 in ground arith

  relate_flag : (c c' : Check) → relate git w c ≡ some c' → c'.already_applied ≡ c.already_applied
  unfolding relate
  relate_flag c c' h =
      let (ancestor, e, h1) =
        >>=-eq-some (is_ancestor git w c.repository c.current_head c.final_head) _ h in
      let (base_ancestor, e1, h2) =
        >>=-eq-some (from_base git w c.repository c.base_commit c.final_head) _ h1 in
      ground arith

  compare_flag :
      (c c' : Check)
      → compare git w c ≡ some c'
      → c.already_applied ≡ false
      → c'.already_applied ≡ true
      → is_ancestor git w c.repository c.final_head c.current_head ≡ some true
  unfolding compare
  compare_flag c c' h f t =
      let (applied, e, h1) =
        >>=-eq-some (is_ancestor git w c.repository c.final_head c.current_head) _ h in
      ground (arith, relate_flag c c')

  applied_checked :
      (n i c : Check)
      → inspect git w n ≡ some i
      → compare git w i ≡ some c
      → n.already_applied ≡ false
      → c.already_applied ≡ true
      → HasFinal n.repository n.final_head
  applied_checked n i c e h f t =
      let (inspected, r, b, bc, fh, cf) = inspect_lem git w n i e in
      let found = compare_flag i c h (inspect_flag n i e ∙ f) t in
      (i.current_head, ground arith, ground arith)

  pub check-HasFinal :
      (m : Manager) (c : Check)
      → check git w m ≡ some c
      → c.already_applied ≡ true
      → let n = new_check m in HasFinal n.repository n.final_head
  unfolding check new_check
  check-HasFinal m c h t =
      let n = new_check m in
      let (i, e, h1) = >>=-eq-some (inspect git w n) (compare git w) {b = c} (ground arith) in
      applied_checked n i c e h1 refl t
