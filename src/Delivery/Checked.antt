-- ===== src/Delivery/Checked.antt =====
-- What the checks before a delivery have read: internal/delivery/delivery.go, Manager.Check.
use duo.Prelude.{
  ◌≡◌, ◌∙◌, ◌≢◌, ◌⊎◌, inl, inr, refl, Bool, true, false, none, some, Option-cases, >>=-eq-some, [],
  ◌∷◌, arith, is_empty,
}
use duo.Text.{Text, codes, is_blank}
use duo.Text.Laws.{text_eq→eq}
use duo.Delivery.Git.{Git, rev_parse, current_branch, status, is_ancestor}
use duo.Delivery.Check.{
  Manager, Check, new_check, check, inspect, compare, relate, from_base, refusal,
}

module _ {W : Type 0} (git : Git W) (w : W) where
  -- The recorded base commit, if there is one, is an ancestor of the final head.
  abbrev pub IsDerived : Text → Text → Text → Type 0
  IsDerived dir base final = (base ≡ []) ⊎ (is_ancestor git w dir base final ≡ some true)

  -- The repository is clean, on the branch that Duo started on, strictly behind the final head.
  pub record IsFastForward (dir branch base final : Text) : Type 0 where
    pub named : branch ≢ []
    pub on_branch : current_branch git w dir ≡ some branch
    pub clean : (t : Text) × (status git w dir ≡ some t) × (is_blank t ≡ true)
    pub behind :
        (head : Text) × (rev_parse git w dir (codes "HEAD") ≡ some head)
        × (is_ancestor git w dir head final ≡ some true)
        × (is_ancestor git w dir final head ≡ some false)
    pub derived : IsDerived dir base final

  -- The checkout as it was inspected.
  abbrev pub Inspected : Check → Type 0
  Inspected c =
      (rev_parse git w c.repository (codes "HEAD") ≡ some c.current_head)
      × ((branch : Text) × (current_branch git w c.repository ≡ some branch)
          × (c.detached ≡ is_empty branch)
          × ((branch ≡ []) ⊎ (c.current_branch ≡ branch)))
      × ((t : Text) × (status git w c.repository ≡ some t) × (c.clean ≡ is_blank t))

  pub inspect_lem :
      (c c' : Check)
      → inspect git w c ≡ some c'
      → Inspected c'
        × (c'.repository ≡ c.repository)
        × (c'.base_branch ≡ c.base_branch)
        × (c'.base_commit ≡ c.base_commit)
        × (c'.final_head ≡ c.final_head)
        × (c'.can_fast_forward ≡ c.can_fast_forward)
  unfolding inspect
  inspect_lem c c' h =
      let (head, e, h1) = >>=-eq-some (rev_parse git w c.repository (codes "HEAD")) _ h in
      let (branch, f, h2) = >>=-eq-some (current_branch git w c.repository) _ h1 in
      let (t, g, h3) = >>=-eq-some (status git w c.repository) _ h2 in
      (
        (
          ground arith,
          (branch, ground arith, ground arith, ground arith),
          (t, ground arith, ground arith),
        ),
        ground arith,
        ground arith,
        ground arith,
        ground arith,
        ground arith,
      )

  pub from_base-IsDerived :
      (dir base final : Text)
      → from_base git w dir base final ≡ some true
      → IsDerived dir base final
  unfolding from_base
  from_base-IsDerived dir [] final h = inl refl
  from_base-IsDerived dir (x ∷ base) final h = inr h

  refusal_lem :
      (c : Check) (ancestor base_ancestor : Bool)
      → refusal c ancestor base_ancestor ≡ none
      → (ancestor ≡ true)
        × (base_ancestor ≡ true)
        × (c.detached ≡ false)
        × (is_empty c.base_branch ≡ false)
        × (c.current_branch ≡ c.base_branch)
        × (c.clean ≡ true)
  unfolding refusal
  refusal_lem c ancestor base_ancestor h = ground (arith, text_eq→eq c.current_branch c.base_branch)

  -- Two checks of the same repository and final head.
  abbrev pub SameTarget : Check → Check → Type 0
  SameTarget c c' = (c'.repository ≡ c.repository) × (c'.final_head ≡ c.final_head)

  -- What allows a fast-forward.
  abbrev pub Allows : Check → Type 0
  Allows c =
      (is_ancestor git w c.repository c.current_head c.final_head ≡ some true)
      × IsDerived c.repository c.base_commit c.final_head
      × (c.detached ≡ false)
      × (is_empty c.base_branch ≡ false)
      × (c.current_branch ≡ c.base_branch)
      × (c.clean ≡ true)

  relate_lem :
      (c c' : Check)
      → relate git w c ≡ some c'
      → c.can_fast_forward ≡ false
      → SameTarget c c' × ((c'.can_fast_forward ≡ false) ⊎ Allows c)
  unfolding relate
  relate_lem c c' h f =
      let (ancestor, e, h1) =
        >>=-eq-some (is_ancestor git w c.repository c.current_head c.final_head) _ h in
      let (base_ancestor, e1, h2) =
        >>=-eq-some (from_base git w c.repository c.base_commit c.final_head) _ h1 in
      elim (Option-cases (refusal c ancestor base_ancestor)) [
        | inl allowed ↦ ground (
          arith,
          refusal_lem c ancestor base_ancestor allowed,
          from_base-IsDerived c.repository c.base_commit c.final_head,
        )
        | inr (r, refused) ↦ ground arith
      ]

  pub compare_lem :
      (c c' : Check)
      → compare git w c ≡ some c'
      → c.can_fast_forward ≡ false
      → SameTarget c c'
        × ((c'.can_fast_forward ≡ false)
            ⊎ ((is_ancestor git w c.repository c.final_head c.current_head ≡ some false)
                × Allows c))
  unfolding compare
  compare_lem c c' h f =
      let (applied, e, h1) =
        >>=-eq-some (is_ancestor git w c.repository c.final_head c.current_head) _ h in
      ground (arith, relate_lem c c')

  new_check_lem : (m : Manager) → (new_check m).can_fast_forward ≡ false
  unfolding new_check
  new_check_lem m = refl

  Allows-IsFastForward :
      (i : Check)
      → Inspected i
      → is_ancestor git w i.repository i.final_head i.current_head ≡ some false
      → Allows i
      → IsFastForward i.repository i.base_branch i.base_commit i.final_head
  Allows-IsFastForward i (head, (branch, on, d, same), (t, st, cl)) diverged allows = record {
    named = λ e. ground arith;
    on_branch = ground arith;
    clean = (t, ground arith, ground arith);
    behind = (i.current_head, head, allows.0, diverged);
    derived = allows.1;
  }

  renamed :
      {dir branch base final dir' branch' base' final' : Text}
      → dir ≡ dir'
      → branch ≡ branch'
      → base ≡ base'
      → final ≡ final'
      → IsFastForward dir branch base final
      → IsFastForward dir' branch' base' final'
  renamed d b c f h = rw (← d, ← b, ← c, ← f) h

  checked :
      (n i c : Check)
      → inspect git w n ≡ some i
      → compare git w i ≡ some c
      → n.can_fast_forward ≡ false
      → SameTarget n c
        × ((c.can_fast_forward ≡ false)
            ⊎ IsFastForward n.repository n.base_branch n.base_commit n.final_head)
  checked n i c e h f =
      let (inspected, r, b, bc, fh, cf) = inspect_lem n i e in
      let (target, allowed) = compare_lem i c h (cf ∙ f) in
      (
        (target.0 ∙ r, target.1 ∙ fh),
        elim allowed [
          | inl refused ↦ inl refused
          | inr (diverged, allows) ↦
              inr (renamed r b bc fh (Allows-IsFastForward i inspected diverged allows))
        ],
      )

  pub check_lem :
      (m : Manager) (c : Check)
      → check git w m ≡ some c
      → let n = new_check m in
        SameTarget n c
        × ((c.can_fast_forward ≡ false)
            ⊎ IsFastForward n.repository n.base_branch n.base_commit n.final_head)
  unfolding check
  check_lem m c h =
      let n = new_check m in
      let (i, e, h1) = >>=-eq-some (inspect git w n) (compare git w) {b = c} (ground arith) in
      checked n i c e h1 (new_check_lem m)
