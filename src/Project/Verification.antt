-- ===== src/Project/Verification.antt =====
-- internal/project/verification.go, and the clock readings that records carry.
use duo.Prelude.{ℕ, Bool, true, false, ◌&&◌, not, Option, none, some, if◌then◌else◌, is_empty}
use duo.Text.{Text, codes, text_eq, trim_space, to_lower}

-- A reading of the clock; 0 is the zero `time.Time`, and no later reading is 0.
abbrev pub Time : Type 0
Time = ℕ

-- `VerificationResult` is a string; `other` holds those outside the closed set.
pub data VerificationResult : Type 0 where
  no_verdict passed issue_found : VerificationResult
  other : Text → VerificationResult

pub record Verification : Type 0 where
  pub status : VerificationResult
  pub head : Text
  pub note : Text
  pub at : Option Time

-- The zero value `Verification{}`.
abbrev pub no_verification : Verification
no_verification = record {
  status = VerificationResult.no_verdict;
  head = codes "";
  note = codes "";
  at = none;
}

unfoldable pub targets : Verification → Text → Bool
unfolding trim_space text_eq
targets v head = let key = trim_space head in not (is_empty key) && text_eq (trim_space v.head) key

abbrev pub is_passed : VerificationResult → Bool
is_passed VerificationResult.passed = true
is_passed _ = false

-- `Verification.Passed(head)`.
unfoldable pub passes : Verification → Text → Bool
unfolding targets
passes v head = is_passed v.status && targets v head

unfoldable pub parse_verification_result : Text → Option VerificationResult
unfolding to_lower trim_space text_eq
parse_verification_result value =
    let key = to_lower (trim_space value) in
    if text_eq key (codes "passed")
    then some VerificationResult.passed
    else if text_eq key (codes "issue_found")
    then some VerificationResult.issue_found
    else none
