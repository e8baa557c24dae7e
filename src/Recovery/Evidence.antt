-- ===== src/Recovery/Evidence.antt =====
-- internal/recovery/recovery.go: what a signature has to carry.
use duo.Prelude.{◌+◌, Option, none, some, ◌++◌, ℤ, pos, negsuc}
use duo.Text.{Text, codes}
use duo.Text.Decimal.{format_uint}
use duo.Project.Agent.{AgentId, peer_of}
use duo.Project.Mode.{Phase}
use duo.Recovery.Report.{Git}

-- `%d` of an int.
unfoldable pub format_int : ℤ → Text
unfolding format_uint
format_int (pos n) = format_uint n
format_int (negsuc n) = codes "-" ++ format_uint (n + 1)

-- `ExpectedEvidence`; `none` is an error.
unfoldable pub expected_evidence : Git → Phase → AgentId → ℤ → Option Text
unfolding peer_of
expected_evidence git Phase.plan signer version = some (codes "plan-v" ++ format_int version)
expected_evidence git Phase.execute signer version = git.capture signer
expected_evidence git Phase.review signer version = git.capture (peer_of signer)
expected_evidence git Phase.integrate signer version = git.capture AgentId.austin
expected_evidence git _ signer version = none

-- `FastVerificationTarget`.
unfoldable pub fast_verification_target : Git → Option Text
fast_verification_target git = git.capture AgentId.austin
