-- ===== src/Tests/Samples.antt =====
-- The theorems on the verification of raw strings, at the capture with one String.
use zgcmaster.Prelude.{◌≡◌, refl, true, ok, arith}
use zgcmaster.Words.{word}
use zgcmaster.Words.Hex.{hex}
use zgcmaster.Address.{target}
use zgcmaster.Scan.{plausible}
use zgcmaster.RawStrings.Random.{below, IsDrawn, below-IsDrawn}
use zgcmaster.RawStrings.Verify.{Report, verify}
use zgcmaster.RawStrings.Verified.{IsVerified, verify-IsVerified}
use zgcmaster.Tests.Capture.{example_digest, is_ok, value_of}
use zgcmaster.Tests.Strings.{string_capture, wide_bindings}

below-IsDrawn_example : IsDrawn 10 (below 10 42)
below-IsDrawn_example = below-IsDrawn 10 42 (omega arith) (omega arith) (omega arith)

verifies : is_ok (verify example_digest string_capture string_capture wide_bindings 3 7) ≡ true
unfolding verify word plausible target zgcmaster.Words.aligned hex
verifies = refl

verified :
    (r : Report) × (verify example_digest string_capture string_capture wide_bindings 3 7 ≡ ok r)
verified = value_of _ verifies

verify-IsVerified_example :
    IsVerified example_digest string_capture string_capture wide_bindings 3 verified.0
verify-IsVerified_example =
    verify-IsVerified example_digest string_capture string_capture wide_bindings 3 7 verified.0
      verified.1
