-- ===== src/BodyChecks/Exit.antt =====
-- tools/http_body_checks.py: `decide_exit`, which turns the verdicts into an exit code. The report
-- lines are not modelled.
pub mod Laws
use c64_https.Common.{
  ℕ, Bool, true, false, not, ◌&&◌, ◌||◌, Option, none, some, List, [], ◌∷◌, ◌++◌, if◌then◌else◌,
  any,
}
use c64_https.BodyChecks.Verdicts.{
  Verdict, Status, pass, fail, inconclusive, has_failed, is_inconclusive,
}
use c64_https.BodyChecks.{check_kex_group}

abbrev pub exit_pass : ℕ
exit_pass = 0

abbrev pub exit_fail : ℕ
exit_fail = 1

abbrev pub exit_inconclusive : ℕ
exit_inconclusive = 78

-- v is None or v.status == "fail"
abbrev pub missing_or_failed : Option Verdict → Bool
missing_or_failed none = true
missing_or_failed (some v) = has_failed v

abbrev pub unsure_check : Option Verdict → Bool
unsure_check none = false
unsure_check (some v) = is_inconclusive v

-- [shadow, status, body], and the verdict on the key exchange where one is required
abbrev pub checks :
    Option Verdict → Option Verdict → Option Verdict → Option ℕ → Option ℕ → List (Option Verdict)
checks shadow status body kex none = shadow ∷ status ∷ body ∷ []
checks shadow status body kex (some required) =
    shadow ∷ status ∷ body ∷ some (check_kex_group kex required) ∷ []

-- A verdict that was never evaluated is None.
unfoldable pub decide_exit :
    Bool
    → Option Verdict
    → Option Verdict
    → Option Verdict
    → Option Verdict
    → Option ℕ
    → Option ℕ
    → ℕ
decide_exit banner_ok shadow none status body kex require_kex = exit_fail
decide_exit banner_ok shadow (some settled) status body kex require_kex =
    let cs = checks shadow status body kex require_kex in
    if not banner_ok
    then exit_fail
    else if is_inconclusive settled
    then exit_inconclusive
    else if any missing_or_failed cs
    then exit_fail
    else if any unsure_check cs
    then exit_inconclusive
    else exit_pass
