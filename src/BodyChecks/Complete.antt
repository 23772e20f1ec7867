-- ===== src/BodyChecks/Complete.antt =====
-- tools/http_body_checks.py: the verdicts on one state, against a description of what the framing says.
use c64_https.Common.{ℕ, ◌+◌, ◌≤◌, ◌<◌, ◌≡◌, ◌≢◌, ◌↔◌, ◌⊎◌, Bool, Option, none, some, ok, arith}
use c64_https.BodyChecks.Verdicts.{pass, fail, inconclusive, truncated, make_verdict}
use c64_https.BodyChecks.{
  BodyState, check_body_complete, check_http_status, check_fetch_settled, check_kex_group,
  expected_body_size,
}

-- What a body is whose framing says that it is all there: by its length where that was declared, and
-- else by the terminal chunk.
abbrev pub IsComplete : BodyState → Type 0
IsComplete st =
    (st.sink_full ≡ 0)
    × (2 ≤ st.parse_state)
    × ((st.cl_valid ≢ 0) × (st.body_total ≡ st.content_length)
        ⊎ (st.cl_valid ≡ 0) × (st.chunked ≢ 0) × (st.chunk_state ≡ 4))

-- Nothing was refused, the body was reached, and the response has no framing.
abbrev pub IsUnframed : BodyState → Type 0
IsUnframed st = (st.sink_full ≡ 0) × (2 ≤ st.parse_state) × (st.cl_valid ≡ 0) × (st.chunked ≡ 0)

-- The check passes exactly on a complete body, and cannot tell exactly on an unframed one.
pub check_body_complete_iff :
    (st : BodyState)
    → ((check_body_complete st).status ≡ pass ↔ IsComplete st)
      × ((check_body_complete st).status ≡ inconclusive ↔ IsUnframed st)
unfolding check_body_complete
check_body_complete_iff st = (
  ((λ h. (ground arith, ground arith, ground arith)), λ h. ground arith),
  ((λ h. (ground arith, ground arith, ground arith, ground arith)), λ h. ground arith),
)

-- A body is reported short by what is missing of the size that the response declares.
pub check_body_complete-truncated :
    (st : BodyState) (short : ℕ)
    → (check_body_complete st).reason ≡ truncated short
    → (expected_body_size st ≡ some (st.body_total + short)) × (0 < short)
unfolding check_body_complete expected_body_size
check_body_complete-truncated st short h = (ground arith, ground arith)

-- A state that has not reached its body fails both checks, whatever status is expected.
pub no_body_fails :
    (st : BodyState) (expect : ℕ)
    → st.parse_state < 2
    → ((check_http_status st expect).status ≡ fail) × ((check_body_complete st).status ≡ fail)
unfolding check_http_status check_body_complete
no_body_fails st expect h = (ground arith, ground arith)

-- The verdicts of the checks are ones that `Verdict` does not refuse: with the status written out,
-- construction returns each as it is.
pub verdicts_consistent :
    (st : BodyState) (expect required : ℕ) (kex : Option ℕ) (progressing : Bool)
    → (make_verdict
          (check_body_complete st).passed
          (check_body_complete st).reason
          (some (check_body_complete st).status)
        ≡ ok (check_body_complete st))
      × (make_verdict
            (check_http_status st expect).passed
            (check_http_status st expect).reason
            (some (check_http_status st expect).status)
          ≡ ok (check_http_status st expect))
      × (make_verdict
            (check_fetch_settled progressing).passed
            (check_fetch_settled progressing).reason
            (some (check_fetch_settled progressing).status)
          ≡ ok (check_fetch_settled progressing))
      × (make_verdict
            (check_kex_group kex required).passed
            (check_kex_group kex required).reason
            (some (check_kex_group kex required).status)
          ≡ ok (check_kex_group kex required))
unfolding make_verdict check_body_complete check_http_status check_fetch_settled check_kex_group
verdicts_consistent st expect required none progressing =
    (ground arith, ground arith, ground arith, ground arith)
verdicts_consistent st expect required (some k) progressing =
    (ground arith, ground arith, ground arith, ground arith)
