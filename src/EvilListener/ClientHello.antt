-- ===== src/EvilListener/ClientHello.antt =====
-- tools/https_e2e/evil_listener.py: `parse_client_hello`.
pub mod Fuel
pub mod Entries
pub mod Offered
pub mod Parsed
use c64_https.Common.{
  ℕ, zero, suc, ◌+◌, ◌/◌, Bool, true, false, not, ◌||◌, Option, none, some, List, [], ◌∷◌, length,
  drop, slice, any, is_nil, ltb, ◌==◌, Result, ok, raised, ◌>>=◌, ◌>>◌, guard, fixture_error,
  not_client_hello, no_suite, no_key_share, out_of_fuel,
}
use c64_https.Common.Bytes.{index}
use c64_https.EvilListener.{
  unpack_be16, hs_client_hello, ext_key_share, group_x25519, tls_chacha20_poly1305_sha256,
}

pub record ClientHello : Type 0 where
  pub client_random : List ℕ
  pub session_id : List ℕ
  pub key_share : List ℕ

-- struct.unpack(">H", bs[off:off + 2])[0]
unfoldable pub read16 : List ℕ → ℕ → Result ℕ
read16 bs off = unpack_be16 (slice off (off + 2) bs)

-- The list of the suites, for `k` values of the loop's i.
unfoldable pub suites_from : ℕ → List ℕ → ℕ → Result (List ℕ)
suites_from zero body off = ok []
suites_from (suc k) body off = do
  suite ← read16 body off
  others ← suites_from k body (off + 2)
  ok (suite ∷ others)

-- The loop over the shares, from `q` on. A round goes on by four bytes at least; a loop whose fuel runs
-- out is told apart from one that ends.
unfoldable pub share_from : ℕ → List ℕ → ℕ → Result (Option (List ℕ))
share_from zero bs q = raised out_of_fuel
share_from (suc fuel) bs q = elim (ltb q (length bs)) [
  | true ↦
      (read16 bs q >>= λ group. read16 bs (q + 2) >>= λ klen. elim (group == group_x25519) [
        | true ↦ ok (some (slice (q + 4) (q + 4 + klen) bs))
        | false ↦ share_from fuel bs (q + 4 + klen)
      ])
  | false ↦ ok none
]

-- The share that an extension has, if it is a key_share.
unfoldable pub share_of : ℕ → List ℕ → Result (Option (List ℕ))
share_of ext_type bs = elim (ext_type == ext_key_share) [
  | true ↦ share_from (suc (length bs)) bs 2
  | false ↦ ok none
]

-- A share that was found takes the place of one that was found before.
abbrev pub found : Option (List ℕ) → Option (List ℕ) → Option (List ℕ)
found none before = before
found (some share) before = some share

-- The loop over the extensions, from `p` up to `end`.
unfoldable pub extensions_from : ℕ → List ℕ → ℕ → ℕ → Option (List ℕ) → Result (Option (List ℕ))
extensions_from zero body p end share = raised out_of_fuel
extensions_from (suc fuel) body p end share = elim (ltb p end) [
  | true ↦
      (read16 body p >>= λ ext_type. read16 body (p + 2) >>= λ ext_len.
      share_of ext_type (slice (p + 4) (p + 4 + ext_len) body) >>= λ here.
      extensions_from fuel body (p + 4 + ext_len) end (found here share))
  | false ↦ ok share
]

-- if key_share is None: raise
abbrev pub required : Option (List ℕ) → Result (List ℕ)
required none = raised (fixture_error no_key_share)
required (some share) = ok share

-- msg[0] == HS_CLIENT_HELLO
abbrev pub begins_client_hello : List ℕ → Bool
begins_client_hello [] = false
begins_client_hello (t ∷ rest) = t == hs_client_hello

unfoldable pub parse_client_hello : List ℕ → Result ClientHello
parse_client_hello msg = do
  guard (begins_client_hello msg) (fixture_error not_client_hello)
  let body = drop 4 msg
  sid_len ← index body 34
  let p1 = 35 + sid_len
  cs_len ← read16 body p1
  suites ← suites_from ((cs_len + 1) / 2) body (p1 + 2)
  let p2 = p1 + 2 + cs_len
  comp_len ← index body p2
  let p3 = p2 + (1 + comp_len)
  ext_total ← read16 body p3
  key_share ← extensions_from (suc (length body)) body (p3 + 2) (p3 + 2 + ext_total) none
  guard (any (λ s. s == tls_chacha20_poly1305_sha256) suites) (fixture_error no_suite)
  share ← required key_share
  ok (record {
    client_random = slice 2 34 body;
    session_id = slice 35 (35 + sid_len) body;
    key_share = share;
  })
