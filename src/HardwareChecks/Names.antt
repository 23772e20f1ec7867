-- ===== src/HardwareChecks/Names.antt =====
-- tools/ip65_hw_checks.py: the two parsers of host names, `client_hello_sni` for a ClientHello and
-- `dns_question_names` for a DNS message. A text is the list of its code points.

pub mod Questions
pub mod Hello
use c64_https.Common.{
  ℕ, zero, suc, ◌+◌, ◌-◌, Bool, true, false, not, ◌&&◌, ◌||◌, Option, none, some, List, [], ◌∷◌,
  ◌++◌, map, ltb, leb, ◌==◌, if◌then◌else◌, length, take, drop, slice, min,
}
use Prim.Native.Nat.{bit_and}
use c64_https.TrustStore.{is_ascii}
use c64_https.HardwareChecks.Capture.{be_at, byte_at}

abbrev pub tls_hs_client_hello : ℕ
tls_hs_client_hello = 1

-- name.decode("ascii"), or None where that raises
abbrev pub ascii_name : List ℕ → Option (List ℕ)
ascii_name name = if is_ascii name then some name else none

-- The loop over the extensions from `off` up to `end`.
unfoldable pub find_sni : ℕ → List ℕ → ℕ → ℕ → Option (List ℕ)
find_sni zero body off end = none
find_sni (suc fuel) body off end =
    let elen = be_at (off + 2) 2 body in
    let edata = slice (off + 4) (off + 4 + elen) body in
    let more = find_sni fuel body (off + 4 + elen) end in
    if ltb end (off + 4)
    then none
    else if not (be_at off 2 body == 0) || ltb (length edata) 5
    then more
    else ascii_name (slice 5 (5 + be_at 3 2 edata) edata)

-- Past a field whose length stands in the `w` bytes at `off`; None where these are not there.
abbrev pub skip : ℕ → List ℕ → ℕ → Option ℕ
skip w body off = if ltb (length body) (off + w) then none else some (off + w + be_at off w body)

-- From the extensions' length on.
abbrev pub sni_from : List ℕ → ℕ → Option (List ℕ)
sni_from body off =
    if ltb (length body) (off + 2)
    then none
    else find_sni (length body) body (off + 2) (min (length body) (off + 2 + be_at off 2 body))

abbrev pub after : Option ℕ → (ℕ → Option (List ℕ)) → Option (List ℕ)
after none k = none
after (some off) k = k off

-- The version and the random take 34 bytes; then the session id, the cipher suites, and the compression
-- methods. A round of the loop takes four bytes of the body at least.
unfoldable pub client_hello_sni : List ℕ → Option (List ℕ)
client_hello_sni b =
    if ltb (length b) 4 || not (byte_at 0 b == tls_hs_client_hello)
    then none
    else (let body = slice 4 (4 + be_at 1 3 b) b in
        after (skip 1 body 34) λ off1.
          after (skip 2 body off1) λ off2. after (skip 1 body off2) λ off3. sni_from body off3)

-- bytes.decode("ascii", "replace")
abbrev pub replaced : List ℕ → List ℕ
replaced bytes = map (λ b. if ltb b 128 then b else 0xFFFD) bytes

-- What the inner loop leaves: where it stopped, and the labels.
unfoldable pub labels_from : ℕ → List ℕ → ℕ → ℕ × List (List ℕ)
labels_from zero payload off = (off, [])
labels_from (suc fuel) payload off =
    let n = byte_at off payload in
    let rest : ℕ × List (List ℕ) = labels_from fuel payload (off + 1 + n) in
    if leb (length payload) off
    then (off, [])
    else if n == 0
    then (off + 1, [])
    else if not (bit_and n 0xC0 == 0)
    then (off + 2, [])
    else (rest.0, replaced (slice (off + 1) (off + 1 + n) payload) ∷ rest.1)

-- ".".join(labels)
unfoldable pub joined : List (List ℕ) → List ℕ
joined [] = []
joined (l ∷ []) = l
joined (l ∷ m ∷ ls) = l ++ (b'.' ∷ joined (m ∷ ls))

-- if labels: names.append(".".join(labels))
abbrev pub named : List (List ℕ) → List (List ℕ) → List (List ℕ)
named [] names = names
named (l ∷ ls) names = joined (l ∷ ls) ∷ names

-- The outer loop, for `k` questions.
unfoldable pub names_from : ℕ → List ℕ → ℕ → List (List ℕ)
names_from zero payload off = []
names_from (suc k) payload off =
    let l = labels_from (length payload) payload off in named l.1 (names_from k payload (l.0 + 4))

unfoldable pub dns_question_names : List ℕ → List (List ℕ)
dns_question_names payload =
    if ltb (length payload) 12 then [] else names_from (min (be_at 4 2 payload) 8) payload 12
