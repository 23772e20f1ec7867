-- ===== src/EvilListener/Messages/Sizes.antt =====
-- tools/https_e2e/evil_listener.py: the server's messages exist, with their sizes, and `bad_finished` differs
-- from `good` in one bit.
use Prim.Native.Nat.{bit_xor}
use c64_https.Common.{
  ℕ, zero, suc, ◌+◌, ◌≤◌, ◌<◌, Bool, true, false, not, ◌&&◌, List, [], ◌∷◌, ◌++◌, length,
  length-append, length-take, take, ltb, ◌==◌, all_below, all_below_lem, and_true, ==_iff,
  true≢false, ok-injective, replicate, ◌/◌, ◌%◌, ok, ◌≡◌, ◌≢◌, refl, sym, ap, ◌∙◌, arith,
}
use c64_https.Common.Bytes.{index, index_lem}
use c64_https.EvilListener.{
  Mode, good, bad_finished, omit_cert, handshake, hs_finished, hs_certificate_verify, pack_be16,
}
use c64_https.EvilListener.Primitives.{Primitives}
use c64_https.EvilListener.Schedule.Expanded.{hkdf_expand_label-ok}
use c64_https.EvilListener.Messages.{
  Server, verify_context, certificate, certificate_verify, finished_label, sent_data, finished,
}

pub length-certificate : (s : Server) → length (certificate s) ≡ 13 + length s.cert_der
unfolding certificate handshake
length-certificate s = omega (arith, length-append s.cert_der (0 ∷ 0 ∷ []))

-- The lowest bit is flipped, and no other.
flips : ℕ → Bool
flips b = not (bit_xor b 0x01 == b) && (bit_xor b 0x01 / 2 == b / 2)

flips_below : all_below 256 flips ≡ true
unfolding flips
flips_below = refl

flips_lem : (b : ℕ) → b < 256 → (bit_xor b 0x01 ≢ b) × (bit_xor b 0x01 / 2 ≡ b / 2)
unfolding flips
flips_lem b h =
    let (other, same) =
      and_true (not (bit_xor b 0x01 == b)) _ (all_below_lem 256 flips b flips_below h) in
    (
      λ e. absurd (true≢false (sym other ∙ ap not ((==_iff (bit_xor b 0x01) b).1 e))),
      (==_iff (bit_xor b 0x01 / 2) (b / 2)).0 same,
    )

-- A list of n + 1 elements is its first n and the one at n.
take-index :
    (n : ℕ) (v : List ℕ) (b : ℕ) → length v ≡ suc n → index v n ≡ ok b → v ≡ take n v ++ (b ∷ [])
unfolding index
take-index n [] b h e = absurd (omega arith)
take-index zero (x ∷ []) b h e = ap (λ t. t ∷ []) (ok-injective x b e)
take-index zero (x ∷ y ∷ v) b h e = absurd (omega arith)
take-index (suc n) (x ∷ v) b h e = ap (λ t. x ∷ t) (take-index n v b (omega arith) e)

module _ (p : Primitives) where
  pub certificate_verify-ok :
      (hash : List ℕ) → (cv : List ℕ) × (certificate_verify p hash ≡ ok cv) × (length cv ≤ 80)
  unfolding certificate_verify pack_be16 handshake
  certificate_verify-ok hash =
      let sig : List ℕ = p.sign (replicate 64 0x20 ++ (verify_context ++ (0 ∷ hash))) in
      let short = p.length_sign (replicate 64 0x20 ++ (verify_context ++ (0 ∷ hash))) in
      let fits : ltb (length sig) 65536 ≡ true = ground arith in
      (
        handshake hs_certificate_verify (4 ∷ 3 ∷ length sig / 256 ∷ length sig % 256 ∷ sig),
        rw fits refl,
        omega arith,
      )

  abbrev finished_with : List ℕ → List ℕ
  finished_with verify_data = hs_finished ∷ 0 ∷ 0 ∷ 32 ∷ verify_data

  -- The Finished of `good` and of `bad_finished` have 36 bytes, and differ in the lowest bit of the last byte
  -- alone. There is one for every secret and every hash.
  pub finished-bad_finished :
      (secret hash : List ℕ)
      → (front : List ℕ) × (last : ℕ) × (length front ≡ 35)
        × (finished p good secret hash ≡ ok (front ++ (last ∷ []), false))
        × (finished p bad_finished secret hash ≡ ok (front ++ (bit_xor last 0x01 ∷ []), true))
        × (bit_xor last 0x01 ≢ last)
        × (bit_xor last 0x01 / 2 ≡ last / 2)
  unfolding finished sent_data handshake
  finished-bad_finished secret hash =
      let (key, derived, _) =
        hkdf_expand_label-ok p secret finished_label [] 32 (omega arith) (omega arith)
          (omega arith) in
      let v : List ℕ = p.hmac key hash in
      let long : length v ≡ 32 = p.length_hmac key hash in
      let (last, found, small) = index_lem v 31 (omega arith) (p.hmac_bytes key hash) in
      let parts : v ≡ take 31 v ++ (last ∷ []) = take-index 31 v last long found in
      let front : length (take 31 v) ≡ 31 = length-take 31 v ∙ omega arith in
      let same : length (take 31 v ++ (bit_xor last 0x01 ∷ [])) ≡ 32 =
        length-append (take 31 v) (bit_xor last 0x01 ∷ []) ∙ omega arith in
      (
        finished_with (take 31 v),
        last,
        omega arith,
        rw (derived, long) (ap (λ t. ok (finished_with t, false)) parts),
        rw (derived, found, same) refl,
        (flips_lem last small).0,
        (flips_lem last small).1,
      )

  pub finished-ok :
      (mode : Mode) (secret hash : List ℕ)
      → mode ≢ omit_cert
      → (fin : List ℕ × Bool) × (finished p mode secret hash ≡ ok fin) × (length fin.0 ≡ 36)
  finished-ok omit_cert secret hash h = absurd (h refl)
  finished-ok good secret hash h =
      let (front, last, long, right, _, _, _) = finished-bad_finished secret hash in
      ((front ++ (last ∷ []), false), right, omega (arith, length-append front (last ∷ [])))
  finished-ok bad_finished secret hash h =
      let (front, last, long, _, wrong, _, _) = finished-bad_finished secret hash in
      (
        (front ++ (bit_xor last 0x01 ∷ []), true),
        wrong,
        omega (arith, length-append front (bit_xor last 0x01 ∷ [])),
      )
