-- ===== src/TrustBundle/Verified.antt =====
-- tools/trust_bundle.py: what `verify` accepts, and what the client makes of an accepted blob.
use c64_https.Common.{
  ℕ, ◌≤◌, ◌<◌, ◌≡◌, refl, ap, ◌∙◌, true, List, ◌++◌, map, length, All, leb, leb→le, ok, >>=-eq-ok,
  guard-eq-ok, ok-injective, arith, ◌↔◌,
}
use mathlib.Core.Path.{subst}
use c64_https.Common.Bytes.{to_bytes_be_lem}
use c64_https.TrustStore.{Record}
use c64_https.TrustStore.Codec.{IsPackable, stored}
use c64_https.TrustBundle.{
  Bundle, sorted, all_distinct, unsigned_body, in_range, parse, sign, verify, p256_n,
}
use c64_https.TrustBundle.Signing.{Ecdsa}
use c64_https.TrustBundle.Sorting.{sorted-Ascending}
use c64_https.TrustBundle.Format.{IsLeaf, parse_iff}
use c64_https.TrustBundle.Signed.{
  signed_body, unsigned_body_lem, signed-IsBundle, sorted-All, length-sorted,
}

range_ok : (x : ℕ) → 1 ≤ x → x < p256_n → in_range x ≡ true
range_ok x lo hi = ground arith

module _ {Private Public : Type 0} (ec : Ecdsa Private Public) where
  -- `verify` accepts exactly what parses, carries a signature that the key verifies, and is not below
  -- the floor.
  pub verify_iff :
      (blob : List ℕ) (public : Public) (floor : ℕ) (b : Bundle)
      → (verify ec blob public floor ≡ ok b) ↔ (
          (parse blob ≡ ok b)
          × (ec.verify public (b.r, b.s) b.signed ≡ true)
          × (floor ≤ b.generation))
  unfolding verify
  verify_iff blob public floor b = (
    λ h.
        let (p, ep, h1) = >>=-eq-ok (parse blob) _ h in
        let (good, h2) = guard-eq-ok (ec.verify public (p.r, p.s) p.signed) _ _ h1 in
        let (fresh, h3) = guard-eq-ok (leb floor p.generation) _ _ h2 in
        let e : p ≡ b = ok-injective p b h3 in
        (
          ep ∙ ap ok e,
          subst (λ t. ec.verify public (t.r, t.s) t.signed ≡ true) e good,
          subst (λ t. floor ≤ t.generation) e (leb→le floor p.generation fresh),
        ),
    λ h. rw (h.0, h.1) (ground (arith, h.2)),
  )

  -- A bundle that `sign` makes of at most 32 leaf pins of distinct keys whose fields fit, at a
  -- generation of 16 bits, verifies under the public key at every floor up to its generation, and
  -- carries the records in order, as 64 bytes keep them.
  pub verify-sign :
      (key : Private) (gen floor : ℕ) (recs : List Record)
      → All IsPackable recs
      → All IsLeaf recs
      → all_distinct recs ≡ true
      → length recs ≤ 32
      → gen < 65536
      → floor ≤ gen
      → (blob : List ℕ) × (b : Bundle) × (sign ec key gen recs ≡ ok blob)
        × (verify ec blob (ec.public_key key) floor ≡ ok b)
        × (b.generation ≡ gen)
        × (b.records ≡ map stored (sorted recs))
        × (unsigned_body gen recs ≡ ok b.signed)
  unfolding sign
  verify-sign key gen floor recs packs leaves apart room small fresh =
      let ordered = sorted recs in
      let body = signed_body gen ordered in
      let eb = unsigned_body_lem gen recs packs leaves apart room small in
      let sig = ec.sign key body in
      let (r_lo, r_hi) = ec.r_range key body in
      let (s_lo, s_hi) = ec.s_range key body in
      let (rb, er, lr, _, vr) = to_bytes_be_lem 32 sig.0 (omega arith) in
      let (sb, es, ls, _, vs) = to_bytes_be_lem 32 sig.1 (omega arith) in
      let f =
        signed-IsBundle gen ordered sig.0 sig.1 rb sb (sorted-All IsPackable recs packs)
          (sorted-All IsLeaf recs leaves) (sorted-Ascending recs apart)
          (omega (arith, length-sorted recs)) small (range_ok sig.0 r_lo r_hi)
          (range_ok sig.1 s_lo s_hi) (lr, vr) (ls, vs) in
      (
        body ++ (rb ++ sb),
        _,
        rw (eb, er, es),
        (verify_iff (body ++ (rb ++ sb)) (ec.public_key key) floor _).1
            ((parse_iff _ _).1 (_, f), ec.verify_sign key body, fresh),
        refl,
        refl,
        eb,
      )
