-- ===== src/EvilListener/Keys/Sealed.antt =====
-- tools/https_e2e/evil_listener.py: `TrafficKeys.decrypt` reads back what `encrypt` wrote.
use c64_https.Common.{
  ℕ, zero, suc, ◌+◌, ◌/◌, ◌%◌, true, false, ◌^◌, ◌≤◌, ◌<◌, some, List, [], ◌∷◌, ◌++◌, length,
  length-append, length-replicate, slice, take-append_length, replicate, get_or, ltb, ◌==◌, ok, ◌≡◌,
  ◌≢◌, refl, ◌∙◌, arith,
}
use c64_https.Common.Bytes.{from_be, from_le}
use c64_https.EvilListener.{ct_application_data, pack_be16}
use c64_https.EvilListener.Primitives.{Primitives}
use c64_https.EvilListener.Schedule.Expanded.{hkdf_expand_label-ok}
use c64_https.EvilListener.Keys.{
  TrafficKeys, key_label, iv_label, advanced, type_place, unpad, new_keys, encrypt, decrypt,
  xor_bytes,
}
use c64_https.EvilListener.Keys.Nonces.{nonce_total}

-- A content, its type, and `z` zeros behind it.
abbrev pub inner : List ℕ → ℕ → ℕ → List ℕ
inner content ctype z = content ++ (ctype ∷ replicate z 0)

get_or-inner : (content : List ℕ) (c z : ℕ) → get_or (inner content c z) (length content) 0 ≡ c
get_or-inner [] c z = refl
get_or-inner (x ∷ xs) c z = get_or-inner xs c z

get_or-replicate : (n i : ℕ) → get_or {A = ℕ} (replicate n 0) i 0 ≡ 0
get_or-replicate zero i = refl
get_or-replicate (suc n) zero = refl
get_or-replicate (suc n) (suc i) = get_or-replicate n i

get_or-padding :
    (content : List ℕ) (c z i : ℕ) → get_or (inner content c z) (suc (length content + i)) 0 ≡ 0
get_or-padding [] c z i = get_or-replicate z (0 + i)
get_or-padding (x ∷ xs) c z i =
    let n : suc (length xs) + i ≡ suc (length xs + i) = omega arith in
    rw n (get_or-padding xs c z i)

type_place-zero :
    (pt : List ℕ) (i : ℕ) → get_or pt i 0 ≡ 0 → type_place (suc i) pt ≡ type_place i pt
unfolding type_place
type_place-zero pt i h = rw (type_place, h) refl

type_place-inner :
    (content : List ℕ) (c z k : ℕ)
    → c ≢ 0
    → type_place (suc (length content + k)) (inner content c z) ≡ some (length content)
unfolding type_place
type_place-inner content c z zero h =
    let there : (get_or (inner content c z) (length content) 0 == 0) ≡ false =
      ground (arith, get_or-inner content c z) in
    let n : length content + 0 ≡ length content = omega arith in rw (n, type_place, there) refl
type_place-inner content c z (suc k) h =
    let n : length content + suc k ≡ suc (length content + k) = omega arith in
    rw n (
      type_place-zero (inner content c z) (suc (length content + k)) (get_or-padding content c z k)
      ∙ type_place-inner content c z k h)

unpad-inner : (content : List ℕ) (c z : ℕ) → c ≢ 0 → unpad (inner content c z) ≡ ok (c, content)
unfolding unpad
unpad-inner content c z h =
    let len : length (inner content c z) ≡ suc (length content + z) =
      length-append content (c ∷ replicate z 0) ∙ omega (arith, length-replicate {A = ℕ} z 0) in
    rw
      (
        unpad,
        len,
        type_place-inner content c z z h,
        get_or-inner content c z,
        take-append_length (length content) content (c ∷ replicate z 0) refl,
      )
      refl

-- The header of a record, which is what the AEAD authenticates beside the content.
abbrev pub header : ℕ → List ℕ
header n = ct_application_data ∷ 0x03 ∷ 0x03 ∷ n / 256 ∷ n % 256 ∷ []

header_lem :
    (n : ℕ) (sealed : List ℕ)
    → length sealed ≡ n
    → length (header n ++ sealed) ≡ 5 + from_be (slice 3 5 (header n ++ sealed))
unfolding from_be from_le
header_lem n sealed h = omega arith

module _ (p : Primitives) (keys : TrafficKeys) (content : List ℕ) (ctype z : ℕ) where
  -- What `encrypt` makes of a content of up to 64 KB with its type and any padding has a header with
  -- the length of what follows, and `decrypt` with the same key, iv and number reads the content and its type
  -- back; both directions' numbers go on by one.
  pub decrypt-encrypt :
      keys.seq < 256 ^ 12
      → ctype ≢ 0
      → length (inner content ctype z) + 16 < 65536
      → (rec : List ℕ) × (encrypt p keys (inner content ctype z) ≡ ok (rec, advanced keys))
        × (decrypt p keys rec ≡ ok ((ctype, content), advanced keys))
        × (5 ≤ length rec)
        × (length rec ≡ 5 + from_be (slice 3 5 rec))
        × (get_or rec 0 0 ≡ ct_application_data)
  unfolding encrypt decrypt pack_be16
  decrypt-encrypt s c l =
      let n = nonce_total keys s in
      let pt : List ℕ = inner content ctype z in
      let small : ltb (length pt + 16) 65536 ≡ true = ground arith in
      let aad : List ℕ = header (length pt + 16) in
      (
        aad ++ p.seal keys.key (xor_bytes keys.iv n.0) pt aad,
        rw (small, n.4) refl,
        rw
            (
              n.4,
              p.unseal_seal keys.key (xor_bytes keys.iv n.0) pt aad,
              unpad-inner content ctype z c,
            )
            refl,
        omega arith,
        header_lem (length pt + 16) (p.seal keys.key (xor_bytes keys.iv n.0) pt aad)
            (p.length_seal keys.key (xor_bytes keys.iv n.0) pt aad),
        refl,
      )

-- A secret has its keys: twelve bytes of iv, and the number 0.
pub new_keys-ok :
    (p : Primitives) (secret : List ℕ)
    → (keys : TrafficKeys) × (new_keys p secret ≡ ok keys) × (keys.seq ≡ 0) × (length keys.iv ≡ 12)
unfolding new_keys
new_keys-ok p secret =
    let (key, made, _) =
      hkdf_expand_label-ok p secret key_label [] 32 (omega arith) (omega arith) (omega arith) in
    let (iv, shaken, long) =
      hkdf_expand_label-ok p secret iv_label [] 12 (omega arith) (omega arith) (omega arith) in
    (record { secret = secret; key = key; iv = iv; seq = 0 }, rw (made, shaken) refl, refl, long)
