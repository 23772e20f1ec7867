-- ===== src/EvilListener/Keys.antt =====
-- tools/https_e2e/evil_listener.py: `TrafficKeys`, the AEAD state of one direction.
pub mod Nonces
pub mod Sealed
use Prim.Native.Nat.{bit_xor}
use c64_https.Common.{
  ℕ, zero, suc, ◌+◌, Bool, Option, none, some, List, [], ◌∷◌, ◌++◌, length, take, drop, get_or,
  ◌==◌, if◌then◌else◌, Result, ok, raised, ◌>>=◌, fixture_error, all_padding,
}
use c64_https.Common.Bytes.{to_bytes_be}
use c64_https.EvilListener.{ct_application_data, pack_be16}
use c64_https.EvilListener.Primitives.{Primitives}
use c64_https.EvilListener.Schedule.{hkdf_expand_label}

-- `aead` is the cipher under `key`.
pub record TrafficKeys : Type 0 where
  pub secret : List ℕ
  pub key : List ℕ
  pub iv : List ℕ
  pub seq : ℕ

-- b"key", b"iv"
abbrev pub key_label : List ℕ
key_label = b'k' ∷ b'e' ∷ b'y' ∷ []

abbrev pub iv_label : List ℕ
iv_label = b'i' ∷ b'v' ∷ []

-- bytes(a ^ b for a, b in zip(xs, ys))
unfoldable pub xor_bytes : List ℕ → List ℕ → List ℕ
xor_bytes [] ys = []
xor_bytes (x ∷ xs) [] = []
xor_bytes (x ∷ xs) (y ∷ ys) = bit_xor x y ∷ xor_bytes xs ys

unfoldable pub nonce : TrafficKeys → Result (List ℕ)
nonce keys = do seq ← to_bytes_be 12 keys.seq; ok (xor_bytes keys.iv seq)

abbrev pub advanced : TrafficKeys → TrafficKeys
advanced keys = record keys { seq = keys.seq + 1 }

-- Where the content and its type end: the loop that goes back over the padding from place `i - 1`.
unfoldable pub type_place : ℕ → List ℕ → Option ℕ
type_place zero pt = none
type_place (suc i) pt = let rest = type_place i pt in if get_or pt i 0 == 0 then rest else some i

-- The inner content type, and the content before it.
unfoldable pub unpad : List ℕ → Result (ℕ × List ℕ)
unpad pt = elim (type_place (length pt) pt) [
  | none ↦ raised (fixture_error all_padding)
  | some i ↦ ok (get_or pt i 0, take i pt)
]

module _ (p : Primitives) where
  unfoldable pub new_keys : List ℕ → Result TrafficKeys
  new_keys secret = do
    key ← hkdf_expand_label p secret key_label [] 32
    iv ← hkdf_expand_label p secret iv_label [] 12
    ok (record { secret = secret; key = key; iv = iv; seq = 0 })

  unfoldable pub encrypt : TrafficKeys → List ℕ → Result (List ℕ × TrafficKeys)
  encrypt keys inner_plaintext = do
    len ← pack_be16 (length inner_plaintext + 16)
    let aad = (ct_application_data ∷ 0x03 ∷ 0x03 ∷ []) ++ len
    n ← nonce keys
    ok (aad ++ p.seal keys.key n inner_plaintext aad, advanced keys)

  -- `record` is a complete TLSCiphertext with its header of five bytes.
  unfoldable pub decrypt : TrafficKeys → List ℕ → Result ((ℕ × List ℕ) × TrafficKeys)
  decrypt keys rec = do
    n ← nonce keys
    pt ← p.unseal keys.key n (drop 5 rec) (take 5 rec)
    content ← unpad pt
    ok (content, advanced keys)
