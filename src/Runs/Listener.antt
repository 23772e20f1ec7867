-- ===== src/Runs/Listener.antt =====
-- Concrete runs of the TLS server of tools/https_e2e/evil_listener.py, with functions that stand in for its
-- cryptography: a cipher that appends a tag of zeros, and digests of 32 equal bytes.
use c64_https.Common.{
  ℕ, get_or, drop, ◌/◌, ◌+◌, ◌-◌, ◌%◌, ◌≤◌, ◌≡◌, ◌≢◌, refl, ap, ◌∙◌, true, false, some, List, [],
  ◌∷◌, ◌++◌, length, length-append, length-replicate, take, take-append_length, replicate, All,
  is_nil, ok, arith,
}
use Prim.Native.Nat.{bit_xor}
use c64_https.Common.Bytes.{from_be, from_le}
use c64_https.Runs.{All-replicate}
use c64_https.EvilListener.{good, bad_finished, onepermsg, pathological}
use c64_https.EvilListener.Primitives.{Primitives}
use c64_https.EvilListener.Schedule.{hkdf_expand}
use c64_https.EvilListener.Schedule.Expanded.{hkdf_expand-expansion, expansion}
use c64_https.EvilListener.Framing.{frame_handshake_stream, concatenated}
use c64_https.EvilListener.Framing.Fragments.{frame_handshake_stream_lem, IsFragment}
use c64_https.EvilListener.Keys.{TrafficKeys, advanced, nonce, encrypt, decrypt}
use c64_https.EvilListener.Keys.Nonces.{nonce-injective}
use c64_https.EvilListener.Keys.Sealed.{inner, decrypt-encrypt}
use c64_https.EvilListener.Reader.Cut.{arrivals, read_records, read_records-cut}
use c64_https.EvilListener.ClientHello.{parse_client_hello}
use c64_https.EvilListener.ClientHello.Fuel.{Ends, parse_client_hello-Ends}
use c64_https.EvilListener.Messages.{finished}
use c64_https.EvilListener.Messages.Sizes.{finished-bad_finished}

pub tagged : (pt : List ℕ) → length (pt ++ replicate 16 0) ≡ length pt + 16
tagged pt = length-append pt (replicate 16 0) ∙ omega (arith, length-replicate {A = ℕ} 16 0)

pub untagged : (pt : List ℕ) → take (length (pt ++ replicate 16 0) - 16) (pt ++ replicate 16 0) ≡ pt
untagged pt =
    take-append_length (length (pt ++ replicate 16 0) - 16) pt (replicate 16 0)
      (omega (arith, tagged pt))

abbrev pub stand_ins : Primitives
stand_ins = record {
  sha256 = λ message. replicate 32 (length message % 256);
  hmac = λ key message. replicate 32 ((length key + length message) % 256);
  seal = λ key nonce plaintext aad. plaintext ++ replicate 16 0;
  unseal = λ key nonce sealed aad. ok (take (length sealed - 16) sealed);
  sign = λ message. 0x30 ∷ 0x06 ∷ [];
  exchange = λ share. ok share;
  length_sha256 = λ message. length-replicate 32 (length message % 256);
  length_hmac = λ key message. length-replicate 32 ((length key + length message) % 256);
  hmac_bytes = λ key message. All-replicate 32 ((length key + length message) % 256) (omega arith);
  length_seal = λ key nonce plaintext aad. tagged plaintext;
  unseal_seal = λ key nonce plaintext aad. ap ok (untagged plaintext);
  length_sign = λ message. omega arith;
}

abbrev pub keys : TrafficKeys
keys = record { secret = []; key = replicate 32 7; iv = replicate 12 9; seq = 3 }

hkdf_expand-expansion_example :
    hkdf_expand stand_ins (1 ∷ []) (2 ∷ []) 9000 ≡ expansion stand_ins (1 ∷ []) (2 ∷ []) 9000
hkdf_expand-expansion_example = hkdf_expand-expansion stand_ins (1 ∷ []) (2 ∷ []) 9000

pathological-cuts : pathological ≢ onepermsg
pathological-cuts e = cc

frame_handshake_stream_lem_example :
    (fragments : List (List ℕ)) × (frame_handshake_stream (replicate 20 5) pathological
      ≡ ok fragments)
    × (concatenated fragments ≡ replicate 20 5)
    × All IsFragment fragments
unfolding is_nil
frame_handshake_stream_lem_example =
    frame_handshake_stream_lem pathological (replicate 20 5) pathological-cuts refl

nonce-injective_example : nonce keys ≢ nonce (advanced keys)
nonce-injective_example =
    nonce-injective keys (advanced keys) refl refl (omega arith) (omega arith)
      (λ e. absurd (omega arith))

decrypt-encrypt_example :
    (rec : List ℕ) × (encrypt stand_ins keys (inner (1 ∷ 0 ∷ []) 23 4) ≡ ok (rec, advanced keys))
    × (decrypt stand_ins keys rec ≡ ok ((23, 1 ∷ 0 ∷ []), advanced keys))
    × (5 ≤ length rec)
    × (length rec ≡ 5 + from_be (take 2 (drop 3 rec)))
    × (get_or rec 0 0 ≡ 23)
decrypt-encrypt_example =
    decrypt-encrypt stand_ins keys (1 ∷ 0 ∷ []) 23 4 (omega arith) (λ e. absurd (omega arith))
      (omega arith)

-- A record that changes the cipher, and an empty alert.
abbrev pub change_cipher : List ℕ
change_cipher = 20 ∷ 3 ∷ 3 ∷ 0 ∷ 1 ∷ 1 ∷ []

abbrev alert : List ℕ
alert = 21 ∷ 3 ∷ 3 ∷ 0 ∷ 0 ∷ []

read_records-cut_example :
    (buf' : List ℕ) × (cs' : List (List ℕ)) × (read_records 2 (record {
      buf = 20 ∷ 3 ∷ [];
      left = arrivals ((3 ∷ 0 ∷ []) ∷ (1 ∷ 1 ∷ 21 ∷ []) ∷ (3 ∷ 3 ∷ 0 ∷ 0 ∷ 22 ∷ []) ∷ []);
    })
      ≡ some (change_cipher ∷ alert ∷ [], record { buf = buf'; left = arrivals cs' }))
    × (buf' ++ concatenated cs' ≡ 22 ∷ [])
unfolding is_nil concatenated from_be from_le
read_records-cut_example =
    read_records-cut (change_cipher ∷ alert ∷ []) (20 ∷ 3 ∷ [])
      ((3 ∷ 0 ∷ []) ∷ (1 ∷ 1 ∷ 21 ∷ []) ∷ (3 ∷ 3 ∷ 0 ∷ 0 ∷ 22 ∷ []) ∷ []) (22 ∷ [])
      ((omega arith, refl), ((omega arith, refl), tt)) (refl, (refl, (refl, tt))) refl

-- A ClientHello whose extensions are said to be longer than they are, with one cut short.
abbrev cut_hello : List ℕ
cut_hello =
    1
    ∷ 0
    ∷ 0
    ∷ 50
    ∷ (replicate 34 3 ++ (0 ∷ 0 ∷ 2 ∷ 0x13 ∷ 3 ∷ 1 ∷ 0 ∷ 0 ∷ 90 ∷ 0 ∷ 16 ∷ 0 ∷ 0 ∷ 0 ∷ 51 ∷ []))

parse_client_hello-Ends_example : Ends (parse_client_hello cut_hello)
parse_client_hello-Ends_example = parse_client_hello-Ends cut_hello

finished-bad_finished_example :
    (front : List ℕ) × (last : ℕ) × (length front ≡ 35)
    × (finished stand_ins good (1 ∷ []) (2 ∷ []) ≡ ok (front ++ (last ∷ []), false))
    × (finished stand_ins bad_finished (1 ∷ []) (2 ∷ [])
        ≡ ok (front ++ (bit_xor last 0x01 ∷ []), true))
    × (bit_xor last 0x01 ≢ last)
    × (bit_xor last 0x01 / 2 ≡ last / 2)
finished-bad_finished_example = finished-bad_finished stand_ins (1 ∷ []) (2 ∷ [])
