-- ===== src/Runs.antt =====
-- Concrete values that the runs below this module share: a hash function and a signature scheme that
-- stand in for SHA-256 and ECDSA, and sample hosts, records and files.
pub mod Slots
pub mod Pins
pub mod Fetch
pub mod Expansion
pub mod Cable
pub mod Devices
pub mod Listener
pub mod Served
pub mod Certs
use c64_https.Common.{
  ℕ, zero, suc, ◌+◌, ◌%◌, ◌≤◌, ◌<◌, ◌≡◌, refl, Bool, true, ltb, ◌&&◌, List, [], ◌∷◌, ◌++◌, length,
  take, drop, replicate, All, length-replicate, arith,
}
use c64_https.Common.Bytes.{IsByte}
use c64_https.TrustStore.Hashlib.{Hash}
use c64_https.TrustStore.{Record, Host, text}
use c64_https.TrustStore.Codec.{IsPackable}
use c64_https.TrustStore.Slots.{Selection, valid}
use c64_https.TrustBundle.{Bundle}
use c64_https.TrustBundle.Signing.{Ecdsa}
use c64_https.TrustBundle.Format.{IsLeaf}

pub All-replicate : (n b : ℕ) → b < 256 → All IsByte (replicate n b)
All-replicate zero b h = tt
All-replicate (suc n) b h = (h, All-replicate n b h)

abbrev pub all_bytes : List ℕ → Bool
all_bytes [] = true
all_bytes (b ∷ bs) = ltb b 256 && all_bytes bs

pub all_bytes-All : (bs : List ℕ) → all_bytes bs ≡ true → All IsByte bs
all_bytes-All [] h = tt
all_bytes-All (b ∷ bs) h = (ground arith, all_bytes-All bs (ground arith))

-- The length of the message, 32 times.
abbrev pub toy_hash : Hash
toy_hash = record {
  digest = λ m. replicate 32 (length m % 256);
  length_digest = λ m. length-replicate 32 (length m % 256);
  digest_bytes = λ m. All-replicate 32 (length m % 256) (omega arith);
}

-- Every message has the signature (1, 2), and every signature verifies.
abbrev pub toy_ecdsa : Ecdsa ℕ ℕ
toy_ecdsa = record {
  public_key = λ k. k;
  sign = λ k m. (1, 2);
  verify = λ p s m. true;
  verify_sign = λ k m. refl;
  r_range = λ k m. (omega arith, omega arith);
  s_range = λ k m. (omega arith, omega arith);
}

abbrev pub host_a : Host
host_a = text (b'a' ∷ [])

abbrev pub host_bb : Host
host_bb = text (b'b' ∷ b'b' ∷ [])

-- The record of a host whose key is 16 times `k`.
abbrev pub sample : ℕ → Record
sample k = record {
  key = replicate 16 k;
  spki = replicate 32 9;
  mode = 1;
  flags = 0;
  uses = 5;
  display = replicate 12 0;
}

pub sample-IsPackable : (k : ℕ) → IsPackable (sample k)
sample-IsPackable k = record {
  key_len = refl;
  spki_len = refl;
  mode_u8 = omega arith;
  flags_u8 = omega arith;
  uses_u16 = omega arith;
}

abbrev pub sample_bytes : ℕ → List ℕ
sample_bytes k = replicate 16 k ++ (replicate 32 9 ++ ((1 ∷ 0 ∷ 5 ∷ 0 ∷ []) ++ replicate 12 0))

-- The file of generation `g` with the record of `host_a`.
abbrev pub file_a : ℕ → List ℕ
file_a g = 0x43 ∷ 0x36 ∷ 0x54 ∷ 0x53 ∷ 1 ∷ g ∷ 0 ∷ 1 ∷ (sample_bytes 1 ++ replicate 8 72)

-- The file of generation `g` with the records of `host_a` and of `host_bb`.
abbrev pub file_ab : ℕ → List ℕ
file_ab g =
    0x43
    ∷ 0x36
    ∷ 0x54
    ∷ 0x53
    ∷ 1
    ∷ g
    ∷ 0
    ∷ 2
    ∷ (sample_bytes 1 ++ (sample_bytes 2 ++ replicate 8 136))

abbrev pub selected_a : Selection
selected_a = valid 0 (7, sample 1 ∷ []) (0, 1)

abbrev pub leaf : ℕ → Record
leaf k = record {
  key = replicate 16 k;
  spki = replicate 32 9;
  mode = 16;
  flags = 1;
  uses = 0;
  display = replicate 12 0;
}

pub leaf-IsPackable : (k : ℕ) → IsPackable (leaf k)
leaf-IsPackable k = record {
  key_len = refl;
  spki_len = refl;
  mode_u8 = omega arith;
  flags_u8 = omega arith;
  uses_u16 = omega arith;
}

pub leaf-IsLeaf : (k : ℕ) → IsLeaf (leaf k)
leaf-IsLeaf k = record { leaf = refl; warn_only = refl; unused = refl }

abbrev pub leaf_bytes : ℕ → List ℕ
leaf_bytes k = replicate 16 k ++ (replicate 32 9 ++ ((16 ∷ 1 ∷ 0 ∷ 0 ∷ []) ++ replicate 12 0))

abbrev pub signed_bytes : List ℕ
signed_bytes = 0x43 ∷ 0x36 ∷ 0x54 ∷ 0x42 ∷ 1 ∷ 3 ∷ 0 ∷ 1 ∷ leaf_bytes 1

abbrev pub blob : List ℕ
blob = signed_bytes ++ (replicate 31 0 ++ ((1 ∷ []) ++ (replicate 31 0 ++ (2 ∷ []))))

abbrev pub parsed : Bundle
parsed = record { generation = 3; records = leaf 1 ∷ []; r = 1; s = 2; signed = signed_bytes }
