-- ===== src/EvilListener/Schedule/Derived.antt =====
-- tools/https_e2e/evil_listener.py: the secrets of a connection, as RFC 8446 has them (section 7.1), and that
-- `_derive_secret` and `_hkdf_expand_label` give them.
use c64_https.Common.{
  ℕ, ◌+◌, ◌≤◌, List, [], ◌∷◌, ◌++◌, length, replicate, take_all, ltb, is_nil, true, ok, ◌≡◌, refl,
  ap, sym, ◌∙◌, arith,
}
use c64_https.EvilListener.{pack_be16, one_byte}
use c64_https.EvilListener.Primitives.{Primitives}
use c64_https.EvilListener.Schedule.{hkdf_extract, hkdf_expand, hkdf_expand_label, derive_secret}
use c64_https.EvilListener.Schedule.Expanded.{block, blocks, take-blocks, hkdf_expand-expansion}

-- " traffic"
abbrev of_traffic : List ℕ
of_traffic = 32 ∷ 116 ∷ 114 ∷ 97 ∷ 102 ∷ 102 ∷ 105 ∷ 99 ∷ []

-- "derived", and "finished"
abbrev of_derived : List ℕ
of_derived = 100 ∷ 101 ∷ 114 ∷ 105 ∷ 118 ∷ 101 ∷ 100 ∷ []

abbrev of_finished : List ℕ
of_finished = 102 ∷ 105 ∷ 110 ∷ 105 ∷ 115 ∷ 104 ∷ 101 ∷ 100 ∷ []

module _ (p : Primitives) where
  -- The structure HkdfLabel, for 32 bytes.
  abbrev hkdf_label : List ℕ → List ℕ → List ℕ
  hkdf_label label context =
      0
      ∷ 32
      ∷ (6 + length label)
      ∷ 116
      ∷ 108
      ∷ 115
      ∷ 49
      ∷ 51
      ∷ 32
      ∷ (label ++ (length context ∷ context))

  -- HKDF-Expand-Label of 32 bytes: the first block of the expansion.
  unfoldable pub expanded_label : List ℕ → List ℕ → List ℕ → List ℕ
  expanded_label secret label context = p.hmac secret (hkdf_label label context ++ (1 ∷ []))

  -- What is extracted from the secret before, with the next input.
  unfoldable pub extracted : List ℕ → List ℕ → List ℕ
  extracted secret ikm = p.hmac (expanded_label secret of_derived (p.sha256 [])) ikm

  abbrev pub handshake_secret_of : List ℕ → List ℕ
  handshake_secret_of shared = extracted (p.hmac (replicate 32 0) (replicate 32 0)) shared

  -- "c hs traffic", "s hs traffic", "s ap traffic"
  abbrev pub c_hs_of : List ℕ → List ℕ → List ℕ
  c_hs_of shared transcript =
      expanded_label (handshake_secret_of shared) (99 ∷ 32 ∷ 104 ∷ 115 ∷ of_traffic)
        (p.sha256 transcript)

  abbrev pub s_hs_of : List ℕ → List ℕ → List ℕ
  s_hs_of shared transcript =
      expanded_label (handshake_secret_of shared) (115 ∷ 32 ∷ 104 ∷ 115 ∷ of_traffic)
        (p.sha256 transcript)

  abbrev pub s_ap_of : List ℕ → List ℕ → List ℕ
  s_ap_of shared transcript =
      expanded_label (extracted (handshake_secret_of shared) (replicate 32 0))
        (115 ∷ 32 ∷ 97 ∷ 112 ∷ of_traffic) (p.sha256 transcript)

  -- The verify_data of a Finished under a traffic secret.
  abbrev pub verify_data_of : List ℕ → List ℕ → List ℕ
  verify_data_of secret transcript =
      p.hmac (expanded_label secret of_finished []) (p.sha256 transcript)

  hkdf_expand-block :
      (prk info : List ℕ) → hkdf_expand p prk info 32 ≡ ok (p.hmac prk (info ++ (1 ∷ [])))
  unfolding block blocks
  hkdf_expand-block prk info =
      let first : List ℕ = p.hmac prk (info ++ (1 ∷ [])) in
      hkdf_expand-expansion p prk info 32
      ∙ ap ok (
          sym (take-blocks p prk info 1 32 (omega arith) (omega arith))
          ∙ take_all 32 first (omega (arith, p.length_hmac prk (info ++ (1 ∷ [])))))

  pub hkdf_expand_label-expanded_label :
      (secret label context : List ℕ)
      → length label ≤ 249
      → length context ≤ 255
      → hkdf_expand_label p secret label context 32 ≡ ok (expanded_label secret label context)
  unfolding hkdf_expand_label pack_be16 one_byte expanded_label
  hkdf_expand_label-expanded_label secret label context hl hc =
      let a : ltb (6 + length label) 256 ≡ true = ground arith in
      let b : ltb (length context) 256 ≡ true = ground arith in
      rw (a, b) (hkdf_expand-block secret (hkdf_label label context))

  pub derive_secret-expanded_label :
      (secret label transcript : List ℕ)
      → length label ≤ 249
      → derive_secret p secret label (p.sha256 transcript)
        ≡ ok (expanded_label secret label (p.sha256 transcript))
  unfolding derive_secret
  derive_secret-expanded_label secret label transcript h =
      hkdf_expand_label-expanded_label secret label (p.sha256 transcript) h
        (omega (arith, p.length_sha256 transcript))

  hkdf_extract-hmac :
      (salt ikm : List ℕ) → length salt ≡ 32 → hkdf_extract p salt ikm ≡ p.hmac salt ikm
  unfolding hkdf_extract is_nil
  hkdf_extract-hmac [] ikm h = absurd (omega arith)
  hkdf_extract-hmac (b ∷ salt) ikm h = refl

  -- The salt that is derived is not empty, so that it is used.
  pub hkdf_extract-extracted :
      (secret ikm : List ℕ)
      → hkdf_extract p (expanded_label secret of_derived (p.sha256 [])) ikm ≡ extracted secret ikm
  unfolding expanded_label extracted
  hkdf_extract-extracted secret ikm =
      hkdf_extract-hmac _ ikm
        (p.length_hmac secret (hkdf_label of_derived (p.sha256 []) ++ (1 ∷ [])))
