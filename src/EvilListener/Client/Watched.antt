-- ===== src/EvilListener/Client/Watched.antt =====
-- tools/https_e2e/evil_listener.py: what the server concludes from a stream of the client's records.
use c64_https.Common.{
  ℕ, zero, suc, ◌+◌, ◌^◌, ◌<◌, ◌≤◌, Bool, true, false, some, List, [], ◌∷◌, ◌++◌, length,
  length-append, All, list_eq, take, take_all, ◌==◌, ok, ok-injective, ◌≡◌, ◌≢◌, refl, sym, ap, ◌∙◌,
  arith,
}
use mathlib.Core.List.{append_assoc}
use c64_https.EvilListener.{
  ct_change_cipher_spec, ct_handshake, ct_application_data, hs_finished, handshake,
}
use c64_https.EvilListener.Primitives.{Primitives}
use c64_https.EvilListener.Framing.{concatenated}
use c64_https.EvilListener.Keys.{TrafficKeys, advanced, encrypt, decrypt}
use c64_https.EvilListener.Keys.Sealed.{decrypt-encrypt}
use c64_https.EvilListener.Reader.Cut.{IsRecord, IsChunk, arrivals, receive-cut}
use c64_https.EvilListener.Serving.{Progress, own_finished}
use c64_https.EvilListener.Client.{arrivals_size, content_type, judge, watch, watch_client}

-- A record to pass over.
abbrev pub IsCcs : List ℕ → Type 0
IsCcs rec = IsRecord rec × (content_type rec ≡ ct_change_cipher_spec)

abbrev pub at_reader : Progress → List ℕ → List (List ℕ) → Progress
at_reader run buf cs = record run { reader = record { buf = buf; left = arrivals cs } }

module _ (p : Primitives) (c_keys : TrafficKeys) (expected_cf : List ℕ) where
  watch-judge :
      (fuel : ℕ) (ccs : List (List ℕ)) (rec tail buf : List ℕ) (cs : List (List ℕ)) (run : Progress)
      → length ccs < fuel
      → All IsCcs ccs
      → IsRecord rec
      → content_type rec ≢ ct_change_cipher_spec
      → All IsChunk cs
      → buf ++ concatenated cs ≡ concatenated ccs ++ (rec ++ tail)
      → (buf' : List ℕ) × (cs' : List (List ℕ)) × (watch p c_keys expected_cf fuel
            (at_reader run buf cs)
          ≡ judge p c_keys expected_cf rec (at_reader run buf' cs'))
        × (buf' ++ concatenated cs' ≡ tail)
  unfolding watch concatenated
  watch-judge zero ccs rec tail buf cs run f k v o a h = absurd (omega arith)
  watch-judge (suc fuel) [] rec tail buf cs run f k v o a h =
      let (buf', cs', got, rest, _) = receive-cut rec tail buf cs v a h in
      let other : (content_type rec == ct_change_cipher_spec) ≡ false = ground arith in
      (buf', cs', rw (got, other) refl, rest)
  watch-judge (suc fuel) (c ∷ ccs) rec tail buf cs run f k v o a h =
      let more : List ℕ = concatenated ccs ++ (rec ++ tail) in
      let (buf1, cs1, got, rest, a1) =
        receive-cut c more buf cs k.0.0 a (h ∙ append_assoc c (concatenated ccs) (rec ++ tail)) in
      let same : (content_type c == ct_change_cipher_spec) ≡ true = ground (arith, k.0.1) in
      let (buf', cs', others, rest') =
        watch-judge fuel ccs rec tail buf1 cs1 run (omega arith) k.1 v o a1 rest in
      (buf', cs', rw (got, same) others, rest')

  length-ccs : (ccs : List (List ℕ)) → All IsCcs ccs → length ccs ≤ length (concatenated ccs)
  unfolding concatenated
  length-ccs [] k = omega arith
  length-ccs (c ∷ ccs) k =
      omega (arith, length-append c (concatenated ccs), length-ccs ccs k.1, k.0.0.0)

  length-arrivals : (cs : List (List ℕ)) → length (concatenated cs) ≤ arrivals_size (arrivals cs)
  unfolding concatenated arrivals_size
  length-arrivals [] = omega arith
  length-arrivals (c ∷ cs) = omega (arith, length-append c (concatenated cs), length-arrivals cs)

  abbrev accepted_by : Progress → Bool → Progress
  accepted_by run valid = record run {
    result = record run.result {
      client_accepted_finished = some true;
      client_reaction = some own_finished;
      client_finished_valid = some valid;
    };
  }

  judge-finished :
      (rec verify : List ℕ) (run : Progress)
      → content_type rec ≡ ct_application_data
      → length verify ≡ 32
      → decrypt p c_keys rec ≡ ok ((ct_handshake, handshake hs_finished verify), advanced c_keys)
      → (run' : Progress) × (judge p c_keys expected_cf rec run ≡ (ok true, run'))
        × (run'.result.client_accepted_finished ≡ some true)
        × (run'.result.client_finished_valid ≡ some (list_eq verify expected_cf))
  unfolding handshake
  judge-finished rec verify run typed l d =
      let whole : take 32 verify ≡ verify = take_all 32 verify (omega arith) in
      (accepted_by run (list_eq verify expected_cf), rw (typed, d, whole) refl, refl, refl)

  -- A client that sends a Finished, after any records that change the cipher and however its bytes are cut,
  -- is found to have accepted the server's flight, and its Finished to be valid exactly if its verify_data is
  -- the expected one.
  pub watch_client-finished :
      (ccs : List (List ℕ)) (verify rec tail buf : List ℕ) (cs : List (List ℕ)) (run : Progress)
      → c_keys.seq < 256 ^ 12
      → length verify ≡ 32
      → All IsCcs ccs
      → All IsChunk cs
      → encrypt p c_keys (handshake hs_finished verify ++ (ct_handshake ∷ []))
        ≡ ok (rec, advanced c_keys)
      → buf ++ concatenated cs ≡ concatenated ccs ++ (rec ++ tail)
      → (run' : Progress) × (watch_client p c_keys expected_cf (at_reader run buf cs)
          ≡ (ok true, run'))
        × (run'.result.client_accepted_finished ≡ some true)
        × (run'.result.client_finished_valid ≡ some (list_eq verify expected_cf))
  unfolding watch_client handshake
  watch_client-finished ccs verify rec tail buf cs run s l k a e h =
      let msg : List ℕ = handshake hs_finished verify in
      let size = length-append msg (ct_handshake ∷ []) in
      let (rec', sealed, opens, long, framed, typed) =
        decrypt-encrypt p c_keys msg ct_handshake 0 s (λ q. absurd (omega arith)) (omega arith) in
      let same : rec' ≡ rec = ap (λ q. q.0) (ok-injective _ _ (sym sealed ∙ e)) in
      let opens' = rw same at opens in
      let v : IsRecord rec = (rw same at long, rw same at framed) in
      let typed' : content_type rec ≡ ct_application_data = rw same at typed in
      let other : content_type rec ≢ ct_change_cipher_spec = λ q. absurd (omega arith) in
      let fuel : length ccs < suc (length buf + arrivals_size (arrivals cs)) =
        let n1 = ap length h in
        let n2 = length-append buf (concatenated cs) in
        let n3 = length-append (concatenated ccs) (rec ++ tail) in
        omega (arith, length-ccs ccs k, length-arrivals cs) in
      let (buf', cs', watches, _) =
        watch-judge (suc (length buf + arrivals_size (arrivals cs))) ccs rec tail buf cs run fuel k
          v other a h in
      let (run', judged, accepted, valid) =
        judge-finished rec verify (at_reader run buf' cs') typed' l opens' in
      (run', watches ∙ judged, accepted, valid)
