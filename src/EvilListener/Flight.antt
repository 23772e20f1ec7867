-- ===== src/EvilListener/Flight.antt =====
-- tools/https_e2e/evil_listener.py: the server's flight in `serve_one`, from the ClientHello to the last
-- record of the handshake, under each mode and each framing.
pub mod Opened
pub mod Sent
pub mod Whole
use c64_https.Common.{
  ℕ, zero, suc, Bool, true, false, not, Option, none, some, List, [], ◌∷◌, ◌++◌, length, drop,
  replicate, ◌==◌, if◌then◌else◌, Result, ok, raised, fixture_error, closed_early, not_handshake,
}
use c64_https.Common.Bytes.{index}
use c64_https.EvilListener.{
  Mode, good, bad_finished, omit_cert, omit_cert_ee_count, RecordFrame, onepermsg, mfl512,
  pathological, ct_handshake, hash_len, plaintext_record,
}
use c64_https.EvilListener.Primitives.{Primitives}
use c64_https.EvilListener.Schedule.{hkdf_extract, derive_secret}
use c64_https.EvilListener.Framing.{frame_handshake_stream}
use c64_https.EvilListener.Keys.{TrafficKeys, new_keys, encrypt}
use c64_https.EvilListener.ClientHello.{ClientHello, parse_client_hello}
use c64_https.EvilListener.Messages.{
  Server, server_hello, encrypted_extensions, certificate, certificate_verify, finished,
}
use c64_https.EvilListener.Serving.{
  ServeResult, Serving, ◌>>=◌, ◌>>◌, pure, call, sendall, note, read_one,
}

-- The server's keys, and the content stream that is kept back for its framing.
pub record Flight : Type 0 where
  pub keys : TrafficKeys
  pub hs_stream : List ℕ

-- What the messages leave: the flight, the transcript, and the Finished, where one is sent.
pub record Said : Type 0 where
  pub flight : Flight
  pub transcript : List ℕ
  pub fin : List ℕ

module _ (p : Primitives) where
  -- sock.sendall(s_keys.encrypt(payload + bytes([CT_HANDSHAKE])))
  unfoldable pub send_handshake : TrafficKeys → List ℕ → Serving TrafficKeys
  send_handshake keys payload = do
    sealed ← call (encrypt p keys (payload ++ (ct_handshake ∷ [])))
    sendall sealed.0
    pure sealed.1

  unfoldable pub emit : RecordFrame → Flight → List ℕ → Serving Flight
  emit onepermsg flight msg = do
    keys ← send_handshake flight.keys msg
    pure (record flight { keys = keys })
  emit mfl512 flight msg = pure (record flight { hs_stream = flight.hs_stream ++ msg })
  emit pathological flight msg = pure (record flight { hs_stream = flight.hs_stream ++ msg })

  -- `n` times the EncryptedExtensions
  unfoldable pub emit_extensions : ℕ → RecordFrame → Flight → List ℕ → Serving Said
  emit_extensions zero frame flight transcript =
      pure (record { flight = flight; transcript = transcript; fin = [] })
  emit_extensions (suc n) frame flight transcript = do
    next ← emit frame flight encrypted_extensions
    emit_extensions n frame next (transcript ++ encrypted_extensions)

  -- The whole flight: the extensions, the certificate, its proof, and the Finished.
  unfoldable pub emit_all : Server → List ℕ → Flight → List ℕ → Serving Said
  emit_all s s_hs flight transcript = do
    let t0 = transcript ++ encrypted_extensions
    f0 ← emit s.record_frame flight encrypted_extensions
    f1 ← emit s.record_frame f0 (certificate s)
    let t1 = t0 ++ certificate s
    cv ← call (certificate_verify p (p.sha256 t1))
    f2 ← emit s.record_frame f1 cv
    let t2 = t1 ++ cv
    fin ← call (finished p s.mode s_hs (p.sha256 t2))
    f3 ← emit s.record_frame f2 fin.0
    note λ r. record r { finished_corrupted = fin.1 }
    pure (record { flight = f3; transcript = t2; fin = fin.0 })

  unfoldable pub emit_messages : Server → List ℕ → Flight → List ℕ → Serving Said
  emit_messages s s_hs flight transcript = elim s.mode [
    | omit_cert ↦ do
      said ← emit_extensions omit_cert_ee_count s.record_frame flight transcript
      note λ r. record r { ee_messages_sent = some omit_cert_ee_count; certificate_sent = false }
      pure said
    | good ↦ emit_all s s_hs flight transcript
    | bad_finished ↦ emit_all s s_hs flight transcript
  ]

  unfoldable pub send_fragments : TrafficKeys → List (List ℕ) → Serving TrafficKeys
  send_fragments keys [] = pure keys
  send_fragments keys (frag ∷ frags) = do next ← send_handshake keys frag; send_fragments next frags

  -- The records of a framing that cuts the stream.
  unfoldable pub send_stream : Flight → RecordFrame → Serving TrafficKeys
  send_stream flight onepermsg = pure flight.keys
  send_stream flight mfl512 = do
    fragments ← call (frame_handshake_stream flight.hs_stream mfl512)
    keys ← send_fragments flight.keys fragments
    note λ r. record r { record_count = some (length fragments) }
    pure keys
  send_stream flight pathological = do
    fragments ← call (frame_handshake_stream flight.hs_stream pathological)
    keys ← send_fragments flight.keys fragments
    note λ r. record r { record_count = some (length fragments) }
    pure keys

  -- From the first emission to the last record, with the keys of the secret `s_hs`.
  unfoldable pub send_flight : Server → List ℕ → List ℕ → Serving Said
  send_flight s s_hs transcript = do
    s_keys ← call (new_keys p s_hs)
    said ← emit_messages s s_hs (record { keys = s_keys; hs_stream = [] }) transcript
    keys ← send_stream said.flight s.record_frame
    note λ r. record r { server_flight_sent = true }
    pure said
