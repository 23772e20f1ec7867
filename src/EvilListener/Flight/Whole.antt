-- ===== src/EvilListener/Flight/Whole.antt =====
-- tools/https_e2e/evil_listener.py: the content of the whole flight, under every mode and every framing.
use c64_https.Common.{
  ℕ, zero, suc, ◌+◌, ◌^◌, ◌<◌, ◌≤◌, true, false, some, List, [], ◌++◌, length, length-append,
  Result, ok, ◌>>=◌, ◌≡◌, ◌≢◌, refl, sym, ap, ◌∙◌, ◌⊎◌, inl, inr, arith,
}
use mathlib.Core.List.{append_assoc, append-nil}
use c64_https.EvilListener.{
  Mode, good, bad_finished, omit_cert, handshake, RecordFrame, onepermsg, mfl512, pathological,
}
use c64_https.EvilListener.Primitives.{Primitives}
use c64_https.EvilListener.Keys.{TrafficKeys, new_keys}
use c64_https.EvilListener.Keys.Sealed.{new_keys-ok}
use c64_https.EvilListener.Messages.{
  Server, encrypted_extensions, certificate, certificate_verify, finished,
}
use c64_https.EvilListener.Messages.Sizes.{length-certificate, certificate_verify-ok, finished-ok}
use c64_https.EvilListener.Serving.{Progress}
use c64_https.EvilListener.Flight.{
  Flight, Said, emit_extensions, emit_all, emit_messages, send_flight,
}
use c64_https.EvilListener.Flight.Opened.{KeptBack, contents}
use c64_https.EvilListener.Flight.Sent.{CarriedAt, emit_lem, send_stream_lem}

abbrev ee : List ℕ
ee = encrypted_extensions

-- The messages of a handshake with a certificate, one after the other.
unfoldable pub all_content : Primitives → Server → List ℕ → List ℕ → Result (List ℕ)
all_content p s s_hs transcript = do
  let t1 = (transcript ++ ee) ++ certificate s
  cv ← certificate_verify p (p.sha256 t1)
  fin ← finished p s.mode s_hs (p.sha256 (t1 ++ cv))
  ok (((ee ++ certificate s) ++ cv) ++ fin.0)

-- The messages that a mode sends: they do not depend on the framing.
unfoldable pub flight_content : Primitives → Server → List ℕ → List ℕ → Result (List ℕ)
flight_content p s s_hs transcript = elim s.mode [
  | omit_cert ↦ ok (ee ++ (ee ++ (ee ++ ee)))
  | _ ↦ all_content p s s_hs transcript
]

append_four : (t a b c d : List ℕ) → (((t ++ a) ++ b) ++ c) ++ d ≡ t ++ (((a ++ b) ++ c) ++ d)
append_four t a b c d =
    ap (λ x. x ++ d) (ap (λ x. x ++ c) (append_assoc t a b) ∙ append_assoc t (a ++ b) c)
    ∙ append_assoc t ((a ++ b) ++ c) d

mode_differs : good ≢ omit_cert
mode_differs e = cc

bad_differs : bad_finished ≢ omit_cert
bad_differs e = cc

Mode-cases : (m : Mode) → (m ≡ good) ⊎ ((m ≡ bad_finished) ⊎ (m ≡ omit_cert))
Mode-cases good = inl refl
Mode-cases bad_finished = inr (inl refl)
Mode-cases omit_cert = inr (inr refl)

module _ (p : Primitives) (s : Server) (small : length s.cert_der ≤ 60000) (first : TrafficKeys)
    (before : List (List ℕ)) where
  abbrev At : List ℕ → Flight → List (List ℕ) → ℕ → Type 0
  At content flight sent n = CarriedAt p first before s.record_frame content flight sent n

  abbrev extended : ℕ → List ℕ → List ℕ
  extended zero content = content
  extended (suc k) content = extended k (content ++ ee)

  -- What was said, of a transcript before, and that nothing was read meanwhile.
  abbrev Says : List ℕ → List ℕ → Said → Progress → Progress → Type 0
  Says before content said run run' =
      (said.transcript ++ said.fin ≡ before ++ content) × (run'.reader ≡ run.reader)

  emit_extensions_lem :
      (k : ℕ) (flight : Flight) (start transcript content : List ℕ) (run : Progress) (n : ℕ)
      → transcript ≡ start ++ content
      → At content flight run.sent n
      → n + k < 256 ^ 12
      → (said : Said) × (run' : Progress) × (emit_extensions p k s.record_frame flight transcript
            run
          ≡ (ok said, run'))
        × At (extended k content) said.flight run'.sent (n + k)
        × Says start (extended k content) said run run'
  unfolding emit_extensions handshake
  emit_extensions_lem zero flight start transcript content run n t c h =
      let same : n + 0 ≡ n = omega arith in
      (
        record { flight = flight; transcript = transcript; fin = [] },
        run,
        refl,
        rw same c,
        (append-nil transcript ∙ t, refl),
      )
  emit_extensions_lem (suc k) flight start transcript content run n t c h =
      let (next, sent, emits, c') =
        emit_lem p first before s.record_frame content ee flight run n c (omega arith)
          (omega arith) in
      let longer : transcript ++ ee ≡ start ++ (content ++ ee) =
        ap (λ t. t ++ ee) t ∙ append_assoc start content ee in
      let (said, run', others, c'', says) =
        emit_extensions_lem k next start (transcript ++ ee) (content ++ ee)
          (record run { sent = sent }) (suc n) longer c' (omega arith) in
      let count : n + suc k ≡ suc n + k = omega arith in
      (said, run', rw emits others, rw count c'', says)

  emit_all_lem :
      (s_hs transcript : List ℕ) (run : Progress)
      → s.mode ≢ omit_cert
      → At [] (record { keys = first; hs_stream = [] }) run.sent 0
      → (content : List ℕ) × (said : Said) × (run' : Progress) × (all_content p s s_hs transcript
          ≡ ok content)
        × (emit_all p s s_hs (record { keys = first; hs_stream = [] }) transcript run
            ≡ (ok said, run'))
        × At content said.flight run'.sent 4
        × (length content ≤ 60200)
        × Says transcript content said run run'
  unfolding emit_all all_content handshake
  emit_all_lem s_hs transcript run h c0 =
      let cert : List ℕ = certificate s in
      let n = length-certificate s in
      let (f0, sent0, e0, c1) =
        emit_lem p first before s.record_frame [] ee (record { keys = first; hs_stream = [] }) run 0
          c0 (omega arith) (omega arith) in
      let (f1, sent1, e1, c2) =
        emit_lem p first before s.record_frame ee cert f0 (record run { sent = sent0 }) 1 c1
          (omega arith) (omega arith) in
      let t1 : List ℕ = (transcript ++ ee) ++ cert in
      let (cv, signed, cv_short) = certificate_verify-ok p (p.sha256 t1) in
      let (f2, sent2, e2, c3) =
        emit_lem p first before s.record_frame (ee ++ cert) cv f1 (record run { sent = sent1 }) 2 c2
          (omega arith) (omega arith) in
      let (fin, done, fin_short) = finished-ok p s.mode s_hs (p.sha256 (t1 ++ cv)) h in
      let (f3, sent3, e3, c4) =
        emit_lem p first before s.record_frame ((ee ++ cert) ++ cv) fin.0 f2
          (record run { sent = sent2 }) 3 c3 (omega arith) (omega arith) in
      let l1 = length-append ee cert in
      let l2 = length-append (ee ++ cert) cv in
      let l3 = length-append ((ee ++ cert) ++ cv) fin.0 in
      let sized : length (((ee ++ cert) ++ cv) ++ fin.0) ≤ 60200 = omega arith in
      let content : List ℕ = ((ee ++ cert) ++ cv) ++ fin.0 in
      (
        content,
        record { flight = f3; transcript = t1 ++ cv; fin = fin.0 },
        record run { sent = sent3; result = record run.result { finished_corrupted = fin.1 } },
        rw (signed, done) refl,
        rw (e0, e1, signed, e2, done, e3) refl,
        c4,
        sized,
        (append_four transcript ee cert cv fin.0, refl),
      )

  abbrev new_flight : Flight
  new_flight = record { keys = first; hs_stream = [] }

  abbrev omitted : Progress → Progress
  omitted run = record run {
    result = record run.result { ee_messages_sent = some 4; certificate_sent = false };
  }

  emit_messages-omit_cert :
      (s_hs transcript : List ℕ) (run run' : Progress) (said : Said)
      → s.mode ≡ omit_cert
      → emit_extensions p 4 s.record_frame new_flight transcript run ≡ (ok said, run')
      → emit_messages p s s_hs new_flight transcript run ≡ (ok said, omitted run')
  unfolding emit_messages
  emit_messages-omit_cert s_hs transcript run run' said e emits = rw (emit_messages, e, emits) refl

  -- Emission, for every mode.
  emit_messages_lem :
      (s_hs transcript : List ℕ) (run : Progress)
      → At [] new_flight run.sent 0
      → (content : List ℕ) × (said : Said) × (run' : Progress) × (flight_content p s s_hs transcript
          ≡ ok content)
        × (emit_messages p s s_hs new_flight transcript run ≡ (ok said, run'))
        × At content said.flight run'.sent 4
        × (length content ≤ 60200)
        × Says transcript content said run run'
  unfolding emit_messages flight_content handshake
  emit_messages_lem s_hs transcript run c0 = elim (Mode-cases s.mode) [
    | inl e ↦
        let (content, said, run', expected, emits, c, sized, says) =
          emit_all_lem s_hs transcript run (λ o. mode_differs (sym e ∙ o)) c0 in
        (
          content,
          said,
          run',
          rw (flight_content, e) expected,
          rw (emit_messages, e) emits,
          c,
          sized,
          says,
        )
    | inr (inl e) ↦
        let (content, said, run', expected, emits, c, sized, says) =
          emit_all_lem s_hs transcript run (λ o. bad_differs (sym e ∙ o)) c0 in
        (
          content,
          said,
          run',
          rw (flight_content, e) expected,
          rw (emit_messages, e) emits,
          c,
          sized,
          says,
        )
    | inr (inr e) ↦
        let (said, run', emits, c, says) =
          emit_extensions_lem 4 new_flight transcript transcript [] run 0
            (sym (append-nil transcript)) c0 (omega arith) in
        (
          extended 4 [],
          said,
          omitted run',
          rw (flight_content, e) refl,
          emit_messages-omit_cert s_hs transcript run run' said e emits,
          c,
          omega arith,
          says,
        )
  ]

nothing_kept : (frame : RecordFrame) → KeptBack frame []
nothing_kept onepermsg = refl
nothing_kept mfl512 = tt
nothing_kept pathological = tt

-- The flight, with what it adds to the transcript; nothing is read meanwhile.
pub send_flight_lem :
    (p : Primitives) (s : Server) (s_hs transcript : List ℕ) (run : Progress)
    → length s.cert_der ≤ 60000
    → (keys : TrafficKeys) × (content : List ℕ) × (said : Said) × (run' : Progress) × (recs : List
        (List ℕ))
      × (last : TrafficKeys) × (new_keys p s_hs ≡ ok keys)
      × (flight_content p s s_hs transcript ≡ ok content)
      × (send_flight p s s_hs transcript run ≡ (ok said, run'))
      × (run'.sent ≡ run.sent ++ recs)
      × (contents p keys recs ≡ ok (content, last))
      × (said.transcript ++ said.fin ≡ transcript ++ content)
      × (run'.reader ≡ run.reader)
unfolding send_flight contents
send_flight_lem p s s_hs transcript run small =
    let (keys, made, zero_seq, _) = new_keys-ok p s_hs in
    let start : CarriedAt p keys run.sent s.record_frame [] (record { keys = keys; hs_stream = [] })
        run.sent 0 =
      record {
        recs = [];
        sent_recs = sym (append-nil run.sent);
        read = [];
        opened_recs = refl;
        whole = refl;
        kept = nothing_kept s.record_frame;
        few = omega arith;
      } in
    let (content, said, run1, expected, emits, c, sized, says) =
      emit_messages_lem p s small keys run.sent s_hs transcript run start in
    let (last, run2, recs, framed, sent, opens, unread) =
      send_stream_lem p keys run.sent s.record_frame content said.flight run1 4 c (omega arith) in
    (
      keys,
      content,
      said,
      record run2 { result = record run2.result { server_flight_sent = true } },
      recs,
      last,
      made,
      expected,
      rw (made, emits, framed) refl,
      sent,
      opens,
      says.0,
      unread ∙ says.1,
    )

-- Under every mode and every framing the flight is sent, and its records open, under the handshake keys
-- of the server, to the messages of the mode one after the other. The certificate has up to 60,000 bytes.
pub send_flight-flight_content :
    (p : Primitives) (s : Server) (s_hs transcript : List ℕ) (run : Progress)
    → length s.cert_der ≤ 60000
    → (keys : TrafficKeys) × (content : List ℕ) × (said : Said) × (run' : Progress) × (recs : List
        (List ℕ))
      × (last : TrafficKeys) × (new_keys p s_hs ≡ ok keys)
      × (flight_content p s s_hs transcript ≡ ok content)
      × (send_flight p s s_hs transcript run ≡ (ok said, run'))
      × (run'.sent ≡ run.sent ++ recs)
      × (contents p keys recs ≡ ok (content, last))
send_flight-flight_content p s s_hs transcript run small =
    let (keys, content, said, run', recs, last, made, expected, flown, sent, opens, _, _) =
      send_flight_lem p s s_hs transcript run small in
    (keys, content, said, run', recs, last, made, expected, flown, sent, opens)
