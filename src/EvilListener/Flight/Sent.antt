-- ===== src/EvilListener/Flight/Sent.antt =====
-- tools/https_e2e/evil_listener.py: the records of a flight carry its messages, under every framing.
use c64_https.Common.{
  ℕ, suc, ◌+◌, ◌^◌, ◌<◌, ◌≤◌, some, List, [], ◌∷◌, ◌++◌, length, length-append, All, ok, ◌≡◌, ◌≢◌,
  refl, sym, ap, ◌∙◌, arith,
}
use mathlib.Core.Path.{subst}
use mathlib.Core.List.{append_assoc, append-nil}
use c64_https.EvilListener.{RecordFrame, onepermsg, mfl512, pathological}
use c64_https.EvilListener.Primitives.{Primitives}
use c64_https.EvilListener.Framing.{frame_handshake_stream, concatenated}
use c64_https.EvilListener.Framing.Fragments.{frame_handshake_stream-fits}
use c64_https.EvilListener.Keys.{TrafficKeys, advanced}
use c64_https.EvilListener.Serving.{Progress}
use c64_https.EvilListener.Flight.{Flight, emit, send_fragments, send_stream}
use c64_https.EvilListener.Flight.Opened.{KeptBack, Carried, send_handshake_lem, contents}

module _ (p : Primitives) (first : TrafficKeys) (before : List (List ℕ)) where
  abbrev pub CarriedAt : RecordFrame → List ℕ → Flight → List (List ℕ) → ℕ → Type 0
  CarriedAt frame content flight sent n =
      Carried p first before frame content flight.keys flight.hs_stream sent n

  later :
      (frame : RecordFrame) (content msg : List ℕ) (keys : TrafficKeys) (stream : List ℕ)
      (sent : List (List ℕ)) (n : ℕ)
      → KeptBack frame (stream ++ msg)
      → Carried p first before frame content keys stream sent n
      → Carried p first before frame (content ++ msg) keys (stream ++ msg) sent (suc n)
  later frame content msg keys stream sent n k c =
      let few = c.few in
      record {
        recs = c.recs;
        sent_recs = c.sent_recs;
        read = c.read;
        opened_recs = c.opened_recs;
        whole = sym (append_assoc c.read stream msg) ∙ ap (λ t. t ++ msg) c.whole;
        kept = k;
        few = omega arith;
      }

  -- A message that fits a record is carried by one, or kept back.
  pub emit_lem :
      (frame : RecordFrame) (content msg : List ℕ) (flight : Flight) (run : Progress) (n : ℕ)
      → CarriedAt frame content flight run.sent n
      → length msg + 17 < 65536
      → n < 256 ^ 12
      → (next : Flight) × (sent : List (List ℕ)) × (emit p frame flight msg run
          ≡ (ok next, record run { sent = sent }))
        × CarriedAt frame (content ++ msg) next sent (suc n)
  unfolding emit
  emit_lem onepermsg content msg flight run n c l h =
      let none_kept : flight.hs_stream ≡ [] = c.kept in
      let c' =
        subst (λ t. Carried p first before onepermsg content flight.keys t run.sent n) none_kept
          c in
      let one = send_handshake_lem p first before onepermsg content msg flight.keys run n c' l h in
      (
        record flight { keys = advanced flight.keys },
        one.0,
        rw one.1 refl,
        subst
            (λ t.
              Carried p first before onepermsg (content ++ msg) (advanced flight.keys) t one.0
                (suc n))
            (sym none_kept) one.2,
      )
  emit_lem mfl512 content msg flight run n c l h = (
    record flight { hs_stream = flight.hs_stream ++ msg },
    run.sent,
    refl,
    later mfl512 content msg flight.keys flight.hs_stream run.sent n tt c,
  )
  emit_lem pathological content msg flight run n c l h = (
    record flight { hs_stream = flight.hs_stream ++ msg },
    run.sent,
    refl,
    later pathological content msg flight.keys flight.hs_stream run.sent n tt c,
  )

  send_fragments_lem :
      (frame : RecordFrame) (fs : List (List ℕ)) (content : List ℕ) (keys : TrafficKeys)
      (run : Progress) (n : ℕ)
      → Carried p first before frame content keys [] run.sent n
      → All (λ f. length f ≤ 512) fs
      → n + length fs < 256 ^ 12
      → (last : TrafficKeys) × (sent : List (List ℕ)) × (send_fragments p keys fs run
          ≡ (ok last, record run { sent = sent }))
        × Carried p first before frame (content ++ concatenated fs) last [] sent (n + length fs)
  unfolding send_fragments concatenated
  send_fragments_lem frame [] content keys run n c a h =
      let zero_more : n + 0 ≡ n = omega arith in
      (keys, run.sent, refl, rw (append-nil content, zero_more) c)
  send_fragments_lem frame (f ∷ fs) content keys run n c a h =
      let fits : (length f + 17 < 65536) × (n < 256 ^ 12) = (omega (arith, a.0), omega arith) in
      let one = send_handshake_lem p first before frame content f keys run n c fits.0 fits.1 in
      let others =
        send_fragments_lem frame fs (content ++ f) (advanced keys) (record run { sent = one.0 })
          (suc n) one.2 a.1 (omega arith) in
      let count : n + suc (length fs) ≡ suc n + length fs = omega arith in
      (
        others.0,
        others.1,
        rw one.1 others.2,
        rw (count, ← append_assoc content f (concatenated fs)) others.3,
      )

  framed_lem :
      (frame : RecordFrame) (content : List ℕ) (flight : Flight) (run : Progress) (n : ℕ)
      → frame ≢ onepermsg
      → CarriedAt frame content flight run.sent n
      → KeptBack frame []
      → n + suc (length content) < 256 ^ 12
      → (fragments : List (List ℕ)) × (last : TrafficKeys) × (sent : List (List ℕ))
        × (frame_handshake_stream flight.hs_stream frame ≡ ok fragments)
        × (send_fragments p flight.keys fragments run ≡ (ok last, record run { sent = sent }))
        × Carried p first before frame content last [] sent (n + length fragments)
  framed_lem frame content flight run n h c k b =
      let (fs, cut, all, fits, few) = frame_handshake_stream-fits frame flight.hs_stream h in
      let whole = ap length c.whole in
      let size = length-append c.read flight.hs_stream in
      let start : Carried p first before frame c.read flight.keys [] run.sent n = record {
        recs = c.recs;
        sent_recs = c.sent_recs;
        read = c.read;
        opened_recs = c.opened_recs;
        whole = append-nil c.read;
        kept = k;
        few = c.few;
      } in
      let sends = send_fragments_lem frame fs c.read flight.keys run n start fits (omega arith) in
      (
        fs,
        sends.0,
        sends.1,
        cut,
        sends.2,
        subst (λ t. Carried p first before frame t sends.0 [] sends.1 (n + length fs))
            (ap (λ t. c.read ++ t) all ∙ c.whole) sends.3,
      )

  abbrev counted : Progress → List (List ℕ) → ℕ → Progress
  counted run sent n = record run {
    sent = sent;
    result = record run.result { record_count = some n };
  }

  -- After the framing, the records open to the whole content.
  pub send_stream_lem :
      (frame : RecordFrame) (content : List ℕ) (flight : Flight) (run : Progress) (n : ℕ)
      → CarriedAt frame content flight run.sent n
      → n + suc (length content) < 256 ^ 12
      → (last : TrafficKeys) × (run' : Progress) × (recs : List (List ℕ)) × (send_stream p flight
            frame run
          ≡ (ok last, run'))
        × (run'.sent ≡ before ++ recs)
        × (contents p first recs ≡ ok (content, last))
        × (run'.reader ≡ run.reader)
  unfolding send_stream
  send_stream_lem onepermsg content flight run n c b =
      let none_kept : flight.hs_stream ≡ [] = c.kept in
      let all : c.read ≡ content =
        sym (append-nil c.read) ∙ ap (λ t. c.read ++ t) (sym none_kept) ∙ c.whole in
      (
        flight.keys,
        run,
        c.recs,
        refl,
        c.sent_recs,
        c.opened_recs ∙ ap (λ t. ok (t, flight.keys)) all,
        refl,
      )
  send_stream_lem mfl512 content flight run n c b =
      let (fs, last, sent, cut, sends, d) =
        framed_lem mfl512 content flight run n (λ e. cc) c tt b in
      (
        last,
        counted run sent (length fs),
        d.recs,
        rw (cut, sends) refl,
        d.sent_recs,
        d.opened_recs ∙ ap (λ t. ok (t, last)) (sym (append-nil d.read) ∙ d.whole),
        refl,
      )
  send_stream_lem pathological content flight run n c b =
      let (fs, last, sent, cut, sends, d) =
        framed_lem pathological content flight run n (λ e. cc) c tt b in
      (
        last,
        counted run sent (length fs),
        d.recs,
        rw (cut, sends) refl,
        d.sent_recs,
        d.opened_recs ∙ ap (λ t. ok (t, last)) (sym (append-nil d.read) ∙ d.whole),
        refl,
      )
