-- ===== src/EvilListener/Serve/Whole.antt =====
-- tools/https_e2e/evil_listener.py: a whole run of `serve_one`, for a client that begins with a ClientHello.
use c64_https.Common.{
  ℕ, ◌<◌, Bool, true, some, List, [], ◌∷◌, ◌++◌, length, All, replicate, Result, ok, ◌≡◌, is_nil,
  refl, sym, ap, ◌∙◌, arith,
}
use mathlib.Core.Path.{subst}
use c64_https.EvilListener.{ct_handshake, plaintext_record}
use c64_https.EvilListener.Primitives.{Primitives}
use c64_https.EvilListener.Schedule.{hkdf_extract}
use c64_https.EvilListener.Schedule.Derived.{
  handshake_secret_of, c_hs_of, s_hs_of, s_ap_of, verify_data_of, hkdf_extract-extracted,
  derive_secret-expanded_label,
}
use c64_https.EvilListener.Framing.{concatenated}
use c64_https.EvilListener.Keys.{TrafficKeys, new_keys}
use c64_https.EvilListener.Keys.Sealed.{new_keys-ok}
use c64_https.EvilListener.Reader.Cut.{IsChunk, receive-cut}
use c64_https.EvilListener.ClientHello.Parsed.{
  Offer, offer_bytes, IsOffer, parse_client_hello-offer_bytes,
}
use c64_https.EvilListener.Messages.{Server, server_hello}
use c64_https.EvilListener.Flight.Opened.{contents}
use c64_https.EvilListener.Flight.Whole.{flight_content, send_flight_lem}
use c64_https.EvilListener.Client.Watched.{at_reader}
use c64_https.EvilListener.Serving.{Progress}
use c64_https.EvilListener.Serve.{
  conclude, greet, handshake_secrets, serve_one, derived_label, c_hs_label, s_hs_label,
}
use c64_https.EvilListener.Serve.Composed.{secrets_of, Reacts, conclude_lem}
use c64_https.EvilListener.Client.{watch_client}
use c64_https.EvilListener.Serve.Hello.{taken, IsServer, server_hello-ok, plaintext_record-IsRecord}

abbrev greeted : Progress → List ℕ → List (List ℕ) → Progress
greeted run buf cs = record (at_reader run buf cs) {
  result = record run.result { client_hello_seen = true };
}

module _ (p : Primitives) (s : Server) (o : Offer) (h : IsServer s) (v : IsOffer o)
    (short : length o.session < 256) where
  greet_lem :
      (rec rest buf : List ℕ) (cs : List (List ℕ)) (run : Progress)
      → plaintext_record ct_handshake (offer_bytes o) ≡ ok rec
      → All IsChunk cs
      → buf ++ concatenated cs ≡ rec ++ rest
      → (buf' : List ℕ) × (cs' : List (List ℕ)) × (greet p (at_reader run buf cs)
          ≡ (ok (offer_bytes o, taken o), greeted run buf' cs'))
        × (buf' ++ concatenated cs' ≡ rest)
        × All IsChunk cs'
  unfolding greet
  greet_lem rec rest buf cs run made a at =
      let (framed, bytes) = plaintext_record-IsRecord (offer_bytes o) rec made in
      let (buf', cs', got, left, chunks) = receive-cut rec rest buf cs framed a at in
      (buf', cs', rw (got, bytes, parse_client_hello-offer_bytes o v) refl, left, chunks)

  handshake_secrets_lem :
      (shared transcript : List ℕ) (run : Progress)
      → handshake_secrets p shared transcript run ≡ (ok (secrets_of p shared transcript), run)
  unfolding handshake_secrets hkdf_extract is_nil
  handshake_secrets_lem shared transcript run =
      let early : List ℕ = p.hmac (replicate 32 0) (replicate 32 0) in
      let secret : List ℕ = handshake_secret_of p shared in
      let derived = derive_secret-expanded_label p early derived_label [] (omega arith) in
      let extracts = hkdf_extract-extracted p early shared in
      let c_hs = derive_secret-expanded_label p secret c_hs_label transcript (omega arith) in
      let s_hs = derive_secret-expanded_label p secret s_hs_label transcript (omega arith) in
      rw (derived, extracts, c_hs, s_hs) refl

  -- The transcript up to the ServerHello.
  abbrev heard : List ℕ → List ℕ
  heard sh = offer_bytes o ++ sh

  -- The ServerHello, its record, and the records of a flight under the server's handshake secret.
  abbrev pub Greets : List ℕ → List ℕ → List ℕ → List ℕ → List (List ℕ) → Type 0
  Greets shared sh sh_rec content recs =
      (keys : TrafficKeys) × (last : TrafficKeys) × (server_hello s (taken o) ≡ ok sh)
      × (plaintext_record ct_handshake sh ≡ ok sh_rec)
      × (new_keys p (s_hs_of p shared (heard sh)) ≡ ok keys)
      × (flight_content p s (s_hs_of p shared (heard sh)) (heard sh) ≡ ok content)
      × (contents p keys recs ≡ ok (content, last))

  -- The verdict is the one of the loop on what the client sent behind its ClientHello, under the client's
  -- handshake secret.
  abbrev pub Watches : List ℕ → List ℕ → List ℕ → List ℕ → Bool → Type 0
  Watches shared rest sh content accepted =
      (keys : TrafficKeys) × (buf : List ℕ) × (cs : List (List ℕ)) × (from : Progress)
      × (to : Progress) × (new_keys p (c_hs_of p shared (heard sh)) ≡ ok keys)
      × (buf ++ concatenated cs ≡ rest)
      × All IsChunk cs
      × (watch_client p keys (verify_data_of p (c_hs_of p shared (heard sh)) (heard sh ++ content))
            (at_reader from buf cs)
          ≡ (ok accepted, to))

  -- What a run is like whose client begins with the offer: what it is sent, the verdict on it, and what comes
  -- after the verdict.
  abbrev pub Served : List ℕ → List ℕ → Progress → Result (Unit {0}) × Progress → Type 0
  Served shared rest run ends =
      (sh : List ℕ) × (sh_rec : List ℕ) × (content : List ℕ) × (recs : List (List ℕ))
      × (accepted : Bool) × Greets shared sh sh_rec content recs
      × Watches shared rest sh content accepted
      × (ends.1.result.client_accepted_finished ≡ some accepted)
      × Reacts p s (s_ap_of p shared (heard sh ++ content)) accepted
          ((run.sent ++ (sh_rec ∷ [])) ++ recs) ends

  -- A client whose stream begins with a record that holds a well-formed ClientHello, however it is cut, gets
  -- the ServerHello and, under every framing, the whole flight of the mode, sealed under the server's handshake
  -- secret of RFC 8446. The server leaves the verdict of its loop on what the client sends then, with the
  -- verify_data of the whole transcript. A client that is not found to have accepted gets nothing more; one
  -- that is gets one record more, the response under the server's application secret, or nothing where the
  -- server raises an exception. The session id has up to 255 bytes, the server's share and random 32 each and
  -- its certificate up to 60,000, and the key exchange succeeds.
  pub serve_one-Served :
      (rec rest buf shared : List ℕ) (cs : List (List ℕ)) (run : Progress)
      → plaintext_record ct_handshake (offer_bytes o) ≡ ok rec
      → All IsChunk cs
      → buf ++ concatenated cs ≡ rec ++ rest
      → p.exchange o.shares.share ≡ ok shared
      → Served shared rest run (serve_one p s (at_reader run buf cs))
  unfolding serve_one
  serve_one-Served rec rest buf shared cs run made a at x =
      let (buf', cs', greets, left, chunks) = greet_lem rec rest buf cs run made a at in
      let (sh, sh_rec, hello, framed) = server_hello-ok s (taken o) h short in
      let run1 : Progress = greeted run buf' cs' in
      let run2 : Progress = record run1 { sent = run1.sent ++ (sh_rec ∷ []) } in
      let derived = handshake_secrets_lem shared (heard sh) run2 in
      let (c_keys, c_made, _, _) = new_keys-ok p (c_hs_of p shared (heard sh)) in
      let (
        keys, content, said, run3, recs, last, s_made, expected, flown, sent, opens, all, unread,
      ) =
        send_flight_lem p s (s_hs_of p shared (heard sh)) (heard sh) run2 (h.2) in
      let (accepted, to, watched, verdict, reacts) =
        conclude_lem p s shared (heard sh) (heard sh ++ content) c_keys said run3 all in
      let same : serve_one p s (at_reader run buf cs)
          ≡ conclude p s (secrets_of p shared (heard sh)) c_keys said run3 =
        rw (greets, x, hello, framed, derived, c_made, flown) refl in
      let watches : Watches shared rest sh content accepted = (
        c_keys,
        buf',
        cs',
        run3,
        to,
        c_made,
        left,
        chunks,
        ap
              (watch_client p c_keys
                (verify_data_of p (c_hs_of p shared (heard sh)) (heard sh ++ content)))
              (ap (λ r. record run3 { reader = r }) (sym unread))
            ∙ watched,
      ) in
      (
        sh,
        sh_rec,
        content,
        recs,
        accepted,
        (keys, last, hello, framed, s_made, expected, opens),
        watches,
        ap (λ e. e.1.result.client_accepted_finished) same ∙ verdict,
        rw same (
            subst
              (λ t.
                Reacts p s (s_ap_of p shared (heard sh ++ content)) accepted t
                  (conclude p s (secrets_of p shared (heard sh)) c_keys said run3))
              sent reacts),
      )
