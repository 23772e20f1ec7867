-- ===== src/EvilListener/Flight/Opened.antt =====
-- tools/https_e2e/evil_listener.py: what a client that has the server's keys reads of the records that
-- were sent.
use c64_https.Common.{
  ℕ, suc, ◌+◌, ◌^◌, ◌<◌, ◌≤◌, List, [], ◌∷◌, ◌++◌, length, length-append, ◌==◌, Result, ok, ◌>>=◌,
  ◌>>◌, guard, fixture_error, not_handshake, >>=-eq-ok, guard-eq-ok, ok-pair, ◌≡◌, refl, sym, ap,
  ◌∙◌, arith,
}
use mathlib.Core.List.{append_assoc, append-nil}
use c64_https.EvilListener.{RecordFrame, onepermsg, mfl512, pathological, ct_handshake}
use c64_https.EvilListener.Primitives.{Primitives}
use c64_https.EvilListener.Keys.{TrafficKeys, advanced, decrypt}
use c64_https.EvilListener.Keys.Sealed.{decrypt-encrypt}
use c64_https.EvilListener.Serving.{Progress}
use c64_https.EvilListener.Flight.{send_handshake}

-- Nothing is kept back where each message has its record.
abbrev pub KeptBack : RecordFrame → List ℕ → Type 0
KeptBack onepermsg stream = stream ≡ []
KeptBack mfl512 stream = Unit {0}
KeptBack pathological stream = Unit {0}

module _ (p : Primitives) where
  -- The contents of records of the handshake, one after the other, and the keys that are left.
  unfoldable pub contents : TrafficKeys → List (List ℕ) → Result (List ℕ × TrafficKeys)
  contents keys [] = ok ([], keys)
  contents keys (rec ∷ recs) = do
    got ← decrypt p keys rec
    guard (got.0.0 == ct_handshake) (fixture_error not_handshake)
    rest ← contents got.1 recs
    ok (got.0.1 ++ rest.0, rest.1)

  contents-cons :
      (keys next last : TrafficKeys) (rec m bs : List ℕ) (recs : List (List ℕ))
      → decrypt p keys rec ≡ ok ((ct_handshake, m), next)
      → contents next recs ≡ ok (bs, last)
      → contents keys (rec ∷ recs) ≡ ok (m ++ bs, last)
  unfolding contents
  contents-cons keys next last rec m bs recs d o = rw (contents, d, o) refl

  -- A record more at the end.
  pub contents-snoc :
      (keys next last : TrafficKeys) (recs : List (List ℕ)) (rec m bs : List ℕ)
      → contents keys recs ≡ ok (bs, next)
      → decrypt p next rec ≡ ok ((ct_handshake, m), last)
      → contents keys (recs ++ (rec ∷ [])) ≡ ok (bs ++ m, last)
  unfolding contents
  contents-snoc keys next last [] rec m bs o d =
      let (empty, same) = ok-pair [] bs keys next o in
      contents-cons keys last last rec m [] [] (ap (λ k. decrypt p k rec) same ∙ d) refl
      ∙ ap (λ t. ok (t, last)) (append-nil m ∙ ap (λ t. t ++ m) empty)
  contents-snoc keys next last (r ∷ recs) rec m bs o d =
      let (got, decrypted, o1) = >>=-eq-ok (decrypt p keys r) _ o in
      let (typed, o2) = guard-eq-ok (got.0.0 == ct_handshake) _ _ o1 in
      let (rest, others, o3) = >>=-eq-ok (contents got.1 recs) _ o2 in
      let (joined, same) = ok-pair (got.0.1 ++ rest.0) bs rest.1 next o3 in
      let more : contents got.1 (recs ++ (rec ∷ [])) ≡ ok (rest.0 ++ m, last) =
        contents-snoc got.1 rest.1 last recs rec m rest.0 others
          (ap (λ k. decrypt p k rec) same ∙ d) in
      rw (contents, decrypted, typed, more)
        (ap (λ t. ok (t, last)) (sym (append_assoc got.0.1 rest.0 m) ∙ ap (λ t. t ++ m) joined))

  -- The invariant of the emissions: the records after those of `before` open, under the keys `first`, to
  -- the content up to what is kept back.
  pub record IsCarried (first : TrafficKeys) (before : List (List ℕ)) (frame : RecordFrame)
      (content : List ℕ) (keys : TrafficKeys) (stream : List ℕ) (sent : List (List ℕ)) (n : ℕ)
      : Type 0 where
    pub recs : List (List ℕ)
    pub sent_recs : sent ≡ before ++ recs
    pub read : List ℕ
    pub opened_recs : contents first recs ≡ ok (read, keys)
    pub whole : read ++ stream ≡ content
    pub kept : KeptBack frame stream
    pub few : keys.seq ≤ n

module _ (p : Primitives) (first : TrafficKeys) (before : List (List ℕ)) where
  abbrev pub Carried : RecordFrame → List ℕ → TrafficKeys → List ℕ → List (List ℕ) → ℕ → Type 0
  Carried = IsCarried p first before

  -- A payload that fits a record is sent as one that opens to it.
  pub send_handshake_lem :
      (frame : RecordFrame) (content payload : List ℕ) (keys : TrafficKeys) (run : Progress) (n : ℕ)
      → Carried frame content keys [] run.sent n
      → length payload + 17 < 65536
      → n < 256 ^ 12
      → (sent : List (List ℕ)) × (send_handshake p keys payload run
          ≡ (ok (advanced keys), record run { sent = sent }))
        × Carried frame (content ++ payload) (advanced keys) [] sent (suc n)
  unfolding send_handshake
  send_handshake_lem frame content payload keys run n c l h =
      let few = c.few in
      let size = length-append payload (ct_handshake ∷ []) in
      let (rec, sealed, opens, _, _, _) =
        decrypt-encrypt p keys payload ct_handshake 0 (omega arith) (λ e. absurd (omega arith))
          (omega arith) in
      (
        run.sent ++ (rec ∷ []),
        rw sealed refl,
        record {
          recs = c.recs ++ (rec ∷ []);
          sent_recs = ap (λ t. t ++ (rec ∷ [])) c.sent_recs ∙ append_assoc before c.recs (rec ∷ []);
          read = c.read ++ payload;
          opened_recs =
              contents-snoc p first keys (advanced keys) c.recs rec payload c.read c.opened_recs
                opens;
          whole =
              append-nil (c.read ++ payload)
              ∙ ap (λ t. t ++ payload) (sym (append-nil c.read) ∙ c.whole);
          kept = c.kept;
          few = omega arith;
        },
      )
