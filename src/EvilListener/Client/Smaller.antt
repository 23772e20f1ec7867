-- ===== src/EvilListener/Client/Smaller.antt =====
-- tools/https_e2e/evil_listener.py: a call of `read_record` that returns a record leaves less to read, so
-- that the loops on the client's records end.
use c64_https.Common.{
  ℕ, zero, suc, ◌+◌, ◌<◌, Bool, true, false, Option, none, some, some-injective, Option-cases, List,
  [], ◌∷◌, ◌++◌, length, length-append, length-drop, drop, slice, take, leb, leb→le, ◌==◌, if_both,
  not, ◌||◌, ◌≢◌, timeout_error, Result, ok, raised, ◌≡◌, refl, ap, Bool-cases, inl, inr, arith,
}
use mathlib.Core.Path.{subst}
use c64_https.Common.Bytes.{from_be}
use c64_https.EvilListener.{ct_change_cipher_spec, ct_alert, ct_handshake}
use c64_https.EvilListener.Primitives.{Primitives}
use c64_https.EvilListener.Keys.{TrafficKeys, decrypt}
use c64_https.EvilListener.Reader.{
  Arrival, chunk, quiet, RecordReader, Received, first_record, receive, read_record,
}
use c64_https.EvilListener.Serving.{Reaction, own_finished, Progress, Serving}
use c64_https.EvilListener.Client.{
  arrivals_size, reader_size, content_type, is_finished, judge, judge_opened, judge_decrypted,
  watched, watch, watch_client,
}

first_record-smaller :
    (buf : List ℕ) (r : List ℕ × List ℕ) → first_record buf ≡ some r → length r.1 < length buf
unfolding first_record
first_record-smaller buf r h =
    let n : ℕ = from_be (slice 3 5 buf) in
    elim (Bool-cases (leb 5 (length buf))) [
      | inr short ↦ absurd (let e : none ≡ some r = rw (first_record, short) at h in cc)
      | inl long ↦ elim (Bool-cases (leb (5 + n) (length buf))) [
        | inr part ↦ absurd (let e : none ≡ some r = rw (first_record, long, part) at h in cc)
        | inl whole ↦
            let got : (take (5 + n) buf, drop (5 + n) buf) ≡ r =
              some-injective (rw (first_record, long, whole) at h) in
            let rest : drop (5 + n) buf ≡ r.1 = ap (λ q. q.1) got in
            let le = leb→le 5 (length buf) long in
            omega (arith, length-drop (5 + n) buf, ap length rest)
      ]
    ]

took :
    (buf : List ℕ) (left : List Arrival) (r : List ℕ × List ℕ) (rec : List ℕ) (next : RecordReader)
    → first_record buf ≡ some r
    → ◌≡◌ {A = Received} (ok (some r.0), record { buf = r.1; left = left }) (ok (some rec), next)
    → reader_size next < length buf + arrivals_size left
took buf left r rec next e h =
    let same : record { buf = r.1; left = left } ≡ next = ap (λ q. q.1) h in
    subst (λ t. reader_size t < length buf + arrivals_size left) same
      (let less = first_record-smaller buf r e in omega arith)

not_received :
    {rec : List ℕ} {x y : RecordReader}
    → ◌≢◌ {A = Received} (raised timeout_error, x) (ok (some rec), y)
not_received h = cc

not_closed :
    {rec : List ℕ} {x y : RecordReader} → ◌≢◌ {A = Received} (ok none, x) (ok (some rec), y)
not_closed h = cc

pub receive-smaller :
    (buf : List ℕ) (left : List Arrival) (rec : List ℕ) (next : RecordReader)
    → receive buf left ≡ (ok (some rec), next)
    → reader_size next < length buf + arrivals_size left
unfolding receive arrivals_size
receive-smaller buf [] rec next h = elim (Option-cases (first_record buf)) [
  | inl e ↦ absurd (not_received (rw (receive, e) at h))
  | inr (r, e) ↦ took buf [] r rec next e (rw (receive, e) at h)
]
receive-smaller buf (quiet ∷ left) rec next h = elim (Option-cases (first_record buf)) [
  | inl e ↦ absurd (not_received (rw (receive, e) at h))
  | inr (r, e) ↦ took buf (quiet ∷ left) r rec next e (rw (receive, e) at h)
]
receive-smaller buf (chunk [] ∷ left) rec next h = elim (Option-cases (first_record buf)) [
  | inl e ↦ absurd (not_closed (rw (receive, e) at h))
  | inr (r, e) ↦ took buf (chunk [] ∷ left) r rec next e (rw (receive, e) at h)
]
receive-smaller buf (chunk (b ∷ bs) ∷ left) rec next h = elim (Option-cases (first_record buf)) [
  | inl e ↦
      let less = receive-smaller (buf ++ (b ∷ bs)) left rec next (rw (receive, e) at h) in
      omega (arith, length-append buf (b ∷ bs))
  | inr (r, e) ↦ took buf (chunk (b ∷ bs) ∷ left) r rec next e (rw (receive, e) at h)
]

-- The reaction that goes with a verdict: the client's own Finished, or another.
abbrev pub Tells : Bool → Option Reaction → Type 0
Tells true reaction = reaction ≡ some own_finished
Tells false reaction = (why : Reaction) × (reaction ≡ some why) × (why ≢ own_finished)

-- The loop leaves a verdict and a reaction that goes with it, and says whether it was that the client
-- accepted.
abbrev pub Decides : Serving Bool → Progress → Type 0
Decides m run =
    (accepted : Bool) × (run' : Progress) × (m run ≡ (ok accepted, run'))
    × (run'.result.client_accepted_finished ≡ some accepted)
    × (run'.sent ≡ run.sent)
    × Tells accepted run'.result.client_reaction

module _ (p : Primitives) (c_keys : TrafficKeys) (expected_cf : List ℕ) where
  judge_opened-Decides :
      (ctype : ℕ) (pt : List ℕ) (run : Progress) → Decides (judge_opened expected_cf ctype pt) run
  judge_opened-Decides ctype pt run =
      if_both (λ m. Decides m run) (ctype == ct_alert) _ _
        (false, _, refl, refl, refl, (_, refl, λ e. cc))
        (if_both (λ m. Decides m run) (not (ctype == ct_handshake) || not (is_finished pt)) _ _
          (false, _, refl, refl, refl, (_, refl, λ e. cc)) (true, _, refl, refl, refl, refl))

  judge_decrypted-Decides :
      (r : Result ((ℕ × List ℕ) × TrafficKeys)) (run : Progress)
      → Decides (judge_decrypted expected_cf r) run
  judge_decrypted-Decides (raised fault) run = (false, _, refl, refl, refl, (_, refl, λ e. cc))
  judge_decrypted-Decides (ok (content, keys)) run = judge_opened-Decides content.0 content.1 run

  judge-Decides : (rec : List ℕ) (run : Progress) → Decides (judge p c_keys expected_cf rec) run
  judge-Decides rec run =
      if_both (λ m. Decides m run) (content_type rec == ct_alert) _ _
        (false, _, refl, refl, refl, (_, refl, λ e. cc))
        (judge_decrypted-Decides (decrypt p c_keys rec) run)

  watched-Decides :
      (again : Serving Bool) (got : Result (Option (List ℕ))) (run : Progress)
      → ((rec : List ℕ) → got ≡ ok (some rec) → Decides again run)
      → Decides (watched p c_keys expected_cf again got) run
  watched-Decides again (raised fault) run h = (false, _, refl, refl, refl, (_, refl, λ e. cc))
  watched-Decides again (ok none) run h = (false, _, refl, refl, refl, (_, refl, λ e. cc))
  watched-Decides again (ok (some rec)) run h =
      if_both (λ m. Decides m run) (content_type rec == ct_change_cipher_spec) _ _ (h rec refl)
        (judge-Decides rec run)

  watch-Decides :
      (fuel : ℕ) (run : Progress)
      → reader_size run.reader < fuel
      → Decides (watch p c_keys expected_cf fuel) run
  unfolding watch
  watch-Decides zero run h = absurd (omega arith)
  watch-Decides (suc fuel) run h =
      let got : Received = read_record run.reader in
      watched-Decides (watch p c_keys expected_cf fuel) got.0 (record run { reader = got.1 })
        λ rec e.
          let less =
            receive-smaller run.reader.buf run.reader.left rec got.1
              (ap {B = Received} (λ g. (g, got.1)) e) in
          watch-Decides fuel (record run { reader = got.1 }) (omega arith)

  pub watch_client-Decides : (run : Progress) → Decides (watch_client p c_keys expected_cf) run
  unfolding watch_client
  watch_client-Decides run = watch-Decides (suc (reader_size run.reader)) run (omega arith)
