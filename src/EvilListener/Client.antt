-- ===== src/EvilListener/Client.antt =====
-- tools/https_e2e/evil_listener.py: the two loops of `serve_one` on what the client sends after the server's
-- flight, the one that watches for its Finished and the one that collects its request.
pub mod Smaller
pub mod Watched
use c64_https.Common.{
  ℕ, zero, suc, ◌+◌, Bool, true, false, not, ◌||◌, Option, none, some, List, [], ◌∷◌, ◌++◌, length,
  drop, slice, get_or, get_elem?, list_eq, ◌==◌, if◌then◌else◌, Result, ok, raised,
}
use c64_https.HardwareChecks.Leak.{is_in}
use c64_https.EvilListener.{
  ct_change_cipher_spec, ct_alert, ct_handshake, ct_application_data, hs_finished,
}
use c64_https.EvilListener.Primitives.{Primitives}
use c64_https.EvilListener.Keys.{TrafficKeys, decrypt}
use c64_https.EvilListener.Reader.{Arrival, chunk, quiet, RecordReader}
use c64_https.EvilListener.Serving.{
  Reaction, no_response, closed, undecryptable, own_finished, plain_alert, encrypted_alert,
  unexpected, ServeResult, Serving, ◌>>=◌, ◌>>◌, pure, call, note, read_outcome,
}

-- What a reader can still give, a bound for the calls that return a record.
unfoldable pub arrivals_size : List Arrival → ℕ
arrivals_size [] = 0
arrivals_size (chunk c ∷ left) = suc (length c + arrivals_size left)
arrivals_size (quiet ∷ left) = suc (arrivals_size left)

abbrev pub reader_size : RecordReader → ℕ
reader_size reader = length reader.buf + arrivals_size reader.left

-- rec[0]; a record has five bytes at least
abbrev pub content_type : List ℕ → ℕ
content_type rec = get_or rec 0 0

-- pt and pt[0] == HS_FINISHED
abbrev pub is_finished : List ℕ → Bool
is_finished [] = false
is_finished (b ∷ bs) = b == hs_finished

-- The client did not accept; the function returns.
abbrev pub refuse : Reaction → Serving Bool
refuse reaction = do
  note λ r. record r { client_accepted_finished = some false; client_reaction = some reaction }
  pure false

-- hmac.compare_digest(pt[4:36], expected_cf)
abbrev pub accept_client : List ℕ → List ℕ → Serving Bool
accept_client pt expected_cf = do
  note λ r. record r {
    client_accepted_finished = some true;
    client_reaction = some own_finished;
    client_finished_valid = some (list_eq (slice 4 36 pt) expected_cf);
  }
  pure true

-- What is made of a record that opens.
abbrev pub judge_opened : List ℕ → ℕ → List ℕ → Serving Bool
judge_opened expected_cf ctype pt =
    if ctype == ct_alert
    then refuse (encrypted_alert pt)
    else if not (ctype == ct_handshake) || not (is_finished pt)
    then refuse (unexpected ctype (get_elem? pt 0))
    else accept_client pt expected_cf

abbrev pub judge_decrypted : List ℕ → Result ((ℕ × List ℕ) × TrafficKeys) → Serving Bool
judge_decrypted expected_cf (raised fault) = refuse undecryptable
judge_decrypted expected_cf (ok (content, keys)) = judge_opened expected_cf content.0 content.1

module _ (p : Primitives) (c_keys : TrafficKeys) (expected_cf : List ℕ) where
  abbrev pub judge : List ℕ → Serving Bool
  judge rec =
      if content_type rec == ct_alert
      then refuse (plain_alert (drop 5 rec))
      else judge_decrypted expected_cf (decrypt p c_keys rec)

  -- A round of the loop, by what the reader gave; `again` is the next round.
  abbrev pub watched : Serving Bool → Result (Option (List ℕ)) → Serving Bool
  watched again (raised fault) = refuse no_response
  watched again (ok none) = refuse closed
  watched again (ok (some rec)) =
      if content_type rec == ct_change_cipher_spec then again else judge rec

  -- The loop; whether the server goes on.
  unfoldable pub watch : ℕ → Serving Bool
  watch zero = pure false
  watch (suc fuel) = do got ← read_outcome; watched (watch fuel) got

  -- Each round takes a record, so that what the reader can give is fuel enough.
  unfoldable pub watch_client : Serving Bool
  watch_client run = watch (suc (reader_size run.reader)) run

-- b"\r\n\r\n"
abbrev pub end_of_head : List ℕ
end_of_head = 13 ∷ 10 ∷ 13 ∷ 10 ∷ []

module _ (p : Primitives) where
  -- What is done with the content of a record.
  abbrev pub gathered :
      (TrafficKeys → List ℕ → Serving (List ℕ))
      → List ℕ
      → (ℕ × List ℕ) × TrafficKeys
      → Serving (List ℕ)
  gathered again req got =
      if got.0.0 == ct_application_data
      then again got.1 (req ++ got.0.1)
      else if got.0.0 == ct_alert
      then (do note λ r. record r { client_alert = some got.0.1 }; pure req)
      else again got.1 req

  -- A round of the loop, by what the reader gave.
  abbrev pub collected :
      (TrafficKeys → List ℕ → Serving (List ℕ))
      → TrafficKeys
      → List ℕ
      → Result (Option (List ℕ))
      → Serving (List ℕ)
  collected again keys req (raised fault) = pure req
  collected again keys req (ok none) = pure req
  collected again keys req (ok (some rec)) =
      if content_type rec == ct_change_cipher_spec
      then again keys req
      else (call (decrypt p keys rec) >>= gathered again req)

  -- The loop that collects the request, with all that has come of it.
  unfoldable pub collect_request : ℕ → TrafficKeys → List ℕ → Serving (List ℕ)
  collect_request zero keys req = pure req
  collect_request (suc fuel) keys req = elim (is_in end_of_head req) [
    | true ↦ pure req
    | false ↦ (do got ← read_outcome; collected (collect_request fuel) keys req got)
  ]
