-- ===== src/EvilListener/Serve.antt =====
-- tools/https_e2e/evil_listener.py: `serve_one`, one connection from the ClientHello to the response.
pub mod Hello
pub mod Composed
pub mod Whole
use c64_https.Common.{
  ℕ, zero, suc, ◌+◌, ◌/◌, ◌%◌, Bool, true, false, Option, none, some, List, [], ◌∷◌, ◌++◌, length,
  drop, replicate, ltb, ◌==◌, if◌then◌else◌, Result, ok, raised, fixture_error, closed_early,
  not_handshake,
}
use c64_https.EvilListener.{ct_handshake, ct_application_data, hash_len, plaintext_record}
use c64_https.EvilListener.Primitives.{Primitives}
use c64_https.EvilListener.Schedule.{hkdf_extract, hkdf_expand_label, derive_secret}
use c64_https.EvilListener.Keys.{TrafficKeys, new_keys, encrypt}
use c64_https.EvilListener.ClientHello.{ClientHello, parse_client_hello}
use c64_https.EvilListener.Messages.{Server, server_hello, finished_label}
use c64_https.EvilListener.Flight.{Said, send_flight}
use c64_https.EvilListener.Client.{reader_size, content_type, watch_client, collect_request}
use c64_https.EvilListener.Serving.{
  ServeResult, Serving, ◌>>=◌, ◌>>◌, pure, call, sendall, note, read_one, Progress,
}

-- The message of the first record, which has to be one of the handshake.
abbrev pub greeting : Option (List ℕ) → Result (List ℕ)
greeting none = raised (fixture_error closed_early)
greeting (some rec) =
    if content_type rec == ct_handshake
    then ok (drop 5 rec)
    else raised (fixture_error not_handshake)

-- b"derived", b"c hs traffic", b"s hs traffic", b"c ap traffic", b"s ap traffic"
abbrev pub derived_label : List ℕ
derived_label = b'd' ∷ b'e' ∷ b'r' ∷ b'i' ∷ b'v' ∷ b'e' ∷ b'd' ∷ []

abbrev pub traffic : List ℕ
traffic = b' ' ∷ b't' ∷ b'r' ∷ b'a' ∷ b'f' ∷ b'f' ∷ b'i' ∷ b'c' ∷ []

abbrev pub c_hs_label : List ℕ
c_hs_label = b'c' ∷ b' ' ∷ b'h' ∷ b's' ∷ traffic

abbrev pub s_hs_label : List ℕ
s_hs_label = b's' ∷ b' ' ∷ b'h' ∷ b's' ∷ traffic

abbrev pub c_ap_label : List ℕ
c_ap_label = b'c' ∷ b' ' ∷ b'a' ∷ b'p' ∷ traffic

abbrev pub s_ap_label : List ℕ
s_ap_label = b's' ∷ b' ' ∷ b'a' ∷ b'p' ∷ traffic

-- str(n).encode(), with a round for each digit
unfoldable pub decimal : ℕ → ℕ → List ℕ
decimal zero n = []
decimal (suc fuel) n =
    let rest = decimal fuel (n / 10) in
    let digit = n % 10 + b'0' in if ltb n 10 then digit ∷ [] else rest ++ (digit ∷ [])

-- b"HTTP/1.1 200 OK\r\nContent-Type: text/plain\r\nContent-Length: "
abbrev pub response_start : List ℕ
response_start =
    b'H' ∷ b'T' ∷ b'T' ∷ b'P' ∷ b'/' ∷ b'1' ∷ b'.' ∷ b'1' ∷ b' ' ∷ b'2' ∷ b'0' ∷ b'0' ∷ b' ' ∷ b'O'
    ∷ b'K' ∷ 13 ∷ 10 ∷ b'C' ∷ b'o' ∷ b'n' ∷ b't' ∷ b'e' ∷ b'n' ∷ b't' ∷ b'-' ∷ b'T' ∷ b'y' ∷ b'p'
    ∷ b'e' ∷ b':' ∷ b' ' ∷ b't' ∷ b'e' ∷ b'x' ∷ b't' ∷ b'/' ∷ b'p' ∷ b'l' ∷ b'a' ∷ b'i' ∷ b'n' ∷ 13
    ∷ 10 ∷ b'C' ∷ b'o' ∷ b'n' ∷ b't' ∷ b'e' ∷ b'n' ∷ b't' ∷ b'-' ∷ b'L' ∷ b'e' ∷ b'n' ∷ b'g' ∷ b't'
    ∷ b'h' ∷ b':' ∷ b' ' ∷ []

-- b"\r\nConnection: close\r\n\r\n"
abbrev pub response_head_end : List ℕ
response_head_end =
    13 ∷ 10 ∷ b'C' ∷ b'o' ∷ b'n' ∷ b'n' ∷ b'e' ∷ b'c' ∷ b't' ∷ b'i' ∷ b'o' ∷ b'n' ∷ b':' ∷ b' '
    ∷ b'c' ∷ b'l' ∷ b'o' ∷ b's' ∷ b'e' ∷ 13 ∷ 10 ∷ 13 ∷ 10 ∷ []

unfoldable pub response : List ℕ → List ℕ
response payload =
    response_start
    ++ (decimal (suc (length payload)) (length payload) ++ (response_head_end ++ payload))

-- The secrets of the handshake.
pub record Secrets : Type 0 where
  pub handshake_secret : List ℕ
  pub c_hs : List ℕ
  pub s_hs : List ℕ

module _ (p : Primitives) where
  -- Up to the ServerHello; the ClientHello's message and what it says.
  unfoldable pub greet : Serving (List ℕ × ClientHello)
  greet = do
    rec ← read_one
    ch_msg ← call (greeting rec)
    ch ← call (parse_client_hello ch_msg)
    note λ r. record r { client_hello_seen = true }
    pure (ch_msg, ch)

  unfoldable pub handshake_secrets : List ℕ → List ℕ → Serving Secrets
  handshake_secrets shared transcript = do
    let early = hkdf_extract p [] (replicate hash_len 0)
    derived ← call (derive_secret p early derived_label (p.sha256 []))
    let secret = hkdf_extract p derived shared
    c_hs ← call (derive_secret p secret c_hs_label (p.sha256 transcript))
    s_hs ← call (derive_secret p secret s_hs_label (p.sha256 transcript))
    pure (record { handshake_secret = secret; c_hs = c_hs; s_hs = s_hs })

  abbrev pub send_response : List ℕ × TrafficKeys → Serving (Unit {0})
  send_response sealed = do sendall sealed.0; note λ r. record r { response_sent = true }

  abbrev pub respond : Server → TrafficKeys → List ℕ → Serving (Unit {0})
  respond s s_app req = do
    note λ r. record r { request = some req }
    call (encrypt p s_app (response s.body ++ (ct_application_data ∷ []))) >>= send_response

  -- From the client's Finished on: the request, and the response.
  unfoldable pub serve_request : Server → List ℕ → List ℕ → Serving (Unit {0})
  serve_request s c_ap s_ap = do
    c_app ← call (new_keys p c_ap)
    s_app ← call (new_keys p s_ap)
    req ← λ run. collect_request p (suc (reader_size run.reader)) c_app [] run
    respond s s_app req

  -- From the flight's end on.
  unfoldable pub conclude : Server → Secrets → TrafficKeys → Said → Serving (Unit {0})
  conclude s secrets c_keys said = do
    let transcript_hash = p.sha256 (said.transcript ++ said.fin)
    derived ← call (derive_secret p secrets.handshake_secret derived_label (p.sha256 []))
    let master = hkdf_extract p derived (replicate hash_len 0)
    c_ap ← call (derive_secret p master c_ap_label transcript_hash)
    s_ap ← call (derive_secret p master s_ap_label transcript_hash)
    expected_cf_key ← call (hkdf_expand_label p secrets.c_hs finished_label [] hash_len)
    accepted ← watch_client p c_keys (p.hmac expected_cf_key transcript_hash)
    if accepted then serve_request s c_ap s_ap else pure tt

  unfoldable pub serve_one : Server → Serving (Unit {0})
  serve_one s = do
    hello ← greet
    shared ← call (p.exchange hello.1.key_share)
    sh_msg ← call (server_hello s hello.1)
    sh_rec ← call (plaintext_record ct_handshake sh_msg)
    sendall sh_rec
    let transcript = hello.0 ++ sh_msg
    secrets ← handshake_secrets shared transcript
    c_keys ← call (new_keys p secrets.c_hs)
    said ← send_flight p s secrets.s_hs transcript
    conclude s secrets c_keys said
