-- ===== src/Runs/Served.antt =====
-- Concrete connections to the TLS server of tools/https_e2e/evil_listener.py.
use c64_https.Common.{
  ℕ, drop, ◌/◌, ◌%◌, ◌≤◌, ◌≡◌, refl, true, some, List, [], ◌∷◌, ◌++◌, length, list_eq, take,
  replicate, is_nil, ok, arith,
}
use c64_https.Common.Bytes.{from_be, from_le, to_bytes_be}
use c64_https.HardwareChecks.Names.Hello.{extensions_bytes}
use c64_https.EvilListener.{bad_finished, pathological, handshake, plaintext_record, pack_be16}
use c64_https.EvilListener.Framing.{concatenated}
use c64_https.EvilListener.Keys.{TrafficKeys, nonce, encrypt, new_keys}
use c64_https.EvilListener.ClientHello.{parse_client_hello}
use c64_https.EvilListener.ClientHello.Entries.{suites_bytes}
use c64_https.EvilListener.ClientHello.Parsed.{
  Offer, offer_bytes, IsOffer, parse_client_hello-offer_bytes,
}
use c64_https.EvilListener.Messages.{Server}
use c64_https.EvilListener.Serving.{Progress, new_progress}
use c64_https.EvilListener.Flight.{Said, send_flight}
use c64_https.EvilListener.Flight.Opened.{contents}
use c64_https.EvilListener.Flight.Whole.{flight_content, send_flight-flight_content}
use c64_https.EvilListener.Client.{watch_client}
use c64_https.EvilListener.Client.Watched.{at_reader, watch_client-finished}
use c64_https.EvilListener.Serve.{serve_one}
use c64_https.EvilListener.Serve.Whole.{Served, serve_one-Served}
use c64_https.Runs.Listener.{stand_ins, keys, change_cipher}

-- A ClientHello with another suite, another group's share, and two other extensions.
abbrev offer : Offer
offer = record {
  version = 3 ∷ 3 ∷ [];
  random = replicate 32 0xAB;
  session = 1 ∷ 2 ∷ 3 ∷ [];
  suites = 0x1301 ∷ 0x1303 ∷ [];
  compression = 0 ∷ [];
  before = record { kind = 0x2B; content = 2 ∷ 3 ∷ 4 ∷ [] } ∷ [];
  shares = record {
    before = record { kind = 0x17; content = 4 ∷ [] } ∷ [];
    share = replicate 32 0x11;
    behind = [];
  };
  after = record { kind = 0; content = [] } ∷ [];
}

offer-IsOffer : IsOffer offer
offer-IsOffer = (
  refl,
  refl,
  refl,
  ((λ e. absurd (omega arith)), tt),
  ((λ e. absurd (omega arith)), tt),
  ((λ e. absurd (omega arith)), tt),
)

parse_client_hello-offer_bytes_example :
    parse_client_hello (offer_bytes offer)
    ≡ ok (record {
      client_random = replicate 32 0xAB;
      session_id = 1 ∷ 2 ∷ 3 ∷ [];
      key_share = replicate 32 0x11;
    })
parse_client_hello-offer_bytes_example = parse_client_hello-offer_bytes offer offer-IsOffer

abbrev server : Server
server = record {
  mode = bad_finished;
  record_frame = pathological;
  body = b'H' ∷ b'I' ∷ [];
  cert_der = replicate 300 0x30;
  server_pub = replicate 32 0x22;
  random = replicate 32 0x33;
}

abbrev start : Progress
start = new_progress bad_finished []

certificate_fits : 300 ≤ 60000
certificate_fits = omega arith

send_flight-flight_content_example :
    (keys : TrafficKeys) × (content : List ℕ) × (said : Said) × (run' : Progress) × (recs : List
      (List ℕ))
    × (last : TrafficKeys) × (new_keys stand_ins (1 ∷ []) ≡ ok keys)
    × (flight_content stand_ins server (1 ∷ []) (2 ∷ []) ≡ ok content)
    × (send_flight stand_ins server (1 ∷ []) (2 ∷ []) start ≡ (ok said, run'))
    × (run'.sent ≡ start.sent ++ recs)
    × (contents stand_ins keys recs ≡ ok (content, last))
send_flight-flight_content_example =
    send_flight-flight_content stand_ins server (1 ∷ []) (2 ∷ []) start certificate_fits

-- The Finished of a client, in a record of its own.
abbrev client_finished : List ℕ
client_finished = (23 ∷ 3 ∷ 3 ∷ 0 ∷ 53 ∷ 20 ∷ 0 ∷ 0 ∷ 32 ∷ replicate 32 5) ++ (22 ∷ replicate 16 0)

watch_client-finished_example :
    (run' : Progress) × (watch_client stand_ins keys
        (replicate 32 5)
        (at_reader start [] (change_cipher ∷ client_finished ∷ []))
      ≡ (ok true, run'))
    × (run'.result.client_accepted_finished ≡ some true)
    × (run'.result.client_finished_valid ≡ some (list_eq (replicate 32 5) (replicate 32 5)))
unfolding encrypt handshake is_nil concatenated from_be from_le pack_be16 nonce to_bytes_be
watch_client-finished_example =
    watch_client-finished stand_ins keys (replicate 32 5) (change_cipher ∷ []) (replicate 32 5)
      client_finished [] [] (change_cipher ∷ client_finished ∷ []) start (omega arith) refl
      (((omega arith, refl), refl), tt) (refl, (refl, tt)) refl refl

abbrev hello_record : List ℕ
hello_record = let msg = offer_bytes offer in 22 ∷ 3 ∷ 3 ∷ length msg / 256 ∷ length msg % 256 ∷ msg

serve_one-Served_example :
    Served stand_ins server offer
      (refl, refl, certificate_fits)
      offer-IsOffer
      (omega arith)
      (replicate 32 0x11)
      []
      start
      (serve_one stand_ins server
        (at_reader start [] (take 40 hello_record ∷ drop 40 hello_record ∷ [])))
unfolding plaintext_record pack_be16 handshake extensions_bytes suites_bytes is_nil concatenated
serve_one-Served_example =
    serve_one-Served stand_ins server offer (refl, refl, certificate_fits) offer-IsOffer
      (omega arith) hello_record [] [] (replicate 32 0x11)
      (take 40 hello_record ∷ drop 40 hello_record ∷ []) start refl (refl, (refl, tt)) refl refl
