-- ===== src/Runs/Cable.antt =====
-- Concrete captures, streams, messages and memories for the checks of tools/ip65_hw_checks.py.
use c64_https.Common.{
  ℕ, ◌+◌, ◌≤◌, ◌≡◌, refl, true, false, ltb, if◌then◌else◌, some, List, [], ◌∷◌, ◌++◌, replicate,
  get_elem?, list_eq, arith,
}
use c64_https.BodyChecks.Verdicts.{has_failed}
use c64_https.Common.Bytes.{from_be, from_le}
use c64_https.TrustStore.{is_ascii}
use c64_https.HardwareChecks.Capture.{Frame, new_frame, Format}
use c64_https.HardwareChecks.Capture.Written.{Packet}
use c64_https.HardwareChecks.Streams.{Pieces, sorted_pieces, insert_piece, assembled}
use c64_https.HardwareChecks.Streams.Assembly.{IsCut, reached, assembled-IsCut}
use c64_https.HardwareChecks.Records.{parse_tls_records}
use c64_https.HardwareChecks.Records.Framing.{
  Sent, sent_stream, received_from, parse_tls_records-sent_stream,
}
use c64_https.HardwareChecks.Names.{client_hello_sni, joined, dns_question_names}
use c64_https.HardwareChecks.Names.Hello.{Hello, hello_bytes, client_hello_sni-hello_bytes}
use c64_https.HardwareChecks.Names.Questions.{
  Question, question_bytes, dns_question_names-question_bytes,
}
use c64_https.HardwareChecks.Leak.{
  is_in, starts_with, secret_forms, petscii_form, petscii_shifted_form, longest_run,
  check_body_not_on_wire,
}
use c64_https.HardwareChecks.Leak.Longest.{IsRun, longest_run-IsRun}
use c64_https.HardwareChecks.Leak.Clean.{check_body_not_on_wire-has_failed}

abbrev client_mac : List ℕ
client_mac = 2 ∷ 0 ∷ 0 ∷ 0 ∷ 0 ∷ 1 ∷ []

abbrev host_mac : List ℕ
host_mac = 2 ∷ 0 ∷ 0 ∷ 0 ∷ 0 ∷ 2 ∷ []

-- "SECRET BODY" and a frame that has "CRET" in it.
abbrev secret : List ℕ
secret = b'S' ∷ b'E' ∷ b'C' ∷ b'R' ∷ b'E' ∷ b'T' ∷ b' ' ∷ b'B' ∷ b'O' ∷ b'D' ∷ b'Y' ∷ []

abbrev leaking : List ℕ
leaking = 1 ∷ 2 ∷ b'C' ∷ b'R' ∷ b'E' ∷ b'T' ∷ 3 ∷ []

abbrev leak : Frame
leak = new_frame 0 5_000_000_000 client_mac host_mac 0x0800 leaking

check_body_not_on_wire-has_failed_example :
    has_failed (check_body_not_on_wire (leak ∷ []) secret (b'w' ∷ []) 4) ≡ true
unfolding secret_forms is_in starts_with get_elem? list_eq petscii_form petscii_shifted_form
check_body_not_on_wire-has_failed_example =
    check_body_not_on_wire-has_failed (leak ∷ []) secret (b'w' ∷ []) 4 0 0 leaking secret 2 4 refl
      refl (omega arith) refl (omega arith)

longest_run-IsRun_example :
    IsRun leaking secret (longest_run leaking secret) × (3 ≤ (longest_run leaking secret).0)
unfolding is_in starts_with
longest_run-IsRun_example = longest_run-IsRun leaking secret 3 3 (omega arith) refl

-- Little endian, microseconds, Ethernet.
abbrev header : List ℕ
header = 0xd4 ∷ 0xc3 ∷ 0xb2 ∷ 0xa1 ∷ (replicate 16 0 ++ (1 ∷ 0 ∷ 0 ∷ 0 ∷ []))

abbrev little : Format
little = record { big = false; ts_div = 1_000_000 }

abbrev packet : Packet
packet = record { sec = 1000; frac = 500; bytes = client_mac ++ (host_mac ++ (8 ∷ 6 ∷ 1 ∷ 2 ∷ [])) }

abbrev hello : Hello
hello = record {
  version_and_random = replicate 34 3;
  session_id = 9 ∷ 9 ∷ [];
  cipher_suites = 0x13 ∷ 0x03 ∷ [];
  compression = 0 ∷ [];
  before = record { kind = 43; content = 2 ∷ 3 ∷ 4 ∷ [] } ∷ [];
  name = b'a' ∷ b'.' ∷ b'b' ∷ [];
  behind = 0 ∷ 51 ∷ 0 ∷ 0 ∷ [];
}

client_hello_sni-hello_bytes_example :
    client_hello_sni (hello_bytes hello ++ (1 ∷ 2 ∷ [])) ≡ some (b'a' ∷ b'.' ∷ b'b' ∷ [])
unfolding is_ascii
client_hello_sni-hello_bytes_example =
    client_hello_sni-hello_bytes hello (1 ∷ 2 ∷ [])
      (refl, ((λ e. absurd (omega (arith, e))), tt), refl)

abbrev question : Question
question = record {
  labels = (b'w' ∷ b'w' ∷ []) ∷ (b'f' ∷ []) ∷ [];
  type_and_class = 0 ∷ 1 ∷ 0 ∷ 1 ∷ [];
}

dns_question_names-question_bytes_example :
    dns_question_names
      ((7 ∷ 7 ∷ 1 ∷ 0 ∷ 0 ∷ 1 ∷ replicate 6 0) ++ (question_bytes (question ∷ []) ++ (5 ∷ [])))
    ≡ (b'w' ∷ b'w' ∷ b'.' ∷ b'f' ∷ []) ∷ []
unfolding from_be from_le joined
dns_question_names-question_bytes_example =
    dns_question_names-question_bytes (7 ∷ 7 ∷ 1 ∷ 0 ∷ 0 ∷ 1 ∷ replicate 6 0) (question ∷ [])
      (5 ∷ []) refl refl (omega arith)
      (
        (
          omega arith,
          (
            (omega arith, omega arith, (omega arith, (omega arith, tt))),
            ((omega arith, omega arith, (omega arith, tt)), tt),
          ),
          refl,
        ),
        tt,
      )

abbrev sent : Sent
sent = record { content_type = 0x16; minor = 1; body = 1 ∷ 2 ∷ 3 ∷ [] }

parse_tls_records-sent_stream_example :
    parse_tls_records (sent_stream (sent ∷ sent ∷ []) ++ (0x17 ∷ 3 ∷ []))
    ≡ received_from 0 (sent ∷ sent ∷ [])
parse_tls_records-sent_stream_example =
    parse_tls_records-sent_stream (sent ∷ sent ∷ []) (0x17 ∷ 3 ∷ [])
      ((refl, omega arith, omega arith), ((refl, omega arith, omega arith), tt)) (omega arith)

-- A memory of one value, and one that has another below the blob.
abbrev even_memory : ℕ → ℕ → List ℕ
even_memory a n = replicate n 0x30

abbrev other_memory : ℕ → ℕ → List ℕ
other_memory a n = replicate n (if ltb a 0x2000 then 1 else 0x30)

memories_agree : (a n : ℕ) → 0x2000 ≤ a → a + n ≤ 0x4F8C → even_memory a n ≡ other_memory a n
memories_agree a n l h = let above : ltb a 0x2000 ≡ false = ground arith in rw (above) refl

abbrev pinned : List ℕ
pinned = 10 ∷ 0 ∷ 66 ∷ 200 ∷ []

abbrev datagram : List ℕ
datagram = 0x45 ∷ 0 ∷ 0 ∷ 21 ∷ (replicate 16 1 ++ (99 ∷ []))

-- Out of order, and with bytes that two of the pieces have.
abbrev pieces : Pieces
pieces = (102, 3 ∷ 4 ∷ 5 ∷ []) ∷ (100, 1 ∷ 2 ∷ 3 ∷ []) ∷ (104, 5 ∷ 6 ∷ []) ∷ []

assembled-IsCut_example : assembled pieces ≡ 1 ∷ 2 ∷ 3 ∷ 4 ∷ 5 ∷ 6 ∷ []
unfolding sorted_pieces insert_piece IsCut reached
assembled-IsCut_example = assembled-IsCut (1 ∷ 2 ∷ 3 ∷ 4 ∷ 5 ∷ 6 ∷ []) pieces (
  omega arith,
  omega arith,
  refl,
  (omega arith, omega arith, refl, (omega arith, omega arith, refl, tt)),
)
