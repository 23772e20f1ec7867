-- ===== src/EvilListener/Serving.antt =====
-- tools/https_e2e/evil_listener.py: what a server's run changes, the dictionary `self.result`, the socket's
-- two directions, and statements that change it and may raise.
use c64_https.Common.{ℕ, Bool, true, false, Option, none, List, [], ◌∷◌, ◌++◌, Result, ok, raised}
use c64_https.EvilListener.{Mode, good, bad_finished, omit_cert}
use c64_https.EvilListener.Reader.{Arrival, RecordReader, Received, new_reader, read_record}

-- The texts of "client_reaction".
pub data Reaction : Type 0 where
  no_response closed undecryptable own_finished : Reaction
  plain_alert encrypted_alert : List ℕ → Reaction
  unexpected : ℕ → Option ℕ → Reaction

-- `self.result`, without what the caller fills in. A key that is not there yet is `none`.
pub record ServeResult : Type 0 where
  pub client_hello_seen : Bool
  pub server_flight_sent : Bool
  pub finished_corrupted : Bool
  pub certificate_sent : Bool
  pub ee_messages_sent : Option ℕ
  pub record_count : Option ℕ
  pub client_accepted_finished : Option Bool
  pub client_reaction : Option Reaction
  pub client_finished_valid : Option Bool
  pub request : Option (List ℕ)
  pub response_sent : Bool
  pub client_alert : Option (List ℕ)

abbrev pub presents : Mode → Bool
presents omit_cert = false
presents good = true
presents bad_finished = true

unfoldable pub new_outcome : Mode → ServeResult
new_outcome mode = record {
  client_hello_seen = false;
  server_flight_sent = false;
  finished_corrupted = false;
  certificate_sent = presents mode;
  ee_messages_sent = none;
  record_count = none;
  client_accepted_finished = none;
  client_reaction = none;
  client_finished_valid = none;
  request = none;
  response_sent = false;
  client_alert = none;
}

-- `sent` is what each call of `sendall` sent, in order.
pub record Progress : Type 0 where
  pub result : ServeResult
  pub sent : List (List ℕ)
  pub reader : RecordReader

abbrev pub Serving {ℓ} : Type ℓ → Type ℓ
Serving A = Progress → Result A × Progress

abbrev pub chained {ℓ₁ ℓ₂} :
    {A : Type ℓ₁} {B : Type ℓ₂} → Result A × Progress → (A → Serving B) → Result B × Progress
chained (ok a, run) rest = rest a run
chained (raised fault, run) rest = (raised fault, run)

infixl 5 ◌>>=◌
abbrev pub ◌>>=◌ {ℓ₁ ℓ₂} : {A : Type ℓ₁} {B : Type ℓ₂} → Serving A → (A → Serving B) → Serving B
◌>>=◌ first rest run = chained (first run) rest

infixl 5 ◌>>◌
abbrev pub ◌>>◌ {ℓ₂} : {B : Type ℓ₂} → Serving (Unit {0}) → Serving B → Serving B
first >> rest = first >>= λ _. rest

abbrev pub pure {ℓ} : {A : Type ℓ} → A → Serving A
pure a run = (ok a, run)

-- A call that changes nothing of the run.
abbrev pub call {ℓ} : {A : Type ℓ} → Result A → Serving A
call r run = (r, run)

abbrev pub sendall : List ℕ → Serving (Unit {0})
sendall bytes run = (ok tt, record run { sent = run.sent ++ (bytes ∷ []) })

abbrev pub note : (ServeResult → ServeResult) → Serving (Unit {0})
note change run = (ok tt, record run { result = change run.result })

abbrev pub handed : Received → Progress → Result (Option (List ℕ)) × Progress
handed got run = (got.0, record run { reader = got.1 })

abbrev pub read_one : Serving (Option (List ℕ))
read_one run = handed (read_record run.reader) run

-- The same, where what it raises is caught.
abbrev pub read_outcome : Serving (Result (Option (List ℕ)))
read_outcome run = let got = read_record run.reader in (ok got.0, record run { reader = got.1 })

unfoldable pub new_progress : Mode → List Arrival → Progress
new_progress mode left = record { result = new_outcome mode; sent = []; reader = new_reader left }
