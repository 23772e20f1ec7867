-- ===== src/M3Device/Replies.antt =====
-- tools/check_m3_client.py: what the commands of `M3Device` answer with, the table of sessions,
-- `_claim` and `_check_handle`. An exception leaves no device behind. The texts of a reply are the lists of
-- their bytes.
use c64_https.Common.{
  ℕ, zero, suc, Bool, true, false, not, ◌&&◌, ◌||◌, Option, none, some, List, [], ◌∷◌, ◌++◌, map,
  leb, ◌==◌, if◌then◌else◌, list_eq, any, filter, Result, ok, ◌>>◌, guard, value_error,
}
use c64_https.M3Device.{Session, Sessions, Delay, Blocks, gone_handle, Device, fast}

abbrev pub ok_status : List ℕ
ok_status = b'0' ∷ b'0' ∷ b',' ∷ b'O' ∷ b'K' ∷ []

abbrev pub idle_status : List ℕ
idle_status =
    b'0' ∷ b'2' ∷ b',' ∷ b'N' ∷ b'O' ∷ b' ' ∷ b'D' ∷ b'A' ∷ b'T' ∷ b'A' ∷ b':' ∷ b' ' ∷ b'1' ∷ b'1'
    ∷ []

abbrev pub not_ours : List ℕ
not_ours =
    b'0' ∷ b'2' ∷ b',' ∷ b'N' ∷ b'O' ∷ b' ' ∷ b'D' ∷ b'A' ∷ b'T' ∷ b'A' ∷ b':' ∷ b' ' ∷ b'9' ∷ []

abbrev pub close_unowned : List ℕ
close_unowned =
    b'1' ∷ b'2' ∷ b',' ∷ b'E' ∷ b'R' ∷ b'R' ∷ b'O' ∷ b'R' ∷ b' ' ∷ b'O' ∷ b'N' ∷ b' ' ∷ b'C' ∷ b'L'
    ∷ b'O' ∷ b'S' ∷ b'E' ∷ b':' ∷ b' ' ∷ b'9' ∷ []

abbrev pub unknown_command : List ℕ
unknown_command =
    b'2' ∷ b'1' ∷ b',' ∷ b'U' ∷ b'N' ∷ b'K' ∷ b'N' ∷ b'O' ∷ b'W' ∷ b'N' ∷ b' ' ∷ b'C' ∷ b'O' ∷ b'M'
    ∷ b'M' ∷ b'A' ∷ b'N' ∷ b'D' ∷ []

abbrev pub invalid_params : List ℕ
invalid_params =
    b'8' ∷ b'1' ∷ b',' ∷ b'I' ∷ b'N' ∷ b'V' ∷ b'A' ∷ b'L' ∷ b'I' ∷ b'D' ∷ b' ' ∷ b'P' ∷ b'A' ∷ b'R'
    ∷ b'A' ∷ b'M' ∷ b'S' ∷ []

abbrev pub out_of_range : List ℕ
out_of_range =
    b'8' ∷ b'2' ∷ b',' ∷ b'P' ∷ b'A' ∷ b'R' ∷ b'A' ∷ b'M' ∷ b'E' ∷ b'T' ∷ b'E' ∷ b'R' ∷ b'(' ∷ b'S'
    ∷ b')' ∷ b' ' ∷ b'O' ∷ b'U' ∷ b'T' ∷ b' ' ∷ b'O' ∷ b'F' ∷ b' ' ∷ b'R' ∷ b'A' ∷ b'N' ∷ b'G'
    ∷ b'E' ∷ []

abbrev pub send_error : List ℕ
send_error =
    b'1' ∷ b'2' ∷ b',' ∷ b'S' ∷ b'E' ∷ b'N' ∷ b'D' ∷ b' ' ∷ b'E' ∷ b'R' ∷ b'R' ∷ b'O' ∷ b'R' ∷ b':'
    ∷ b' ' ∷ b'9' ∷ []

-- What `_execute` returns.
pub record Reply : Type 0 where
  pub blocks : Blocks
  pub status : List ℕ
  pub delay : Delay

abbrev pub reply : Blocks → List ℕ → Delay → Reply
reply blocks status delay = record { blocks = blocks; status = status; delay = delay }

abbrev pub Executed : Type 0
Executed = Result (Device × Reply)

abbrev pub answer : Device → Blocks → List ℕ → Delay → Executed
answer dev blocks status delay = ok (dev, reply blocks status delay)

-- bytes(values)
unfoldable pub to_bytes : List ℕ → Result (List ℕ)
to_bytes values = do guard (not (any (λ v. leb 256 v) values)) value_error; ok values

-- self.sessions.get(h)
unfoldable pub session_of : ℕ → Sessions → Option Session
session_of h [] = none
session_of h ((k, s) ∷ ss) = let rest = session_of h ss in if k == h then some s else rest

abbrev pub is_present : Option Session → Bool
is_present none = false
is_present (some s) = true

-- self.sessions[h] = s
unfoldable pub put_session : ℕ → Session → Sessions → Sessions
put_session h s [] = (h, s) ∷ []
put_session h s ((k, t) ∷ ss) =
    let rest = put_session h s ss in if k == h then (k, s) ∷ ss else (k, t) ∷ rest

-- del self.sessions[h]
unfoldable pub del_session : ℕ → Sessions → Sessions
del_session h ss = filter (λ e. not (e.0 == h)) ss

abbrev pub new_session : Session
new_session = record { rx = []; claimed = false; on_write = none }

-- h in self.gone
abbrev pub is_gone : ℕ → List ℕ → Bool
is_gone h gone = any (λ k. k == h) gone

-- self.gone.add(h)
abbrev pub add_gone : ℕ → List ℕ → List ℕ
add_gone h gone = if is_gone h gone then gone else h ∷ gone

-- self.gone.discard(h)
abbrev pub discard : ℕ → List ℕ → List ℕ
discard h gone = filter (λ k. not (k == h)) gone

abbrev pub byte_is : List ℕ → ℕ → ℕ → Bool
byte_is [] i want = false
byte_is (b ∷ bs) zero want = b == want
byte_is (b ∷ bs) (suc i) want = byte_is bs i want

unfoldable pub claim : Device → List ℕ → Device
claim dev cmd =
    if byte_is cmd 1 0x25 || list_eq cmd (0x03 ∷ 0x23 ∷ 0xff ∷ [])
    then dev
    else record dev { sessions = map (λ e. (e.0, record e.1 { claimed = true })) dev.sessions }

-- The violation stands last in the list.
unfoldable pub check_handle : Device → List ℕ → Device
check_handle dev (b0 ∷ op ∷ h ∷ rest) =
    if is_gone h dev.gone && not (is_present (session_of h dev.sessions))
    then record dev { violations = dev.violations ++ (gone_handle op h ∷ []) }
    else dev
check_handle dev _ = dev

-- self.slow.get(op, FAST), and NEVER for a command that never completes
unfoldable pub slow_of : ℕ → List (ℕ × Delay) → Delay
slow_of op [] = fast
slow_of op ((k, d) ∷ ds) = let rest = slow_of op ds in if k == op then d else rest

abbrev pub is_never : ℕ → Device → Bool
is_never op dev = any (λ k. k == op) dev.never

abbrev pub unless_never : ℕ → Device → Delay → Delay
unless_never op dev d = if is_never op dev then none else d
