-- ===== src/M3Device/Kept.antt =====
-- tools/check_m3_client.py: the commands of `M3Device` leave its registers alone.
use c64_https.Common.{
  ℕ, ◌+◌, Bool, not, ◌&&◌, ◌||◌, Option, none, some, List, [], ◌∷◌, ◌++◌, ltb, leb, ◌==◌, ◌*◌,
  length, drop, list_eq, Result, ok, raised, ◌>>=◌, guard, value_error, ◌≡◌, refl, ◌∙◌, if_both,
}
use c64_https.Common.Bytes.{index}
use c64_https.M3Device.{
  Handshake, Delay, Blocks, Device, OpenResult, refuse, refusedata, oklong, okshort, okversion,
  okempty, open_ok, Event, data_event, idle_event, end_event, Session,
}
use c64_https.M3Device.Nios.{
  execute, execute_op, execute_close, execute_ipaddr, execute_info, execute_release, execute_open,
  execute_read, execute_write, read_event, read_session, write_session, answered, length_bytes,
  info_record, untracks, handle_block, unclaimed, version_block,
}
use c64_https.M3Device.Replies.{
  Executed, check_handle, claim, session_of, is_gone, is_present, byte_is, not_ours, send_error,
  ok_status, put_session, unless_never, slow_of, to_bytes, answer, add_gone,
}

-- The register file: what the commands leave alone.
pub record Registers : Type 0 where
  pub state : Handshake
  pub new_command : Bool
  pub blocks : Blocks
  pub response : List ℕ
  pub status : List ℕ
  pub rp : ℕ
  pub sp : ℕ
  pub accepts : ℕ
  pub accepts_on_more : ℕ

abbrev pub registers : Device → Registers
registers dev = record {
  state = dev.state;
  new_command = dev.new_command;
  blocks = dev.blocks;
  response = dev.response;
  status = dev.status;
  rp = dev.rp;
  sp = dev.sp;
  accepts = dev.accepts;
  accepts_on_more = dev.accepts_on_more;
}

-- A command that returns leaves the registers as they are.
abbrev pub Keeps : Device → Executed → Type 0
Keeps dev (ok r) = registers r.0 ≡ registers dev
Keeps dev (raised e) = Unit {0}

Keeps->>= :
    {A : Type 0} (dev : Device) (m : Result A) (f : A → Executed)
    → ((a : A) → Keeps dev (f a))
    → Keeps dev (m >>= f)
Keeps->>= dev (ok a) f h = h a
Keeps->>= dev (raised e) f h = tt

execute_close-Keeps :
    (dev : Device) (cmd : List ℕ) (delay : Delay) → Keeps dev (execute_close dev cmd delay)
unfolding execute_close
execute_close-Keeps dev cmd delay =
    Keeps->>= dev (index cmd 2) _
      λ h. if_both (Keeps dev) (is_present (session_of h dev.sessions)) _ _ refl refl

execute_ipaddr-Keeps :
    (dev : Device) (cmd : List ℕ) (delay : Delay) → Keeps dev (execute_ipaddr dev cmd delay)
unfolding execute_ipaddr
execute_ipaddr-Keeps dev cmd delay =
    Keeps->>= dev (index cmd 2) _ λ n. if_both (Keeps dev) (n == 0) _ _ refl refl

execute_info-Keeps :
    (dev : Device) (cmd : List ℕ) (now : ℕ) (delay : Delay)
    → Keeps dev (execute_info dev cmd now delay)
unfolding execute_info
execute_info-Keeps dev cmd now delay = if_both (Keeps dev) (not dev.tls) _ _ refl (
    if_both (Keeps dev) (not (length cmd == 3)) _ _ refl (
      if_both (Keeps dev) (byte_is cmd 2 0xFF) _ _
        (Keeps->>= dev (info_record dev now) _ λ rec. refl) refl))

execute_release-Keeps :
    (dev : Device) (cmd : List ℕ) (delay : Delay) → Keeps dev (execute_release dev cmd delay)
unfolding execute_release
execute_release-Keeps dev cmd delay = if_both (Keeps dev) (not dev.tls) _ _ refl (
    if_both (Keeps dev) (not (length cmd == 2)) _ _ refl
      (Keeps->>= dev (to_bytes (unclaimed dev ∷ [])) _ λ block. refl))

execute_open-Keeps :
    (dev : Device) (kind : OpenResult) (d : Delay) → Keeps dev (execute_open dev kind d)
unfolding execute_open
execute_open-Keeps dev (refuse status) d = refl
execute_open-Keeps dev (oklong n) d =
    Keeps->>= dev (to_bytes (handle_block dev.next_handle)) _
      λ block. Keeps->>= dev (guard (leb 8 n) value_error) _ λ t. refl
execute_open-Keeps dev (refusedata status) d =
    Keeps->>= dev (to_bytes (handle_block dev.next_handle)) _ λ block. refl
execute_open-Keeps dev (okshort n) d =
    Keeps->>= dev (to_bytes (handle_block dev.next_handle)) _ λ block. refl
execute_open-Keeps dev (okversion n) d =
    Keeps->>= dev (to_bytes (version_block dev.next_handle n)) _ λ block. refl
execute_open-Keeps dev okempty d = refl
execute_open-Keeps dev (open_ok h) d = Keeps->>= dev (to_bytes (handle_block h)) _ λ block. refl

read_event-Keeps :
    (dev : Device) (h : ℕ) (s : Session) (maxlen : ℕ) (d : Delay) (rx : List Event)
    → Keeps dev (read_event dev h s maxlen d rx)
unfolding read_event
read_event-Keeps dev h s maxlen d [] = refl
read_event-Keeps dev h s maxlen d (data_event payload ∷ rx) = refl
read_event-Keeps dev h s maxlen d (idle_event ∷ rx) = refl
read_event-Keeps dev h s maxlen d (end_event status ∷ rx) =
    if_both (λ t. registers t ≡ registers dev) (untracks status) _ dev refl refl

read_forced :
    (dev : Device) (h : ℕ) (s : Session) (maxlen : ℕ) (d : Delay)
    (forced : Option (Blocks × List ℕ))
    → Keeps dev (elim forced [
      | some given ↦ answer (record dev { forced_blocks = none }) given.0 given.1 d
      | none ↦ read_event dev h s maxlen d s.rx
    ])
read_forced dev h s maxlen d none = read_event-Keeps dev h s maxlen d s.rx
read_forced dev h s maxlen d (some given) = refl

write_given :
    (dev : Device) (h : ℕ) (s : Session) (payload : List ℕ) (delay : Delay)
    (result : Option (List ℕ × List ℕ))
    → Keeps dev (elim result [
      | some given ↦ answer dev (given.0 ∷ []) given.1 delay
      | none ↦
          answer
            (record dev {
              writes = dev.writes ++ ((h, payload) ∷ []);
              sessions = put_session h (answered s) dev.sessions;
            })
            (length_bytes (length payload) ∷ [])
            ok_status
            delay
    ])
write_given dev h s payload delay none = refl
write_given dev h s payload delay (some given) = refl

read_found :
    (dev : Device) (h maxlen : ℕ) (d : Delay) (found : Option Session)
    → Keeps dev (elim found [
      | none ↦
          answer (record dev { gone = add_gone h dev.gone }) ((0xff ∷ 0xff ∷ []) ∷ []) not_ours d
      | some s ↦ read_session dev h s maxlen d
    ])
read_found dev h maxlen d none = refl
read_found dev h maxlen d (some s) = read_forced dev h s maxlen d dev.forced_blocks

write_found :
    (dev : Device) (h : ℕ) (payload : List ℕ) (delay : Delay) (found : Option Session)
    → Keeps dev (elim found [
      | none ↦ answer dev ((0xff ∷ 0xff ∷ []) ∷ []) send_error delay
      | some s ↦ write_session dev h s payload delay
    ])
write_found dev h payload delay none = refl
write_found dev h payload delay (some s) = write_given dev h s payload delay dev.write_result

execute_read-Keeps : (dev : Device) (cmd : List ℕ) (d : Delay) → Keeps dev (execute_read dev cmd d)
unfolding execute_read
execute_read-Keeps dev cmd d = Keeps->>= dev (index cmd 2) _ λ h.
    Keeps->>= dev (index cmd 3) _ λ lo. Keeps->>= dev (index cmd 4) _ λ hi.
      if_both (Keeps dev) (lo + 256 * hi == 0 || ltb 1472 (lo + 256 * hi)) _ _ refl
        (read_found dev h (lo + 256 * hi) d (session_of h dev.sessions))

execute_write-Keeps :
    (dev : Device) (cmd : List ℕ) (delay : Delay) → Keeps dev (execute_write dev cmd delay)
unfolding execute_write
execute_write-Keeps dev cmd delay =
    Keeps->>= dev (index cmd 2) _
      λ h. write_found dev h (drop 3 cmd) delay (session_of h dev.sessions)

check_handle-registers :
    (dev : Device) (cmd : List ℕ) → registers (check_handle dev cmd) ≡ registers dev
unfolding check_handle
check_handle-registers dev [] = refl
check_handle-registers dev (b0 ∷ []) = refl
check_handle-registers dev (b0 ∷ op ∷ []) = refl
check_handle-registers dev (b0 ∷ op ∷ h ∷ rest) =
    if_both (λ t. registers t ≡ registers dev)
      (is_gone h dev.gone && not (is_present (session_of h dev.sessions))) _ dev refl refl

claim-registers : (dev : Device) (cmd : List ℕ) → registers (claim dev cmd) ≡ registers dev
unfolding claim
claim-registers dev cmd =
    if_both (λ t. registers t ≡ registers dev)
      (byte_is cmd 1 0x25 || list_eq cmd (0x03 ∷ 0x23 ∷ 0xff ∷ [])) dev _ refl refl

Keeps-from :
    (dev dev' : Device) (m : Executed) → registers dev' ≡ registers dev → Keeps dev' m → Keeps dev m
Keeps-from dev dev' (ok r) e h = h ∙ e
Keeps-from dev dev' (raised f) e h = tt

execute_op-Keeps :
    (dev : Device) (cmd : List ℕ) (op now : ℕ) (delay : Delay)
    → Keeps dev (execute_op dev cmd op now delay)
unfolding execute_op
execute_op-Keeps dev cmd op now delay =
    let checked : Device = check_handle dev cmd in
    let same = check_handle-registers dev cmd in
    let reading : Delay = unless_never op dev dev.read_delay in
    let opening : Delay = unless_never op dev dev.open_delay in
    if_both (Keeps dev) (op == 0x09) _ _
      (Keeps-from dev checked (execute_close checked cmd delay) same
        (execute_close-Keeps checked cmd delay))
      (if_both (Keeps dev) (op == 0x05) _ _ (execute_ipaddr-Keeps dev cmd delay) (
        if_both (Keeps dev) (op == 0x23) _ _ (execute_info-Keeps dev cmd now delay) (
          if_both (Keeps dev) (op == 0x25) _ _ (execute_release-Keeps dev cmd delay) (
            if_both (Keeps dev) (op == 0x21) _ _
              (if_both (Keeps dev) (not dev.tls) _ _ refl
                (execute_open-Keeps (record dev { last_open = some cmd }) dev.open_result opening))
              (if_both (Keeps dev) (op == 0x10) _ _
                (Keeps-from dev checked (execute_read checked cmd reading) same
                  (execute_read-Keeps checked cmd reading))
                (if_both (Keeps dev) (op == 0x11) _ _
                  (Keeps-from dev checked (execute_write checked cmd delay) same
                    (execute_write-Keeps checked cmd delay))
                  refl))))))

pub execute-Keeps : (dev : Device) (cmd : List ℕ) (now : ℕ) → Keeps dev (execute dev cmd now)
unfolding execute
execute-Keeps dev [] now = refl
execute-Keeps dev (b0 ∷ []) now = refl
execute-Keeps dev (b0 ∷ op ∷ rest) now =
    let cmd : List ℕ = b0 ∷ op ∷ rest in
    let delay : Delay = unless_never op dev (slow_of op dev.slow) in
    if_both (Keeps dev) (b0 == 0x03) _ _
      (Keeps-from dev (claim dev cmd) (execute_op (claim dev cmd) cmd op now delay)
        (claim-registers dev cmd) (execute_op-Keeps (claim dev cmd) cmd op now delay))
      refl
