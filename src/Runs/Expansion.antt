-- ===== src/Runs/Expansion.antt =====
-- Runs of the RAM expansion unit on small transfers.
use c64_https.Common.{◌+◌, ◌%◌, ◌≡◌, refl, true, if◌then◌else◌, ◌==◌, [], arith}
use c64_https.Reu.{Reu, execute}
use c64_https.Reu.Transfer.{IsCommand, IsReady, fetch_back, stash_window}

-- Three bytes at address 65,535 of the machine and at 1 of a unit of 1,024 bytes.
abbrev unit : Reu
unit = record {
  ram = λ x. x % 7;
  mem = λ x. 0;
  size = 1024;
  present = true;
  absent_status = 0;
  regs = λ a.
      if a == 2 then 255 else if a == 3 then 255 else if a == 4 then 1 else if a == 7 then 3 else 0;
  status = 0;
  log = [];
}

unit-IsReady : IsReady unit
unit-IsReady = record {
  low = omega arith;
  high = omega arith;
  counting = refl;
  some_room = λ e. omega arith;
}

stash_now : IsCommand 0x90 0
stash_now = ((λ e. omega arith), refl)

fetch_now : IsCommand 0xB1 1
fetch_now = ((λ e. omega arith), refl)

fetch_back_example : (execute (execute unit 0x90).0 0xB1).0.ram 65535 ≡ 65535 % 7
fetch_back_example = fetch_back unit 0x90 0xB1 65535 stash_now fetch_now unit-IsReady (omega arith)

stash_window_example :
    ((execute unit 0x90).0.mem ((1 % 1024 + 2) % 1024) ≡ (65535 + 2) % 65536 % 7)
    × ((execute unit 0x90).0.mem 4 ≡ 0)
stash_window_example =
    stash_window unit 0x90 2 4 stash_now unit-IsReady (omega arith) (omega arith)
      (λ i h e. omega arith)
