-- ===== src/Runs/Devices.antt =====
-- Concrete devices, and a client's reads and writes, for `M3Device` of tools/check_m3_client.py.
use c64_https.Common.{◌≡◌, refl, List, [], ◌∷◌, is_nil, Result, ok, raised, arith}
use c64_https.M3Device.{Device, new_device, st_idle, st_more}
use c64_https.Common.Bytes.{index}
use c64_https.M3Device.Nios.{execute, execute_op, execute_ipaddr}
use c64_https.M3Device.Registers.{write, write_at, try_push, controlled, advance, serve_abort, push}
use c64_https.M3Device.Sound.{IsSound, Step, reads, writes, step, run, run-IsSound}
use c64_https.M3Device.Exchange.{collect, collect-blocks}

-- Write GET_IPADDR, push it, read its status before and after it is done, and a byte of the reply.
abbrev steps : List Step
steps =
    writes 0 0xDF1D 0x03
    ∷ writes 0 0xDF1D 0x05
    ∷ writes 0 0xDF1D 0x00
    ∷ writes 1 0xDF1C 0x01
    ∷ reads 2 0xDF1C
    ∷ reads 3 0xDF1E
    ∷ []

abbrev returned : Result Device → Device
returned (ok dev) = dev
returned (raised e) = new_device

new_device-IsSound : IsSound new_device
new_device-IsSound = ((refl, refl, refl, refl, refl, refl), (omega arith, omega arith, omega arith))

run-IsSound_example : IsSound (returned (run new_device steps))
unfolding run step write write_at try_push controlled advance serve_abort push execute execute_op
    execute_ipaddr index
run-IsSound_example =
    run-IsSound new_device steps (returned (run new_device steps)) new_device-IsSound refl

abbrev replying : Device
replying = record new_device {
  state = st_more;
  response = 1 ∷ 2 ∷ 3 ∷ [];
  blocks = (4 ∷ []) ∷ (5 ∷ 6 ∷ []) ∷ [];
  status = 48 ∷ [];
}

replying-IsSound : IsSound replying
unfolding is_nil
replying-IsSound = ((refl, refl, refl, refl), (omega arith, omega arith, omega arith))

collect-blocks_example :
    (end : Device) × (collect 3 replying 7
      ≡ ok (end, (1 ∷ 2 ∷ 3 ∷ []) ∷ (4 ∷ []) ∷ (5 ∷ 6 ∷ []) ∷ []))
    × (end.state ≡ st_idle)
    × (end.violations ≡ [])
collect-blocks_example = collect-blocks replying 7 (refl, refl, refl) replying-IsSound refl refl
