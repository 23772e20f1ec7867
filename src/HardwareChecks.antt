-- ===== src/HardwareChecks.antt =====
-- tools/ip65_hw_checks.py: the checks on a run on real hardware, over what a tap on the cable captured
-- and what was read from the machine's memory. `Capture` has the frames of a pcap file, `Streams` the
-- reassembly of connections, `Records` the framing of TLS, `Names` the two parsers of host names, `Wire`
-- the checks on frames, `Leak` the search for plaintext, `Machine` the
-- checks on the machine's addresses, and `Memory` those on the rest of its memory.
pub mod Capture
pub mod Positions
pub mod Streams
pub mod Records
pub mod Names
pub mod Wire
pub mod Leak
pub mod Machine
pub mod Memory
