-- ===== src/Lib.antt =====
-- c64-https is an HTTPS client for the Commodore 64, with tools in Python that mirror its formats, sign
-- its data and judge its runs. This library models the logic of those tools and proves what they promise.
--
-- The parts, and how they meet:
-- - tools/trust_store.py is the host's mirror of the trust store that the client keeps on disk: records of
-- 64 bytes, a file with a header and a checksum, two slot files of which `select` takes one, `lookup`,
-- and `save`, which writes the slot that was not taken. TrustStore has the constants, `host_key`,
-- `checksum`, `Record.pack` and `Record.unpack`, `encode` and `decode`; TrustStore/Slots has
-- `slot_result`, `serial_newer`, `select`, `lookup` and `save`. TrustStore/Codec, Files, RoundTrip,
-- Accepted and Refusals are about the file, TrustStore/Serial about the order of generations, and
-- TrustStore/Slots/Choice, Safety, Records, Saved, Durable and Saving about the two slots.
-- - tools/trust_bundle.py makes, signs, parses and verifies a bundle of pins, whose records are those of
-- the store. TrustBundle has its operations, TrustBundle/Regex the pattern of host names, and
-- TrustBundle/Sorting, Format, Signed, Verified and Canonical the theorems.
-- - tools/http_body_checks.py reads the client's parser state over DMA, judges the body, stops a poll loop
-- early, and decides the exit code. BodyChecks has `decode_body_state` and the checks, BodyChecks/Verdicts
-- the class `Verdict` of tools/ip65_hw_checks.py, BodyChecks/Exit `decide_exit`, BodyChecks/Stops
-- `should_stop_early`, `handshake_failed`, `StallTracker`, `early_stop_step`, `close_confirmed` and
-- `stall_config_error`, and BodyChecks/Seconds the floats that stand for seconds.
-- - tools/_reu_model.py is the RAM expansion unit that the 6502 interpreter of the tools sees. Reu has
-- `REU.read`, `REU.write`, `REU._execute` and `Bus`, Reu/Transfer what a transfer moves and Reu/Flags the status.
-- - tools/ip65_hw_checks.py judges a run on real hardware by what a tap on the cable captured and by what was
-- read from the machine's memory. HardwareChecks/Capture has `parse_pcap` and `_decode_frame`,
-- HardwareChecks/Streams `tcp_streams`, HardwareChecks/Records `parse_tls_records`, HardwareChecks/Names
-- `client_hello_sni` and `dns_question_names`, HardwareChecks/Wire the checks on frames,
-- HardwareChecks/Leak `longest_run` and `check_body_not_on_wire`, and HardwareChecks/Machine and
-- Memory the checks on memory. Below each stand its theorems: Capture/Written and Padding, Streams/Assembly, Records/Framing, Names/Questions and
-- Hello, Wire/Stations, Leak/Search, Longest and Clean, Machine/Config and Addresses.
-- HardwareChecks/Positions is about reading at an offset.
-- - tools/check_m3_client.py has `M3Device`, the network processor that the checks of the client run
-- against. M3Device has its state, M3Device/Replies and Nios `_execute` and what it calls, M3Device/Registers
-- `_advance`, `read` and `write`; M3Device/Kept shows that commands leave the registers alone, M3Device/Sound
-- has the invariant, and M3Device/Exchange a client that reads a reply.
-- - tools/https_e2e/evil_listener.py is a TLS 1.3 server, written out by hand, that can send a wrong Finished
-- or leave its certificate out. EvilListener has its constants and its helpers for the wire,
-- EvilListener/Schedule the key schedule, EvilListener/Keys `TrafficKeys`, EvilListener/Framing
-- `frame_handshake_stream`, EvilListener/Reader `RecordReader`, EvilListener/ClientHello
-- `parse_client_hello`, EvilListener/Messages the builders of messages, EvilListener/Serving what a run
-- changes and the statements that change it, EvilListener/Flight the server's flight, EvilListener/Client the
-- two loops on what the client sends, and EvilListener/Serve `serve_one`, composed of these. Below each
-- stand its theorems: Schedule/Expanded and Derived, Keys/Nonces and Sealed, Framing/Fragments, Reader/Cut,
-- ClientHello/Fuel, Entries, Offered and Parsed, Messages/Sizes, Flight/Opened, Sent and Whole, Client/Smaller
-- and Watched, and Serve/Hello, Composed and Whole.
-- - tools/package/listener/gen_certs.py makes the certificates of the tests. GenCerts has its DER encoder as far
-- as the host names need it, and `san_dns_names`; GenCerts/Lengths and Values are about one value of DER and
-- GenCerts/Names about the names.
-- Common has what these share, and Runs the runs on concrete values.
--
-- Bytes are numbers and byte strings lists of them; a theorem that needs each to be below 256 says so.
-- A Python exception is the other case of `Result`, with the message left out. Every loop of
-- the trust store and of the bundle is over a list or a number that the data bounds: `decode` keeps at most
-- 2,065 bytes of its input, and it and `parse` read records only once their count agrees with the length.
-- The loops over a capture, over the records of TLS, over extensions and over labels have as much fuel as there are
-- bytes; a round of each takes a byte at least, and 16, 5, 4 and 1 in this order. The search of
-- `longest_run` has fuel for its interval, which every round makes shorter. The client of M3Device/Exchange has
-- fuel for each byte of a block and for each block.
-- The loops of `parse_client_hello` have fuel for each byte too, of which a round takes four, and give
-- `out_of_fuel`, which no code raises, should it run out; those on a client's
-- records have it for each byte and each arrival, of which a round takes five bytes at least, the arrivals being
-- finitely many, while the code goes on for as long as a client sends records that change the cipher; the loop of
-- `_hkdf_expand` adds 32 bytes in a round and has fuel for each byte asked for, and a cut of a stream takes a
-- byte in a round.
--
-- Parameters: SHA-256 is a record `Hash` of a function on byte strings with digests of 32 bytes, and ECDSA
-- a record `Ecdsa` of its three operations, of which a signature verifies under the key that made it and
-- has its two numbers in range. EvilListener/Primitives has
-- SHA-256, HMAC, ChaCha20-Poly1305, the signature and the x25519 exchange of the server's own keys, as the
-- libraries document them: the lengths of what they return, and that a sealed text opens under the key, nonce and
-- associated data that sealed it. A socket is the sequence of what `recv` gives, and the random bytes,
-- the certificate and the x25519 share are fields of `Server`. The other device behind `Bus` is two functions,
-- and `read_ip65_config` takes the transport as a function. The runs put small functions in their place.
--
-- Not modelled: the texts of messages, evidence that verdicts carry, negative integers, files, sockets,
-- PEM and the command lines. A float of seconds is a whole number of milliseconds of either sign, an
-- infinity or NaN, and a clock reads whole milliseconds. The times of
-- captured frames are whole nanoseconds. `lower` is that of ASCII. The host names, sources and diagnoses that
-- verdicts of the hardware checks report are evidence too. `M3Device` counts units, its clock is an argument of
-- each read and write, and the loops of the checks that drive the client's code on it are not modelled, nor
-- are `provenance`, `rig_const` and `net_error_table`, which read files and run git. A memory of the REU is a function from addresses
-- to bytes. What a poll reads from the machine is an argument
-- of the poll, and the model lists which reads it made. Of evil_listener.py, `serve_one_connection` and the self-test are not modelled, nor the texts
-- of its result but their kinds; of gen_certs.py, the points of the curve, the signature, the other fields of a
-- certificate and PEM. The assembly sources, the rigs and the tests are
-- not modelled.
pub mod BodyChecks
pub mod Common
pub mod EvilListener
pub mod GenCerts
pub mod HardwareChecks
pub mod M3Device
pub mod Reu
pub mod Runs
pub mod TrustBundle
pub mod TrustStore
