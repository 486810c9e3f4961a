-- ===== src/Lib.antt =====
-- Verification of the packet engine of QoSMos (app/src/main/cpp), the C library that parses, builds,
-- checks and compares packets for scripted tests of a network stack.
--
-- The parts and how they meet. A run reads a script of packets and system calls. A packet that the
-- script injects is mapped from the script's addresses and sequence numbers to live ones and given
-- its checksums; a packet that the kernel sends is sniffed, parsed into its headers, mapped back and
-- compared with the script's. The parser verifies the IPv4 checksum; the mapping of timestamps keeps
-- a hash map from script values to live ones; the timestamps stand in the TCP options.
--
-- Files:
--   Prelude    tests, lists, bits and words on native numbers, shared by all parts
--   Murmur     MurmurHash3_x86_32 of hash.c
--   HashMap    hash_map.c: hash_map_new, hash_map_link, hash_map_grow, hash_map_insert,
--              hash_map_set, hash_map_get; the bucket array is a list of chains
--   Checksum   checksum.c: ip_checksum_partial, ip_checksum_fold, ipv4_checksum,
--              tcp_udp_v4_checksum, tcp_udp_v6_checksum; the filling in of a field as in
--              packet_checksum.c
--   Packet     struct packet of packet.h, with packet_append_header, packet_copy and
--              packet_encapsulate of packet.c and the functions that finish a header
--   Parser     packet_parser.c, one definition per function; the tests that a function makes before
--              it records a header are a check_ definition of their own
--   Options    tcp_options.c, tcp_options_iterator.c, and find_tcp_timestamp of run_packet.c
--   Verify     the verify_ functions of run_packet.c on headers, flow labels and TCP options, and
--              the result of verify_outbound_live_packet
--   Socket     struct socket of socket.h with its tuples and sequence offsets; how run_packet.c
--              finds, creates and advances the socket under test
--   Timing     the times of events in run.c and run.h: conversions, verify_time, relative times, the
--              wait for an event, and the loop of run_script over handlers of the events
--   Outbound   do_outbound_script_packet of run_packet.c up to the comparison: sniffing, and the
--              collection of fragments
--   Wire       messages of wire_conn.c between wire client and server, over partial reads and writes
--   Address    addresses and prefixes of ip_address.c and ip_prefix.c
--   Mpls       label stack entries and stacks of mpls.h and mpls_packet.c
--   Script     expressions of script.c: symbols, strings with escape codes, evaluation
--   Descriptors  the list of file descriptors, fd_state.h, and the run_syscall_ functions of
--              run_system_call.c
--   Calls      run_system_call.c: arguments, begin_syscall and end_syscall, the handlers of sixteen
--              calls; Thread has the steps of the main thread and of the thread for blocking calls,
--              without the lock and the signals that wake a waiting thread
--   Building   packets of udp_packet.c, tcp_packet.c, icmp_packet.c and ip_packet.c, set_headers_tuple and
--              set_packet_tuple of socket.h, map_inbound_icmp_packet of run_packet.c, and checksum_packet of
--              packet_checksum.c
--   Tests      runs on concrete inputs, and each theorem applied to one
--
-- Modelling. A buffer is the list of its bytes and a pointer into it an offset; u32 and u64
-- arithmetic keeps its wrap-around (Prelude.Words); multi-byte reads through u16 and u32 pointers are
-- little-endian, as on the application's platforms, and network fields big-endian. Errors are values:
-- a Result, a Verdict, a Found or an Option. A read outside a buffer, a failed assert and the end of
-- fuel are outcomes of their own.
--
-- Bounds and fuel. The bucket count doubles at most 30 times, up to 2 ^ 30. A 64-bit sum folds to 32
-- bits in two rounds, and these to 16 bits in two. The parser's nesting has fuel 7: a nested header
-- costs one of the 6 places for headers. A label stack and a walk over TCP options have the end of
-- the packet as fuel, since each step moves on by a byte at least.
--
-- The loop that collects fragments has fuel for each packet of the device and one more round. The
-- loop over a script's events has fuel for each event and for the end of the list. Times are
-- signed numbers without bounds, since the overflow of an s64 is undefined in C.
--
-- Not modelled: devices, the calls with vectors and messages, the parser of scripts, and the server and client of
-- the wire protocol, which are input and output; the text forms of packets, the mapping of
-- live values in the bytes of TCP packets, and do_inbound_script_packet; the application's Java and C++ code.
-- What the system answers to a call is a parameter of Calls, and the values of symbols are one of
-- Script. The port that the system picks is a parameter of the definitions in Socket.Creation, and how each
-- read and write ends is one in Wire.
pub mod Prelude
pub mod Murmur
pub mod HashMap
pub mod Checksum
pub mod Packet
pub mod Parser
pub mod Options
pub mod Verify
pub mod Socket
pub mod Timing
pub mod Outbound
pub mod Wire
pub mod Address
pub mod Mpls
pub mod Script
pub mod Descriptors
pub mod Calls
pub mod Building
pub mod Tests
