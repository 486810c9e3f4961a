-- ===== src/Outbound.antt =====
-- `do_outbound_script_packet` of app/src/main/cpp/run_packet.c up to the comparison: sniffing the
-- kernel's packets and collecting the fragments of the script's packet. The device is the list of the
-- packets that it will give. Since there is one socket under test, a packet for another one than the
-- expected cannot be found.
pub mod Fragments
pub mod Loop
use qo_smos.Prelude.{
  ℕ, zero, suc, ◌+◌, ◌-◌, Bool, true, false, not, ◌&&◌, ◌||◌, List, [], ◌∷◌, ◌++◌, map, Option,
  none, some, ltb, ◌==◌, if◌then◌else◌, length,
}
use qo_smos.Socket.{
  passive_packet_received, same_phase, Socket, TcpInfo, Seen, Direction, direction_inbound,
  direction_outbound, is_equal_tuple, find_socket_for_live_packet, tcp_convert_seq_number,
  remote_seq_live_to_script_offset, expect_step, sniffed_step,
}
use qo_smos.Socket.Creation.{Run, find_connect_for_live_packet}
use qo_smos.Options.Sack.{Offset, offset_to, offset_sack_blocks}
use qo_smos.Verify.Fields.{
  Verdict, status_ok, status_err, aborted, Difference, fragment_payload, Layer, tcp, Compared,
}
use qo_smos.Verify.{◌also◌, only_if, verify_outbound_live_headers}

-- A sniffed packet: what identifies it, its fields for comparisons, and its bytes with the place of
-- the TCP options.
pub record Live : Type 0 where
  pub seen : Seen
  pub compared : Compared
  pub buffer : List ℕ
  pub options_start : ℕ
  pub options_end : ℕ

abbrev pub packet_payload_len : Live → ℕ
packet_payload_len packet = packet.compared.payload_len

unfoldable pub verify_packet_fragments : Live → Live → ℕ → ℕ → ℕ → Verdict
verify_packet_fragments current previous current_payload sniffed_payload expected_total_payload =
    verify_outbound_live_headers current.compared previous.compared false
    also only_if
        (ltb current_payload (expected_total_payload - sniffed_payload)
          && not (current_payload == packet_payload_len previous))
        (status_err fragment_payload)

-- What a round of the sniffing gives: `known` for a packet that the socket sent, else `connecting` for the first one of a connection, which changes the run.
abbrev pub sniffed_by : {A : Type 0} → Option Direction → Option Run → A → (Run → A) → A → A
sniffed_by (some direction_outbound) connect known connecting ignored = known
sniffed_by _ (some run) known connecting ignored = connecting run
sniffed_by _ none known connecting ignored = ignored

-- The loop of `sniff_outbound_live_packet`: the packet, with the packets behind it; `none` is an error of the device.
unfoldable pub sniff_outbound_live_packet : Run → List Live → Option (Run × Live × List Live)
unfolding find_socket_for_live_packet find_connect_for_live_packet
sniff_outbound_live_packet run [] = none
sniff_outbound_live_packet run (packet ∷ packets) =
    let rest = sniff_outbound_live_packet run packets in
    sniffed_by (find_socket_for_live_packet run.socket_under_test packet.seen)
      (find_connect_for_live_packet run packet.seen) (some (run, packet, packets))
      (λ run'. some (run', packet, packets)) rest

-- The converted numbers in the TCP header among those compared.
abbrev with_numbers : TcpInfo → Layer → Layer
with_numbers info (tcp header) = tcp (record header { seq = info.seq; ack_seq = info.ack_seq })
with_numbers info other = other

unfoldable pub convert : Socket → Live → TcpInfo → Option Live
unfolding tcp_convert_seq_number remote_seq_live_to_script_offset offset_sack_blocks
convert socket packet info =
    let info' = tcp_convert_seq_number socket info in
    elim (offset_sack_blocks packet.buffer packet.options_start packet.options_end
      (remote_seq_live_to_script_offset socket info.syn)) [
        | offset_to buffer ↦ some (record packet {
          seen = record packet.seen { tcp = some info' };
          compared = record packet.compared {
            headers = map (with_numbers info') packet.compared.headers;
          };
          buffer = buffer;
        })
        | _ ↦ none
      ]

-- The list of sniffed packets with its end, and the two counters.
pub record Collected : Type 0 where
  pub packets : List Live
  pub last : Option Live
  pub packet_count : ℕ
  pub sniffed_payload_len : ℕ

pub data Failure : Type 0 where
  receive_failed no_socket bad_options no_tcp_header : Failure
  bad_fragment : Difference → Failure
  fragment_aborted : Failure
  bad_payload : ℕ → ℕ → Failure

pub data Collecting (A : Type 0) : Type 0 where
  going : A → Collecting A
  failed : Failure → Collecting A

-- The packet `sniffed` behind those collected; it starts anew after a packet of another connection.
unfoldable pub collect : ℕ → Collected → Live → Collecting Collected
unfolding is_equal_tuple verify_packet_fragments
collect expected c sniffed =
    let live_payload = packet_payload_len sniffed in
    let first : Collected = record {
      packets = sniffed ∷ [];
      last = some sniffed;
      packet_count = 1;
      sniffed_payload_len = live_payload;
    } in
    elim c.last [
      | none ↦ going first
      | some previous ↦
          if not (is_equal_tuple previous.seen.tuple sniffed.seen.tuple)
          then going first
          else elim (verify_packet_fragments sniffed previous live_payload c.sniffed_payload_len
              expected) [
                | status_err d ↦ failed (bad_fragment d)
                | aborted ↦ failed fragment_aborted
                | status_ok ↦ going (record {
                  packets = c.packets ++ (sniffed ∷ []);
                  last = some sniffed;
                  packet_count = c.packet_count + 1;
                  sniffed_payload_len = c.sniffed_payload_len + live_payload;
                })
              ]
    ]

infixl 5 ◌>>=◌
abbrev ◌>>=◌ : {A B : Type 0} → Collecting A → (A → Collecting B) → Collecting B
going a >>= f = f a
failed e >>= f = failed e

-- The socket's step at a sniffed SYN-ACK. A packet without a TCP header is a null pointer there.
unfoldable pub note_synack : Socket → Seen → Seen → Collecting Socket
unfolding sniffed_step same_phase
note_synack socket script live = elim script.tcp [
  | none ↦ going socket
  | some info ↦
      if same_phase socket.state passive_packet_received && (info.syn && info.ack)
      then elim live.tcp [
        | some live_info ↦ going (sniffed_step socket info live_info)
        | none ↦ failed no_tcp_header
      ]
      else going socket
]

unfoldable pub converted : Socket → Live → Collecting Live
unfolding convert
converted socket packet = elim packet.seen.tcp [
  | none ↦ going packet
  | some info ↦ elim (convert socket packet info) [
    | none ↦ failed bad_options
    | some packet' ↦ going packet'
  ]
]

pub record Settings : Type 0 where
  pub strict_segments : Bool
  pub is_wire_server : Bool

pub data Outcome : Type 0 where
  matched : Run → List Live → Outcome
  stopped : Failure → Outcome
  unfinished : Outcome

unfoldable pub received : Run → List Live → Collecting (Run × Live × List Live)
unfolding sniff_outbound_live_packet
received run device = elim (sniff_outbound_live_packet run device) [
  | none ↦ failed receive_failed
  | some r ↦ going r
]

-- A packet is found only for the socket under test, so there is one.
unfoldable pub under_test : Run → Collecting Socket
under_test run = elim run.socket_under_test [ none ↦ failed no_socket | some socket ↦ going socket ]

-- One round of the loop: the run, the packets that the device still has, and those collected.
unfoldable pub round :
    Seen → ℕ → Run → List Live → Collected → Collecting (Run × List Live × Collected)
unfolding received under_test note_synack converted collect
round script expected run device c = do
  (run', packet, rest) ← received run device
  socket ← under_test run'
  socket' ← note_synack socket script packet.seen
  sniffed ← converted socket' packet
  c' ← collect expected c sniffed
  going (record run' { socket_under_test = some socket' }, rest, c')

-- The test of the loop, and the check of the sum behind it.
unfoldable pub after_round :
    Settings
    → ℕ
    → (Run → List Live → Collected → Outcome)
    → Collecting (Run × List Live × Collected)
    → Outcome
after_round settings expected loop (failed e) = stopped e
after_round settings expected loop (going (run, rest, c)) =
    if ltb c.sniffed_payload_len expected
      && (not settings.strict_segments || settings.is_wire_server)
    then loop run rest c
    else if c.sniffed_payload_len == expected
    then matched run c.packets
    else stopped (bad_payload expected c.sniffed_payload_len)

unfoldable pub collect_loop : Settings → Seen → ℕ → ℕ → Run → List Live → Collected → Outcome
unfolding round after_round
collect_loop settings script expected zero run device c = unfinished
collect_loop settings script expected (suc fuel) run device c =
    after_round settings expected (collect_loop settings script expected fuel)
      (round script expected run device c)

unfoldable pub expected_by : Socket → Seen → Socket
unfolding expect_step
expected_by socket script = elim script.tcp [ none ↦ socket | some info ↦ expect_step socket info ]

abbrev pub nothing_collected : Collected
nothing_collected = record { packets = []; last = none; packet_count = 0; sniffed_payload_len = 0 }

-- Each round takes a packet from the device, and the round that finds none ends the loop.
unfoldable pub sniff_script_packet : Settings → Run → Socket → Live → List Live → Outcome
unfolding collect_loop expected_by
sniff_script_packet settings run socket script device =
    collect_loop settings script.seen (packet_payload_len script) (suc (length device))
      (record run { socket_under_test = some (expected_by socket script.seen) }) device
      nothing_collected
