-- ===== src/Socket.antt =====
-- The socket under test: `struct socket` of app/src/main/cpp/socket.h, and how run_packet.c finds it
-- for a packet, creates it, moves it through the handshake, and maps sequence numbers. The test runs
-- one socket at a time, so a pointer to it is its value in the run's state.
pub mod Sequence
pub mod Creation
pub mod Matching
pub mod Handshake
pub mod Timestamps
use qo_smos.Prelude.{
  ℕ, zero, suc, ◌+◌, ◌-◌, ◌%◌, ◌^◌, Bool, true, false, not, ◌&&◌, ◌||◌, List, [], ◌∷◌, Option, none,
  some, ◌==◌, if◌then◌else◌,
}
use qo_smos.Prelude.Words.{add32, sub32, neg32}

-- `enum socket_state_t`
pub data Phase : Type 0 where
  socket_init socket_created passive_listening passive_packet_received : Phase
  passive_synack_sent passive_synack_acked : Phase
  active_connecting active_syn_sent active_syn_acked : Phase

unfoldable pub same_phase : Phase → Phase → Bool
same_phase passive_listening passive_listening = true
same_phase passive_packet_received passive_packet_received = true
same_phase passive_synack_sent passive_synack_sent = true
same_phase active_connecting active_connecting = true
same_phase active_syn_sent active_syn_sent = true
same_phase p q = false

-- `struct endpoint`: the address's bytes, whose number tells the family, and the port in host order
pub record Endpoint : Type 0 where
  pub ip : List ℕ
  pub port : ℕ

pub record Tuple : Type 0 where
  pub src : Endpoint
  pub dst : Endpoint

-- `struct socket_state`
pub record SocketState : Type 0 where
  pub local : Endpoint
  pub local_isn : ℕ
  pub remote : Endpoint
  pub remote_isn : ℕ

-- `struct socket`, without the file descriptors, the timestamps (`Timestamps`), the flow labels and
-- what only resets use
pub record Socket : Type 0 where
  pub state : Phase
  pub protocol : ℕ
  pub script : SocketState
  pub live : SocketState

pub record TcpInfo : Type 0 where
  pub syn : Bool
  pub ack : Bool
  pub seq : ℕ
  pub ack_seq : ℕ

-- What these functions read of a packet; `tuple` is what `get_packet_tuple` gives.
pub record Seen : Type 0 where
  pub tuple : Tuple
  pub protocol : ℕ
  pub tcp : Option TcpInfo
  pub udp : Bool
  pub icmpv4 : Bool
  pub icmpv6 : Bool

pub data Direction : Type 0 where
  direction_inbound direction_outbound : Direction

unfoldable pub is_equal_ip : List ℕ → List ℕ → Bool
is_equal_ip [] [] = true
is_equal_ip (x ∷ xs) (y ∷ ys) = (x == y) && is_equal_ip xs ys
is_equal_ip xs ys = false

unfoldable pub is_equal_endpoint : Endpoint → Endpoint → Bool
unfolding is_equal_ip
is_equal_endpoint a b = is_equal_ip a.ip b.ip && (a.port == b.port)

unfoldable pub is_equal_tuple : Tuple → Tuple → Bool
unfolding is_equal_endpoint
is_equal_tuple a b = is_equal_endpoint a.src b.src && is_equal_endpoint a.dst b.dst

abbrev pub reverse_tuple : Tuple → Tuple
reverse_tuple t = record { src = t.dst; dst = t.src }

abbrev pub socket_get_outbound : SocketState → Tuple
socket_get_outbound s = record { src = s.local; dst = s.remote }

abbrev pub socket_get_inbound : SocketState → Tuple
socket_get_inbound s = record { src = s.remote; dst = s.local }

-- The addresses alone, for ICMP.
unfoldable pub is_equal_ips : Tuple → Tuple → Bool
unfolding is_equal_ip
is_equal_ips a b = is_equal_ip a.dst.ip b.dst.ip && is_equal_ip a.src.ip b.src.ip

unfoldable pub is_icmp_of : Socket → Seen → Bool
is_icmp_of socket packet =
    ((socket.protocol == 1) && packet.icmpv4) || ((socket.protocol == 58) && packet.icmpv6)

unfoldable pub find_socket_for_live_packet : Option Socket → Seen → Option Direction
unfolding is_equal_tuple is_equal_ips is_icmp_of
find_socket_for_live_packet none packet = none
find_socket_for_live_packet (some socket) packet =
    let inbound = socket_get_inbound socket.live in
    let outbound = socket_get_outbound socket.live in
    if is_equal_tuple packet.tuple inbound
      || (is_icmp_of socket packet && is_equal_ips packet.tuple inbound)
    then some direction_inbound
    else if is_equal_tuple packet.tuple outbound
        || (is_icmp_of socket packet && is_equal_ips packet.tuple outbound)
    then some direction_outbound
    else none

unfoldable pub remote_seq_script_to_live_offset : Socket → Bool → ℕ
remote_seq_script_to_live_offset socket is_syn = if is_syn then 0 else socket.live.remote_isn

unfoldable pub remote_seq_live_to_script_offset : Socket → Bool → ℕ
unfolding remote_seq_script_to_live_offset
remote_seq_live_to_script_offset socket is_syn =
    neg32 (remote_seq_script_to_live_offset socket is_syn)

unfoldable pub local_seq_script_to_live_offset : Socket → Bool → ℕ
local_seq_script_to_live_offset socket is_syn =
    if is_syn then sub32 socket.live.local_isn socket.script.local_isn else socket.live.local_isn

unfoldable pub local_seq_live_to_script_offset : Socket → Bool → ℕ
unfolding local_seq_script_to_live_offset
local_seq_live_to_script_offset socket is_syn =
    neg32 (local_seq_script_to_live_offset socket is_syn)

-- The sequence numbers of `map_inbound_packet`, from the script to the wire; SACK blocks are left out.
unfoldable pub map_inbound_seq : Socket → TcpInfo → TcpInfo
unfolding remote_seq_script_to_live_offset local_seq_script_to_live_offset
map_inbound_seq socket tcp =
    let ack_offset = local_seq_script_to_live_offset socket tcp.syn in
    record tcp {
      seq = add32 tcp.seq (remote_seq_script_to_live_offset socket tcp.syn);
      ack_seq = if tcp.ack then add32 tcp.ack_seq ack_offset else tcp.ack_seq;
    }

-- From the wire to the script, for a packet that the kernel sent.
unfoldable pub tcp_convert_seq_number : Socket → TcpInfo → TcpInfo
unfolding remote_seq_live_to_script_offset local_seq_live_to_script_offset
tcp_convert_seq_number socket tcp =
    let ack_offset = remote_seq_live_to_script_offset socket tcp.syn in
    record tcp {
      seq = add32 tcp.seq (local_seq_live_to_script_offset socket tcp.syn);
      ack_seq = if tcp.ack then add32 tcp.ack_seq ack_offset else tcp.ack_seq;
    }

-- For an unsupported protocol, where an assert fails in C, it is `false`.
unfoldable pub is_script_packet_match_for_socket : Seen → Socket → Bool
is_script_packet_match_for_socket packet socket =
    let tcp = elim packet.tcp as (λ o. Bool) [ none ↦ false | some t ↦ true ] in
    let is_packet_icmp = packet.icmpv4 || packet.icmpv6 in
    if socket.protocol == 6
    then tcp || is_packet_icmp
    else if socket.protocol == 17
    then packet.udp || is_packet_icmp
    else if socket.protocol == 1
    then packet.icmpv4
    else (socket.protocol == 58) && packet.icmpv6

-- The handshake's step at a script packet that the test injects: the first lines of
-- `do_inbound_script_packet`.
unfoldable pub inbound_step : Socket → Option TcpInfo → Socket
unfolding same_phase
inbound_step socket none = socket
inbound_step socket (some tcp) =
    if same_phase socket.state passive_synack_sent && tcp.ack
    then record socket { state = passive_synack_acked }
    else if same_phase socket.state active_syn_sent && (tcp.syn && tcp.ack)
    then record socket {
      state = active_syn_acked;
      script = record socket.script { remote_isn = tcp.seq };
      live = record socket.live { remote_isn = tcp.seq };
    }
    else socket

-- Its step at a SYN-ACK that the script expects: `do_outbound_script_packet` before it sniffs.
unfoldable pub expect_step : Socket → TcpInfo → Socket
unfolding same_phase
expect_step socket tcp =
    if same_phase socket.state passive_packet_received && (tcp.syn && tcp.ack)
    then record socket { script = record socket.script { local_isn = tcp.seq } }
    else socket

-- And when it has sniffed the live one.
unfoldable pub sniffed_step : Socket → TcpInfo → TcpInfo → Socket
unfolding same_phase
sniffed_step socket tcp live_tcp =
    if same_phase socket.state passive_packet_received && (tcp.syn && tcp.ack)
    then record socket {
      state = passive_synack_sent;
      live = record socket.live { local_isn = live_tcp.seq };
    }
    else socket
