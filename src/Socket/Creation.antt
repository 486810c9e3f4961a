-- ===== src/Socket/Creation.antt =====
-- The run's socket under test: how run_packet.c of app/src/main/cpp creates it from a script's
-- packet, and completes it from the first packet of the kernel.
use qo_smos.Prelude.{
  ℕ, Bool, true, false, not, ◌&&◌, ◌||◌, List, [], Option, none, some, ◌==◌, if◌then◌else◌,
}
use qo_smos.Socket.{
  socket_init, passive_listening, passive_packet_received, active_connecting, active_syn_sent,
  same_phase, Endpoint, SocketState, Socket, TcpInfo, Seen, Direction, direction_inbound,
  direction_outbound, is_equal_ip, is_script_packet_match_for_socket,
}

-- What is read of `struct config`
pub record Config : Type 0 where
  pub is_wire_server : Bool
  pub live_remote_ip : List ℕ
  pub live_local_ip : List ℕ
  pub live_bind_port : ℕ
  pub live_connect_port : ℕ

-- What is read and written of `struct state`; a cached port of -1 is `none`.
pub record Run : Type 0 where
  pub config : Config
  pub socket_under_test : Option Socket
  pub next_ephemeral_port : Option ℕ

abbrev pub no_endpoint : Endpoint
no_endpoint = record { ip = []; port = 0 }

abbrev pub no_state : SocketState
no_state = record { local = no_endpoint; local_isn = 0; remote = no_endpoint; remote_isn = 0 }

-- What `calloc` in `socket_new` leaves.
unfoldable pub socket_new : Socket
socket_new = record { state = socket_init; protocol = 0; script = no_state; live = no_state }

unfoldable pub is_listening : Option Socket → Bool
unfolding same_phase
is_listening none = true
is_listening (some socket) = same_phase socket.state passive_listening

unfoldable pub is_none : Option Socket → Bool
is_none none = true
is_none (some socket) = false

-- The new socket for an inbound TCP packet, with the port of its live remote end.
unfoldable pub child : ℕ → Config → Seen → TcpInfo → Socket
unfolding socket_new
child port config packet tcp = record socket_new {
  state = passive_packet_received;
  protocol = packet.protocol;
  script = record no_state {
    remote = packet.tuple.src;
    local = packet.tuple.dst;
    remote_isn = tcp.seq;
  };
  live = record no_state {
    remote = record { ip = config.live_remote_ip; port = port };
    local = record { ip = config.live_local_ip; port = config.live_bind_port };
    remote_isn = tcp.seq;
  };
}

-- The system gives the port `ephemeral_port` when none is cached.
module _ (ephemeral_port : ℕ) where
  unfoldable pub next_ephemeral_port : Run → ℕ × Run
  next_ephemeral_port run = elim run.next_ephemeral_port [
    | some port ↦ (port, record run { next_ephemeral_port = none })
    | none ↦ (ephemeral_port, run)
  ]

  unfoldable pub adopt : Run → Seen → TcpInfo → Run
  unfolding child next_ephemeral_port
  adopt run packet tcp =
      let (port, run') = next_ephemeral_port run in
      record run' { socket_under_test = some (child port run.config packet tcp) }

  -- `none` is NULL; otherwise the socket is the new one under test.
  unfoldable pub handle_listen_for_script_packet : Run → Seen → TcpInfo → Direction → Option Run
  unfolding adopt is_none is_listening
  handle_listen_for_script_packet run packet tcp direction_outbound = none
  handle_listen_for_script_packet run packet tcp direction_inbound =
      let match =
        if run.config.is_wire_server
        then is_none run.socket_under_test
        else is_listening run.socket_under_test in
      if match then some (adopt run packet tcp) else none

-- The socket that a SYN of the script leaves: connecting, with the script's addresses.
unfoldable pub syn_sent : Socket → Seen → TcpInfo → Socket
syn_sent socket packet tcp = record socket {
  state = active_syn_sent;
  script = record socket.script {
    remote = packet.tuple.dst;
    local = packet.tuple.src;
    local_isn = tcp.seq;
  };
}

-- The socket of a wire server, which does not see the system calls.
unfoldable pub wire_socket : Run → Seen → Socket
unfolding socket_new
wire_socket run packet = record socket_new {
  protocol = packet.protocol;
  live = record no_state {
    remote = record { ip = run.config.live_remote_ip; port = run.config.live_connect_port };
  };
}

unfoldable pub handle_connect_for_script_packet : Run → Seen → TcpInfo → Direction → Option Run
unfolding syn_sent wire_socket same_phase
handle_connect_for_script_packet run packet tcp direction_inbound = none
handle_connect_for_script_packet run packet tcp direction_outbound =
    if tcp.syn && not tcp.ack
    then elim run.socket_under_test [
      | none ↦
          if run.config.is_wire_server
          then some (record run {
            socket_under_test = some (syn_sent (wire_socket run packet) packet tcp);
          })
          else none
      | some socket ↦
          if not run.config.is_wire_server && same_phase socket.state active_connecting
          then some (record run { socket_under_test = some (syn_sent socket packet tcp) })
          else none
    ]
    else none

unfoldable pub is_udp_match : Seen → Socket → Bool
unfolding same_phase
is_udp_match packet socket =
    packet.udp && ((socket.protocol == 17) && same_phase socket.state active_connecting)

unfoldable pub is_icmp_match : Seen → Socket → Bool
unfolding same_phase
is_icmp_match packet socket =
    ((packet.icmpv4 && (socket.protocol == 1)) || (packet.icmpv6 && (socket.protocol == 58)))
    && same_phase socket.state active_connecting

unfoldable pub is_tcp_match : Seen → Socket → Bool
unfolding same_phase
is_tcp_match packet socket = elim packet.tcp [
  | none ↦ false
  | some tcp ↦
      tcp.syn
      && (not tcp.ack && ((socket.protocol == 6) && same_phase socket.state active_syn_sent))
]

-- What the kernel's first packet tells of the socket's own end.
unfoldable pub learn_local : Socket → Seen → Socket
learn_local socket packet = record socket {
  live = record socket.live {
    local = packet.tuple.src;
    local_isn = elim packet.tcp [ none ↦ socket.live.local_isn | some tcp ↦ tcp.seq ];
  };
}

-- On a match the direction is outbound.
unfoldable pub find_connect_for_live_packet : Run → Seen → Option Run
unfolding is_udp_match is_icmp_match is_tcp_match is_equal_ip learn_local
find_connect_for_live_packet run packet = elim run.socket_under_test [
  | none ↦ none
  | some socket ↦
      let same_ip = is_equal_ip packet.tuple.dst.ip socket.live.remote.ip in
      let same_port = packet.tuple.dst.port == socket.live.remote.port in
      let match =
        if is_icmp_match packet socket
        then same_ip
        else (is_udp_match packet socket || is_tcp_match packet socket) && (same_ip && same_port) in
      if match
      then some (record run { socket_under_test = some (learn_local socket packet) })
      else none
]

-- The socket found is the run's; `none` is STATUS_ERR.
unfoldable pub find_or_create_socket_for_script_packet : ℕ → Run → Seen → Direction → Option Run
unfolding handle_listen_for_script_packet handle_connect_for_script_packet
    is_script_packet_match_for_socket
find_or_create_socket_for_script_packet ephemeral_port run packet direction =
    let existing = elim run.socket_under_test as (λ o. Bool) [
      | none ↦ false
      | some socket ↦ is_script_packet_match_for_socket packet socket
    ] in
    let foreign = not ((packet.tuple.src.port == 0) && (packet.tuple.dst.port == 0)) in
    elim packet.tcp [
      | none ↦ if existing || (packet.udp && foreign) then some run else none
      | some tcp ↦ elim (handle_listen_for_script_packet ephemeral_port run packet tcp direction) [
        | some created ↦ some created
        | none ↦ elim (handle_connect_for_script_packet run packet tcp direction) [
          | some connected ↦ some connected
          | none ↦ if existing || foreign then some run else none
        ]
      ]
    ]
