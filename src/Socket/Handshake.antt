-- ===== src/Socket/Handshake.antt =====
-- The handshake of the socket under test as steps on its state.
use qo_smos.Prelude.{ℕ, ◌≡◌, refl, ◌∙◌, true, false, Option, none, some}
use qo_smos.Socket.{
  Phase, socket_init, socket_created, passive_listening, passive_packet_received,
  passive_synack_sent, passive_synack_acked, active_connecting, active_syn_sent, active_syn_acked,
  same_phase, Socket, TcpInfo, Seen, direction_inbound, inbound_step, expect_step, sniffed_step,
}
use qo_smos.Socket.Creation.{
  Run, socket_new, is_listening, child, adopt, next_ephemeral_port, Config,
  handle_listen_for_script_packet,
}

-- What a script does to an existing socket: it injects a packet, or expects one and sees it sent.
pub data Step : Socket → Socket → Type 0 where
  injects : (socket : Socket) (tcp : Option TcpInfo) → Step socket (inbound_step socket tcp)
  expects : (socket : Socket) (tcp : TcpInfo) → Step socket (expect_step socket tcp)
  sniffs : (socket : Socket) (tcp live : TcpInfo) → Step socket (sniffed_step socket tcp live)

pub data Steps : Socket → Socket → Type 0 where
  stays : (socket : Socket) → Steps socket socket
  goes : (a b c : Socket) → Step a b → Steps b c → Steps a c

abbrev pub IsEstablished : Phase → Type 0
IsEstablished passive_synack_acked = Unit {0}
IsEstablished active_syn_acked = Unit {0}
IsEstablished _ = ⊥

-- No step of the handshake starts at an established socket.
established-other :
    (p : Phase)
    → IsEstablished p
    → (same_phase p passive_synack_sent ≡ false)
      × (same_phase p active_syn_sent ≡ false)
      × (same_phase p passive_packet_received ≡ false)
unfolding same_phase
established-other socket_init h = absurd h
established-other socket_created h = absurd h
established-other passive_listening h = absurd h
established-other passive_packet_received h = absurd h
established-other passive_synack_sent h = absurd h
established-other active_connecting h = absurd h
established-other active_syn_sent h = absurd h
established-other passive_synack_acked h = (refl, refl, refl)
established-other active_syn_acked h = (refl, refl, refl)

Step-fixed : {a b : Socket} → Step a b → IsEstablished a.state → b ≡ a
unfolding inbound_step expect_step sniffed_step
Step-fixed (injects socket none) h = refl
Step-fixed (injects socket (some tcp)) h =
    let (sent, syn, received) = established-other socket.state h in
    rw (inbound_step, sent, syn) refl
Step-fixed (expects socket tcp) h =
    let (sent, syn, received) = established-other socket.state h in rw (expect_step, received) refl
Step-fixed (sniffs socket tcp live) h =
    let (sent, syn, received) = established-other socket.state h in rw (sniffed_step, received) refl

-- Once a socket is established, no packet that a script injects or expects changes its state, its
-- addresses or its initial sequence numbers.
pub established_fixed : {a b : Socket} → Steps a b → IsEstablished a.state → b ≡ a
established_fixed (stays socket) h = refl
established_fixed (goes a b c first rest) h =
    let same = Step-fixed first h in established_fixed rest (rw same h) ∙ same

-- The SYN that a listening socket accepts, the SYN-ACK that the script expects and the kernel sends,
-- and the ACK that the script injects.
abbrev pub passive_run : Socket → TcpInfo → TcpInfo → TcpInfo → Socket
passive_run child synack live_synack ack =
    inbound_step (sniffed_step (expect_step child synack) synack live_synack) (some ack)

-- What the handshake leaves of a socket.
pub record Established (config : Config) (syn synack live_synack : TcpInfo) (s : Socket)
    : Type 0 where
  pub state : s.state ≡ passive_synack_acked
  pub script_local : s.script.local_isn ≡ synack.seq
  pub live_local : s.live.local_isn ≡ live_synack.seq
  pub live_remote : s.live.remote_isn ≡ syn.seq
  pub local_ip : s.live.local.ip ≡ config.live_local_ip
  pub remote_ip : s.live.remote.ip ≡ config.live_remote_ip

module _ (packet : Seen) (syn synack live_synack ack : TcpInfo) where
  child-Established :
      (port : ℕ) (config : Config)
      → synack.syn ≡ true
      → synack.ack ≡ true
      → ack.ack ≡ true
      → Established config syn synack live_synack
          (passive_run (child port config packet syn) synack live_synack ack)
  unfolding same_phase child socket_new inbound_step sniffed_step expect_step
  child-Established port config s1 s2 a1 =
      rw (s1, s2, a1, inbound_step, sniffed_step, expect_step)
        (record {
          state = refl;
          script_local = refl;
          live_local = refl;
          live_remote = refl;
          local_ip = refl;
          remote_ip = refl;
        })

  -- With a socket that listens in local mode, an inbound SYN gives a new socket under test; if the
  -- SYN-ACK and the ACK have their flags, the rest of the handshake establishes it, with the initial
  -- sequence numbers that script and kernel have shown and the addresses of the configuration.
  pub passive_handshake_lem :
      (ephemeral_port : ℕ) (run : Run) (listening : Socket)
      → run.config.is_wire_server ≡ false
      → run.socket_under_test ≡ some listening
      → listening.state ≡ passive_listening
      → synack.syn ≡ true
      → synack.ack ≡ true
      → ack.ack ≡ true
      → (created : Socket) × (run' : Run) × (handle_listen_for_script_packet ephemeral_port run
            packet syn direction_inbound
          ≡ some run')
        × (run'.socket_under_test ≡ some created)
        × Established run.config syn synack live_synack (passive_run created synack live_synack ack)
  unfolding handle_listen_for_script_packet is_listening same_phase adopt
  passive_handshake_lem ephemeral_port run listening local under state s1 s2 a1 =
      let port = (next_ephemeral_port ephemeral_port run).0 in
      (
        child port run.config packet syn,
        adopt ephemeral_port run packet syn,
        rw (local, under, is_listening, state) refl,
        refl,
        child-Established port run.config s1 s2 a1,
      )
