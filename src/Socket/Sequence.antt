-- ===== src/Socket/Sequence.antt =====
-- Sequence numbers between the script and the wire.
use qo_smos.Prelude.{ℕ, ◌<◌, ◌≡◌, Bool, true, false, arith}
use qo_smos.Prelude.Words.{add32, neg32, u32_mod}
use qo_smos.Socket.{
  Socket, TcpInfo, remote_seq_script_to_live_offset, remote_seq_live_to_script_offset,
  local_seq_script_to_live_offset, local_seq_live_to_script_offset, map_inbound_seq,
  tcp_convert_seq_number,
}

add32-neg32 : (x k : ℕ) → x < u32_mod → k < u32_mod → add32 (add32 x k) (neg32 k) ≡ x
add32-neg32 x k hx hk = omega arith

-- The initial sequence numbers of a socket are words.
pub record HasWords (socket : Socket) : Type 0 where
  pub live_local : socket.live.local_isn < u32_mod
  pub live_remote : socket.live.remote_isn < u32_mod
  pub script_local : socket.script.local_isn < u32_mod

module _ (socket : Socket) (words : HasWords socket) where
  local_offset-lt : (is_syn : Bool) → local_seq_script_to_live_offset socket is_syn < u32_mod
  unfolding local_seq_script_to_live_offset
  local_offset-lt true = omega arith
  local_offset-lt false = words.live_local

  remote_offset-lt : (is_syn : Bool) → remote_seq_script_to_live_offset socket is_syn < u32_mod
  unfolding remote_seq_script_to_live_offset
  remote_offset-lt true = omega arith
  remote_offset-lt false = words.live_remote

  -- For a sequence number of either end and either kind of packet, mapping a script value to the wire
  -- and back modulo 2 ^ 32 gives the value.
  pub offsets-cancel :
      (x : ℕ) (is_syn : Bool)
      → x < u32_mod
      → (add32
            (add32 x (local_seq_script_to_live_offset socket is_syn))
            (local_seq_live_to_script_offset socket is_syn)
          ≡ x)
        × (add32
              (add32 x (remote_seq_script_to_live_offset socket is_syn))
              (remote_seq_live_to_script_offset socket is_syn)
            ≡ x)
  unfolding local_seq_live_to_script_offset remote_seq_live_to_script_offset
  offsets-cancel x is_syn h = (
    add32-neg32 x (local_seq_script_to_live_offset socket is_syn) h (local_offset-lt is_syn),
    add32-neg32 x (remote_seq_script_to_live_offset socket is_syn) h (remote_offset-lt is_syn),
  )

  -- Of what the kernel sends, the SYN with its initial sequence number reads as the script's initial
  -- sequence number, and a later packet `k` bytes behind it reads as `k`; and an acknowledgement of
  -- `k` that the script injects acknowledges the byte `k` behind it on the wire.
  pub kernel_stream_lem :
      (k : ℕ) (syn data_packet injected : TcpInfo)
      → k < u32_mod
      → syn.syn ≡ true
      → syn.seq ≡ socket.live.local_isn
      → data_packet.syn ≡ false
      → data_packet.seq ≡ add32 socket.live.local_isn k
      → injected.syn ≡ false
      → injected.ack ≡ true
      → injected.ack_seq ≡ k
      → ((tcp_convert_seq_number socket syn).seq ≡ socket.script.local_isn)
        × ((tcp_convert_seq_number socket data_packet).seq ≡ k)
        × ((map_inbound_seq socket injected).ack_seq ≡ add32 socket.live.local_isn k)
  unfolding tcp_convert_seq_number map_inbound_seq local_seq_live_to_script_offset
      local_seq_script_to_live_offset
  kernel_stream_lem k syn data_packet injected hk s1 s2 d1 d2 i1 i2 i3 = (
    rw (s1, s2) (omega (arith, words.live_local, words.script_local)),
    rw (d1, d2) (omega (arith, words.live_local)),
    rw (i1, i2, i3) (omega arith),
  )
