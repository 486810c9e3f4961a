-- ===== src/Parser/Rows.antt =====
-- The row of headers that the parser records: contiguous, and inside the packet.
use qo_smos.Prelude.{
  ℕ, suc, ◌+◌, ◌≤◌, ◌≡◌, refl, [], ◌∷◌, arith, ap, ◌∙◌, length, length-append, Option-cases, inl,
  inr,
}
use qo_smos.Packet.{HeaderType, Packet, packet_append_header, set_total_bytes, packet_max_headers}
use qo_smos.Packet.Append.{
  Contiguous, Contiguous-append, Contiguous-set_total, length-set_total, packet_append_header-some,
}
use qo_smos.Parser.Outcome.{Result, Reason, Parsed}
use qo_smos.Parser.Layer4.{append}
use qo_smos.Parser.Rules.{IsTame}

-- The parse has come to offset `p` of the packet: the headers recorded fill the bytes from the link
-- layer's up to `p`.
pub record IsAt (packet_end : ℕ) (packet : Packet) (p : ℕ) : Type 0 where
  pub row : Contiguous packet.l2_header_bytes packet.headers p
  pub here : packet.l2_header_bytes + packet.ip_bytes ≡ p
  pub inside : p ≤ packet_end
  pub count : length packet.headers ≤ packet_max_headers
  pub fits : packet_end ≤ length packet.buffer

-- What a parse that started from `start` leaves: a contiguous row of at most 6 headers inside the
-- packet, with the buffer and the link layer's length unchanged, and a result that is tame.
pub record IsDone (packet_end : ℕ) (start : Packet) (out : Parsed) : Type 0 where
  pub row : (stop : ℕ) × Contiguous start.l2_header_bytes out.0.headers stop × (stop ≤ packet_end)
  pub count : length out.0.headers ≤ packet_max_headers
  pub same_buffer : out.0.buffer ≡ start.buffer
  pub same_l2 : out.0.l2_header_bytes ≡ start.l2_header_bytes
  pub tame : IsTame start.buffer packet_end out.1

-- Stopping where the parse stands.
pub stopped :
    {packet_end p : ℕ} {packet : Packet} (r : Result)
    → IsAt packet_end packet p
    → IsTame packet.buffer packet_end r
    → IsDone packet_end packet (packet, r)
stopped {p = p} r a t = record {
  row = (p, a.row, a.inside);
  count = a.count;
  same_buffer = refl;
  same_l2 = refl;
  tame = t;
}

pub moved :
    {packet_end : ℕ} {packet q : Packet} {out : Parsed}
    → q.buffer ≡ packet.buffer
    → q.l2_header_bytes ≡ packet.l2_header_bytes
    → IsDone packet_end q out
    → IsDone packet_end packet out
moved {packet_end} eb el d = record {
  row = rw (← el) d.row;
  count = d.count;
  same_buffer = d.same_buffer ∙ eb;
  same_l2 = d.same_l2 ∙ el;
  tame = rw (← eb) d.tame;
}

-- Recording one header and going on behind it.
pub append-IsDone :
    {packet_end p : ℕ} {packet : Packet} (type : HeaderType) (header_bytes total : ℕ) (e : Reason)
    (rest : Packet → Parsed)
    → IsAt packet_end packet p
    → p + header_bytes ≤ packet_end
    → ((q : Packet)
        → IsAt packet_end q (p + header_bytes)
        → q.buffer ≡ packet.buffer
        → q.l2_header_bytes ≡ packet.l2_header_bytes
        → length q.headers ≡ suc (length packet.headers)
        → IsDone packet_end q (rest q))
    → IsDone packet_end packet (append packet type header_bytes total e rest)
unfolding append
append-IsDone {packet_end} {p} {packet} type header_bytes total e rest a room k =
    elim (Option-cases (packet_append_header packet type header_bytes)) [
      | inl full ↦ rw (append, full) (stopped _ a tt)
      | inr (q, ok) ↦
          let w = packet_append_header-some packet type header_bytes q a.count ok in
          let q' : Packet = record q { headers = set_total_bytes q.headers total } in
          let grown : length q'.headers ≡ suc (length packet.headers) = omega (
            arith,
            length-set_total q.headers total,
            ap length w.headers,
            length-append packet.headers (_ ∷ []),
          ) in
          rw (append, ok)
            (moved w.buffer w.l2_header_bytes (
              k q'
                (record {
                  row = rw w.l2_header_bytes (
                      Contiguous-set_total packet.l2_header_bytes q.headers (p + header_bytes) total
                        (rw w.headers (
                          Contiguous-append packet.l2_header_bytes packet.headers p _ a.row
                            a.here)));
                  here = omega (arith, w.ip_bytes, w.l2_header_bytes, a.here);
                  inside = room;
                  count = omega (arith, w.room, grown);
                  fits = rw w.buffer a.fits;
                })
                w.buffer w.l2_header_bytes grown))
    ]
