-- ===== src/Parser/Packets.antt =====
-- `parse_packet` on any bytes.
use qo_smos.Prelude.{ℕ, ◌≤◌, ◌≡◌, refl, List, arith, length, ltb, leb, Bool-cases, inl, inr, true}
use qo_smos.Packet.{Packet, packet_new, packet_max_headers}
use qo_smos.Packet.Append.{Contiguous}
use qo_smos.Parser.Outcome.{Parsed}
use qo_smos.Parser.Rules.{IsTame, read16_rule}
use qo_smos.Parser.Rows.{IsAt, IsDone}
use qo_smos.Parser.Safety.{parse-InnerDone}
use qo_smos.Parser.Endings.{after_check}
use qo_smos.Parser.{
  layer3, by_proto, parse, parse_layer2_packet, parse_packet, PacketLayer, packet_layer_3_ip,
  packet_layer_2_ethernet,
}

-- What a parse of `packet_end` bytes of a buffer may give: a contiguous row of at most 6 headers
-- that starts behind the link layer's header and ends inside the packet, the buffer as it was, and a
-- result that is tame.
pub record IsSound (buffer : List ℕ) (packet_end : ℕ) (out : Parsed) : Type 0 where
  pub row : (stop : ℕ) × Contiguous out.0.l2_header_bytes out.0.headers stop × (stop ≤ packet_end)
  pub count : length out.0.headers ≤ packet_max_headers
  pub same_buffer : out.0.buffer ≡ buffer
  pub tame : IsTame buffer packet_end out.1

IsSound-of_done :
    {packet_end : ℕ} {packet : Packet} {out : Parsed}
    → IsDone packet_end packet out
    → IsSound packet.buffer packet_end out
IsSound-of_done d = record {
  row = rw d.same_l2 d.row;
  count = d.count;
  same_buffer = d.same_buffer;
  tame = d.tame;
}

module _ (buffer : List ℕ) (in_bytes : ℕ) (fits : in_bytes ≤ length buffer) where
  ip-IsSound : IsSound buffer in_bytes (parse 7 in_bytes layer3 (packet_new buffer) 0)
  unfolding packet_new
  ip-IsSound = IsSound-of_done (
      parse-InnerDone 7 in_bytes layer3 (packet_new buffer) 0
        (record { row = refl; here = refl; inside = omega arith; count = omega arith; fits = fits })
        (omega arith))

  abbrev framed : Packet
  framed = record (packet_new buffer) { l2_header_bytes = 14 }

  IsAt-framed : 14 ≤ in_bytes → IsAt in_bytes framed 14
  unfolding packet_new
  IsAt-framed long = record {
    row = refl;
    here = refl;
    inside = long;
    count = omega arith;
    fits = fits;
  }

  ethernet-IsSound : IsSound buffer in_bytes (parse_layer2_packet 7 in_bytes (packet_new buffer))
  unfolding parse_layer2_packet packet_new
  ethernet-IsSound = elim (Bool-cases (ltb in_bytes 14)) [
    | inl short ↦
        rw (short, parse_layer2_packet)
          (record {
            row = (0, refl, omega arith);
            count = omega arith;
            same_buffer = refl;
            tame = tt;
          })
    | inr long ↦
        rw (long, parse_layer2_packet)
          (IsSound-of_done (
            after_check (λ ether_type. parse 7 in_bytes (by_proto ether_type) framed 14)
              (IsAt-framed (ground arith)) (read16_rule buffer in_bytes 12 (ground arith))
              (λ ether_type u.
                parse-InnerDone 7 in_bytes (by_proto ether_type) framed 14
                  (IsAt-framed (ground arith)) (omega arith))))
  ]

-- On any bytes of which `in_bytes` are the packet, from either layer: no assert fails, nesting and
-- label stacks end, the headers recorded are at most 6, contiguous and inside the packet, the buffer
-- is unchanged, and no byte outside the buffer is read unless the packet fills the buffer.
pub parse_packet-IsSound :
    (buffer : List ℕ) (in_bytes : ℕ) (layer : PacketLayer)
    → in_bytes ≤ length buffer
    → IsSound buffer in_bytes (parse_packet (packet_new buffer) in_bytes layer)
unfolding parse_packet
parse_packet-IsSound buffer in_bytes packet_layer_3_ip fits =
    let e : leb in_bytes (packet_new buffer).buffer_bytes ≡ true =
      unfold packet_new in ground arith in
    rw e (ip-IsSound buffer in_bytes fits)
parse_packet-IsSound buffer in_bytes packet_layer_2_ethernet fits =
    let e : leb in_bytes (packet_new buffer).buffer_bytes ≡ true =
      unfold packet_new in ground arith in
    rw e (ethernet-IsSound buffer in_bytes fits)
