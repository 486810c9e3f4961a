-- ===== src/Packet.antt =====
-- `struct packet` of app/src/main/cpp/packet.h, the headers in it (header.h), and the operations of
-- packet.c that the parser uses. A pointer into the buffer is its offset from the buffer's start. The
-- array of headers ends at its first HEADER_NONE: it is the list of those before. Sizes are C
-- integers below 2 ^ 31, so their sums do not wrap.
pub mod Append
pub mod Copy
use qo_smos.Prelude.{
  ℕ, zero, suc, ◌+◌, ◌*◌, ◌/◌, Bool, true, false, List, [], ◌∷◌, ◌++◌, Option, none, some, ltb,
  ◌==◌, if◌then◌else◌, length, replicate,
}

pub data HeaderType : Type 0 where
  header_ipv4 header_ipv6 header_gre header_mpls : HeaderType
  header_tcp header_udp header_icmpv4 header_icmpv6 : HeaderType

-- `struct header`
pub record Header : Type 0 where
  pub type : HeaderType
  pub header_bytes : ℕ
  pub total_bytes : ℕ
  pub ptr : ℕ

-- `struct packet`, without what the parser leaves at zero
pub record Packet : Type 0 where
  pub buffer : List ℕ
  pub buffer_bytes : ℕ
  pub l2_header_bytes : ℕ
  pub ip_bytes : ℕ
  pub headers : List Header
  pub ipv4 : Option ℕ
  pub ipv6 : Option ℕ
  pub tcp : Option ℕ
  pub udp : Option ℕ
  pub icmpv4 : Option ℕ
  pub icmpv6 : Option ℕ

abbrev pub packet_max_headers : ℕ
packet_max_headers = 6

-- The buffer is what its owner has filled in since `malloc`.
unfoldable pub packet_new : List ℕ → Packet
packet_new buffer = record {
  buffer = buffer;
  buffer_bytes = length buffer;
  l2_header_bytes = 0;
  ip_bytes = 0;
  headers = [];
  ipv4 = none;
  ipv6 = none;
  tcp = none;
  udp = none;
  icmpv4 = none;
  icmpv6 = none;
}

abbrev pub packet_header_count : Packet → ℕ
packet_header_count packet = length packet.headers

-- The new header is the last of the list; `none` is the NULL for one that does not fit.
unfoldable pub packet_append_header : Packet → HeaderType → ℕ → Option Packet
packet_append_header packet header_type header_bytes =
    if packet_header_count packet == packet_max_headers
    then none
    else if ltb packet.buffer_bytes (packet.ip_bytes + header_bytes)
    then none
    else some (record packet {
      headers =
          packet.headers
          ++ (record {
            type = header_type;
            header_bytes = header_bytes;
            total_bytes = 0;
            ptr = packet.l2_header_bytes + packet.ip_bytes;
          }
              ∷ []);
      ip_bytes = packet.ip_bytes + header_bytes;
    })

-- `header->total_bytes = n` through the pointer to the last header
unfoldable pub set_total_bytes : List Header → ℕ → List Header
set_total_bytes [] n = []
set_total_bytes (h ∷ []) n = record h { total_bytes = n } ∷ []
set_total_bytes (h ∷ hs) n = h ∷ set_total_bytes hs n
