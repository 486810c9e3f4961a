-- ===== src/Packet/Append.antt =====
-- What appending a header does to the row of headers.
use qo_smos.Prelude.{ℕ, suc, ◌+◌, ◌≤◌, ◌<◌, ◌≡◌, refl, List, [], ◌∷◌, ◌++◌, some, arith, length, ap}
use qo_smos.Packet.{
  Header, HeaderType, Packet, packet_append_header, packet_max_headers, set_total_bytes,
}

-- Each header starts where the one before it ends, from `start` to `stop`.
abbrev pub Contiguous : ℕ → List Header → ℕ → Type 0
Contiguous start [] stop = start ≡ stop
Contiguous start (h ∷ hs) stop = (h.ptr ≡ start) × Contiguous (start + h.header_bytes) hs stop

pub Contiguous-append :
    (start : ℕ) (hs : List Header) (mid : ℕ) (h : Header)
    → Contiguous start hs mid
    → h.ptr ≡ mid
    → Contiguous start (hs ++ (h ∷ [])) (mid + h.header_bytes)
Contiguous-append start [] mid h c e = (omega arith, omega arith)
Contiguous-append start (g ∷ hs) mid h c e =
    (c.0, Contiguous-append (start + g.header_bytes) hs mid h c.1 e)

pub Contiguous-set_total :
    (start : ℕ) (hs : List Header) (stop n : ℕ)
    → Contiguous start hs stop
    → Contiguous start (set_total_bytes hs n) stop
unfolding set_total_bytes
Contiguous-set_total start [] stop n c = c
Contiguous-set_total start (h ∷ []) stop n c = c
Contiguous-set_total start (h ∷ g ∷ hs) stop n c =
    (c.0, Contiguous-set_total (start + h.header_bytes) (g ∷ hs) stop n c.1)

pub length-set_total : (hs : List Header) (n : ℕ) → length (set_total_bytes hs n) ≡ length hs
unfolding set_total_bytes
length-set_total [] n = refl
length-set_total (h ∷ []) n = refl
length-set_total (h ∷ g ∷ hs) n = ap suc (length-set_total (g ∷ hs) n)

abbrev new_header : Packet → HeaderType → ℕ → Header
new_header packet type bytes = record {
  type = type;
  header_bytes = bytes;
  total_bytes = 0;
  ptr = packet.l2_header_bytes + packet.ip_bytes;
}

-- What `packet_append_header` changes when it does not give NULL.
pub record Appended (packet : Packet) (type : HeaderType) (bytes : ℕ) (q : Packet) : Type 0 where
  pub room : length packet.headers < packet_max_headers
  pub headers : q.headers ≡ packet.headers ++ (new_header packet type bytes ∷ [])
  pub ip_bytes : q.ip_bytes ≡ packet.ip_bytes + bytes
  pub l2_header_bytes : q.l2_header_bytes ≡ packet.l2_header_bytes
  pub buffer : q.buffer ≡ packet.buffer

pub packet_append_header-some :
    (packet : Packet) (type : HeaderType) (bytes : ℕ) (q : Packet)
    → length packet.headers ≤ packet_max_headers
    → packet_append_header packet type bytes ≡ some q
    → Appended packet type bytes q
unfolding packet_append_header
packet_append_header-some packet type bytes q count e = record {
  room = ground arith;
  headers = ground arith;
  ip_bytes = ground arith;
  l2_header_bytes = ground arith;
  buffer = ground arith;
}

-- The pointers to the headers of layer 4 stay as they are.
pub record Untouched (packet q : Packet) : Type 0 where
  pub tcp : q.tcp ≡ packet.tcp
  pub udp : q.udp ≡ packet.udp
  pub icmpv4 : q.icmpv4 ≡ packet.icmpv4
  pub icmpv6 : q.icmpv6 ≡ packet.icmpv6

pub packet_append_header-Untouched :
    (packet : Packet) (type : HeaderType) (bytes : ℕ) (q : Packet)
    → packet_append_header packet type bytes ≡ some q
    → Untouched packet q
unfolding packet_append_header
packet_append_header-Untouched packet type bytes q e = record {
  tcp = ground arith;
  udp = ground arith;
  icmpv4 = ground arith;
  icmpv6 = ground arith;
}
