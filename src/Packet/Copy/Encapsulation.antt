-- ===== src/Packet/Copy/Encapsulation.antt =====
-- What encapsulation makes of the headers of two packets.
use qo_smos.Prelude.{
  ℕ, ◌+◌, ◌*◌, ◌≤◌, ◌≡◌, false, List, [], ◌∷◌, ◌++◌, Option, some, arith, ltb, ◌||◌, length, take,
}
use qo_smos.Packet.{Header, Packet, packet_max_headers}
use qo_smos.Packet.Append.{Contiguous}
use qo_smos.Packet.Copy.{packet_copy_headers}
use qo_smos.Packet.Copy.Finishing.{Nested, IsClosed, AllFit, most_bytes}

-- Headers that differ in their places only.
abbrev Alike : List Header → List Header → Type 0
Alike [] [] = Unit
Alike (h ∷ hs) (g ∷ gs) =
    (h.type ≡ g.type)
    × (h.header_bytes ≡ g.header_bytes)
    × (h.total_bytes ≡ g.total_bytes)
    × Alike hs gs
Alike _ _ = ⊥

-- The bytes of both packets, and their headers in them.
abbrev pub joined_bytes : Packet → Packet → List ℕ
joined_bytes outer inner = take outer.ip_bytes outer.buffer ++ take inner.ip_bytes inner.buffer

abbrev joined_headers : Packet → Packet → ℕ → List Header
joined_headers outer inner headroom =
    packet_copy_headers outer.headers 0 ++ packet_copy_headers inner.headers headroom

-- Two packets that can be encapsulated: the headers of each row start at 0, the outer ones fill their
-- packet, the inner ones end in layer 4, there is room for all, each header is whole in the bytes, GRE ones of version 0
-- without routing, and no length passes 16 bits.
pub record CanEncapsulate (outer inner : Packet) (stop : ℕ) : Type 0 where
  pub outer_row : Contiguous 0 outer.headers outer.ip_bytes
  pub inner_row : Contiguous 0 inner.headers stop
  pub closed : IsClosed (outer.headers ++ inner.headers)
  pub fits : AllFit (joined_bytes outer inner) (joined_headers outer inner outer.ip_bytes)
  pub some_inner : 1 ≤ length inner.headers
  pub room : length outer.headers + length inner.headers ≤ packet_max_headers
  pub outer_bytes : outer.ip_bytes ≤ length outer.buffer
  pub inner_bytes : inner.ip_bytes ≤ length inner.buffer
  pub inner_size : inner.ip_bytes ≤ 128 * 1024
  pub sizes : most_bytes (outer.headers ++ inner.headers) ≤ 65535

pub record Encapsulated (outer inner : Packet) (stop : ℕ) (o : Option Packet) : Type 0 where
  pub packet : Packet
  pub done : o ≡ some packet
  pub count : length packet.headers ≡ length outer.headers + length inner.headers
  pub row : Contiguous 0 packet.headers (outer.ip_bytes + stop)
  pub nested : Nested packet.headers
  pub ip_bytes : packet.ip_bytes ≡ outer.ip_bytes + inner.ip_bytes
  pub size : length packet.buffer ≡ outer.ip_bytes + inner.ip_bytes

fits :
    (bytes size : ℕ)
    → bytes ≤ size
    → bytes ≤ 128 * 1024
    → (ltb (128 * 1024) bytes || ltb size bytes) ≡ false
fits bytes size h k = ground arith
