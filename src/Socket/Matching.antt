-- ===== src/Socket/Matching.antt =====
-- Which live packets belong to the socket under test.
use qo_smos.Prelude.{ℕ, ◌≡◌, ◌≢◌, ◌↔◌, refl, true, false, List, [], ◌∷◌, some, arith, ==_refl}
use qo_smos.Socket.{
  Endpoint, Tuple, Socket, Seen, direction_inbound, direction_outbound, is_equal_ip,
  is_equal_endpoint, is_equal_tuple, reverse_tuple, socket_get_outbound, socket_get_inbound,
  is_icmp_of, find_socket_for_live_packet,
}

pub is_equal_ip_refl : (ip : List ℕ) → is_equal_ip ip ip ≡ true
unfolding is_equal_ip
is_equal_ip_refl [] = refl
is_equal_ip_refl (x ∷ xs) = rw (==_refl x) (is_equal_ip_refl xs)

pub is_equal_ip_sound : (a b : List ℕ) → is_equal_ip a b ≡ true → a ≡ b
unfolding is_equal_ip
is_equal_ip_sound [] [] h = refl
is_equal_ip_sound [] (y ∷ ys) h = absurd (ground arith)
is_equal_ip_sound (x ∷ xs) [] h = absurd (ground arith)
is_equal_ip_sound (x ∷ xs) (y ∷ ys) h =
    let first : x ≡ y = ground arith in
    let rest : is_equal_ip xs ys ≡ true = ground arith in
    λ i. first i ∷ is_equal_ip_sound xs ys rest i

is_equal_endpoint_sound : (a b : Endpoint) → is_equal_endpoint a b ≡ true → a ≡ b
unfolding is_equal_endpoint
is_equal_endpoint_sound a b h =
    let ips = is_equal_ip_sound a.ip b.ip (ground arith) in
    let ports : a.port ≡ b.port = ground arith in λ i. record { ip = ips i; port = ports i }

is_equal_tuple_sound : (a b : Tuple) → is_equal_tuple a b ≡ true → a ≡ b
unfolding is_equal_tuple
is_equal_tuple_sound a b h =
    let srcs = is_equal_endpoint_sound a.src b.src (ground arith) in
    let dsts = is_equal_endpoint_sound a.dst b.dst (ground arith) in
    λ i. record { src = srcs i; dst = dsts i }

is_equal_tuple_refl : (t : Tuple) → is_equal_tuple t t ≡ true
unfolding is_equal_tuple is_equal_endpoint
is_equal_tuple_refl t =
    rw
      (is_equal_ip_refl t.src.ip, is_equal_ip_refl t.dst.ip, ==_refl t.src.port, ==_refl t.dst.port)
      refl

is_equal_tuple_iff : (a b : Tuple) → (is_equal_tuple a b ≡ true) ↔ (a ≡ b)
is_equal_tuple_iff a b = (is_equal_tuple_sound a b, λ e. rw e (is_equal_tuple_refl b))

found_outbound :
    (socket : Socket) (packet : Seen)
    → is_icmp_of socket packet ≡ false
    → is_equal_tuple packet.tuple (socket_get_outbound socket.live) ≡ true
    → is_equal_tuple packet.tuple (socket_get_inbound socket.live) ≢ true
    → find_socket_for_live_packet (some socket) packet ≡ some direction_outbound
unfolding find_socket_for_live_packet
found_outbound socket packet no_icmp out inn = ground arith

-- On a packet that is not of the socket's ICMP, the live packet is inbound exactly when its tuple is
-- from the socket's remote end to its local end, and outbound exactly when its tuple is the reverse
-- and not also inbound.
pub find_socket-exact :
    (socket : Socket) (packet : Seen)
    → is_icmp_of socket packet ≡ false
    → ((find_socket_for_live_packet (some socket) packet ≡ some direction_inbound)
        ↔ (packet.tuple ≡ socket_get_inbound socket.live))
      × ((find_socket_for_live_packet (some socket) packet ≡ some direction_outbound) ↔ (
          (packet.tuple ≡ reverse_tuple (socket_get_inbound socket.live))
          × (packet.tuple ≢ socket_get_inbound socket.live)))
unfolding find_socket_for_live_packet
find_socket-exact socket packet no_icmp =
    let inbound = is_equal_tuple_iff packet.tuple (socket_get_inbound socket.live) in
    let outbound = is_equal_tuple_iff packet.tuple (socket_get_outbound socket.live) in
    (
      (λ h. inbound.0 (ground (arith, no_icmp)), λ h. rw (inbound.1 h) refl),
      (
        λ h. (outbound.0 (ground (arith, no_icmp)), λ e. ground (arith, inbound.1 e)),
        λ h. found_outbound socket packet no_icmp (outbound.1 h.0) (λ e. h.1 (inbound.0 e)),
      ),
    )
