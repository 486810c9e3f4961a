-- ===== src/Verify/Same.antt =====
-- When the strict comparison of packets with the script's succeeds.
use qo_smos.Prelude.{
  ℕ, ◌+◌, ◌/◌, ◌%◌, ◌^◌, ◌≡◌, ◌≢◌, ◌↔◌, refl, Bool, true, false, ◌&&◌, ◌||◌, List, [], ◌∷◌, arith,
  ap, suc, length, get_or,
}
use qo_smos.Verify.Fields.{
  Verdict, status_ok, status_err, aborted, Difference, Ipv4, Ipv6, Gre, Icmp, Layer, ipv4, ipv6,
  gre, mpls, tcp, udp, icmpv4, icmpv6, Compared, tos_check_tos, gre_length, gre_flags, gre_proto,
  gre_sum, gre_off, gre_key, gre_seq, header_count, udp_len,
}
use qo_smos.Verify.{
  ◌also◌, only_if, check_field, assert_that, tcp_options_allowance, verify_outbound_live_tos,
  verify_outbound_live_ttl_or_hl, verify_ipv4, verify_ipv6, verify_udp, verify_gre, verify_icmp,
  verify_header, verify_layers, verify_outbound_live_headers, has_checksum, has_routing, has_key,
  has_seq, word, has_layer, is_ip, is_above_ip,
}
use qo_smos.Verify.Exact.{check_field-ok, check_field-equal, verify_mpls-ok, verify_tcp-exact}
use qo_smos.Parser.Checks.{gre_len, is_gre_supported}

-- The fields that are equal where two headers agree. The TTL of a script may be left open.
abbrev pub SameTtl : ℕ → ℕ → Type 0
SameTtl x y = y ≢ 255 → x ≡ y

abbrev pub SameIpv4 : Ipv4 → Ipv4 → Type 0
SameIpv4 x y =
    (x.version ≡ y.version)
    × (x.protocol ≡ y.protocol)
    × (x.ihl ≡ y.ihl)
    × (x.tot_len ≡ y.tot_len)
    × (x.tos_byte ≡ y.tos_byte)
    × SameTtl x.ttl_byte y.ttl_byte

abbrev pub SameIpv6 : Ipv6 → Ipv6 → Type 0
SameIpv6 x y =
    (x.version ≡ y.version)
    × (x.payload_len ≡ y.payload_len)
    × (x.next_header ≡ y.next_header)
    × (x.tos_byte ≡ y.tos_byte)
    × SameTtl x.hop_limit y.hop_limit

-- The places of the key and of the sequence number among the optional words.
abbrev pub key_place : Gre → ℕ
key_place y = word (has_checksum y.flags || has_routing y.flags)

abbrev pub seq_place : Gre → ℕ
seq_place y = key_place y + word (has_key y.flags)

-- The words that the flags announce, of GRE version 0 without routing.
abbrev pub SameGre : Gre → Gre → Type 0
SameGre x y =
    (is_gre_supported y.flags ≡ true)
    × (x.flags ≡ y.flags)
    × (x.proto ≡ y.proto)
    × (has_checksum y.flags ≡ true → get_or x.be32 0 0 ≡ get_or y.be32 0 0)
    × (has_key y.flags ≡ true → get_or x.be32 (key_place y) 0 ≡ get_or y.be32 (key_place y) 0)
    × (has_seq y.flags ≡ true → get_or x.be32 (seq_place y) 0 ≡ get_or y.be32 (seq_place y) 0)

abbrev pub SameLayer : Layer → Layer → Type 0
SameLayer (ipv4 x) (ipv4 y) = SameIpv4 x y
SameLayer (ipv6 x) (ipv6 y) = SameIpv6 x y
SameLayer (gre x) (gre y) = SameGre x y
SameLayer (mpls x) (mpls y) = x ≡ y
SameLayer (tcp x) (tcp y) = x ≡ y
SameLayer (udp x) (udp y) = x ≡ y
SameLayer (icmpv4 x) (icmpv4 y) = (x.type ≡ y.type) × (x.code ≡ y.code)
SameLayer (icmpv6 x) (icmpv6 y) = (x.type ≡ y.type) × (x.code ≡ y.code)
SameLayer x y = ⊥

abbrev pub SameLayers : List Layer → List Layer → Type 0
SameLayers [] [] = Unit
SameLayers (x ∷ xs) (y ∷ ys) = SameLayer x y × SameLayers xs ys
SameLayers xs ys = ⊥

also_iff : (v w : Verdict) → ((v also w) ≡ status_ok) ↔ ((v ≡ status_ok) × (w ≡ status_ok))
unfolding ◌also◌
also_iff status_ok w = (λ h. (refl, h), λ h. h.1)
also_iff (status_err d) w = ground arith
also_iff aborted w = ground arith

check_iff :
    (d : Difference) (expected actual : ℕ)
    → (check_field d expected actual ≡ status_ok) ↔ (actual ≡ expected)
check_iff d expected actual =
    (check_field-ok d expected actual, check_field-equal d expected actual)

only_iff : (b : Bool) (v : Verdict) → (only_if b v ≡ status_ok) ↔ (b ≡ true → v ≡ status_ok)
unfolding only_if
only_iff true v = (λ h e. h, λ h. h refl)
only_iff false v = (λ h e. absurd (ground arith), λ h. refl)

-- A word is compared by its halves.
halves_iff :
    (b : Bool) (x y : ℕ)
    → (only_if b (
          check_field gre_sum (y / 2 ^ 16) (x / 2 ^ 16)
          also check_field gre_off (y % 2 ^ 16) (x % 2 ^ 16))
        ≡ status_ok)
      ↔ (b ≡ true → x ≡ y)
unfolding only_if ◌also◌ check_field
halves_iff true x y = ground arith
halves_iff false x y = ground arith

word_iff :
    (d : Difference) (b : Bool) (x y : ℕ)
    → (only_if b (check_field d y x) ≡ status_ok) ↔ (b ≡ true → x ≡ y)
unfolding only_if check_field
word_iff d true x y = ground arith
word_iff d false x y = ground arith

assert_iff :
    (x y : ℕ)
    → (assert_that (is_gre_supported x && is_gre_supported y) ≡ status_ok)
      ↔ ((is_gre_supported x ≡ true) × (is_gre_supported y ≡ true))
assert_iff x y = ground arith

verify_gre-exact : (x y : Gre) → (verify_gre x y ≡ status_ok) ↔ SameGre x y
unfolding verify_gre
verify_gre-exact x y =
    let checksum = has_checksum y.flags || has_routing y.flags in
    let (sum, sum') = halves_iff checksum (get_or x.be32 0 0) (get_or y.be32 0 0) in
    let (key, key') =
      word_iff gre_key (has_key y.flags) (get_or x.be32 (key_place y) 0)
        (get_or y.be32 (key_place y) 0) in
    let (seq, seq') =
      word_iff gre_seq (has_seq y.flags) (get_or x.be32 (seq_place y) 0)
        (get_or y.be32 (seq_place y) 0) in
    (
      λ h.
          let (ok, h1) = (also_iff _ _).0 h in
          let (len, h2) = (also_iff _ _).0 h1 in
          let (flags, h3) = (also_iff _ _).0 h2 in
          let (proto, h4) = (also_iff _ _).0 h3 in
          let (first, h5) = (also_iff _ _).0 h4 in
          let (second, third) = (also_iff _ _).0 h5 in
          (
            ((assert_iff y.flags x.flags).0 ok).0,
            (check_iff gre_flags y.flags x.flags).0 flags,
            (check_iff gre_proto y.proto x.proto).0 proto,
            (λ e. sum first (ground (arith, e))),
            key second,
            seq third,
          ),
      λ (ok, flags, proto, first, second, third). (also_iff _ _).1 (
        (assert_iff y.flags x.flags).1 (ok, rw flags ok),
        (also_iff _ _).1 (
          (check_iff gre_length (gre_len y.flags) (gre_len x.flags)).1 (rw flags refl),
          (also_iff _ _).1 (
            (check_iff gre_flags y.flags x.flags).1 flags,
            (also_iff _ _).1 (
              (check_iff gre_proto y.proto x.proto).1 proto,
              (also_iff _ _).1 (
                sum' (λ e. first (ground (arith, e, ok))),
                (also_iff _ _).1 (key' second, seq' third),
              ),
            ),
          ),
        ),
      ),
    )

that_iff : (b : Bool) → (assert_that b ≡ status_ok) ↔ (b ≡ true)
that_iff b = ground arith

verify_icmp-exact :
    (x y : Icmp) → (verify_icmp x y ≡ status_ok) ↔ ((x.type ≡ y.type) × (x.code ≡ y.code))
unfolding verify_icmp ◌also◌ check_field
verify_icmp-exact x y = ground arith

-- A script that counts the options, the window and the whole TOS byte.
module _ (a s : Compared) (options : s.options_nocheck ≡ false) (window : s.win_nocheck ≡ false)
    (tos : s.tos_chk ≡ tos_check_tos) where
  verify_ipv4-exact : (x y : Ipv4) → (verify_ipv4 a s true x y ≡ status_ok) ↔ SameIpv4 x y
  unfolding verify_ipv4 ◌also◌ check_field only_if tcp_options_allowance verify_outbound_live_tos
      verify_outbound_live_ttl_or_hl
  verify_ipv4-exact x y = ground (arith, options, tos)

  verify_ipv6-exact : (x y : Ipv6) → (verify_ipv6 a s true x y ≡ status_ok) ↔ SameIpv6 x y
  unfolding verify_ipv6 ◌also◌ check_field only_if tcp_options_allowance verify_outbound_live_tos
      verify_outbound_live_ttl_or_hl
  verify_ipv6-exact x y = ground (arith, options, tos)

  verify_header-exact : (x y : Layer) → (verify_header a s true x y ≡ status_ok) ↔ SameLayer x y
  unfolding verify_header verify_udp only_if
  verify_header-exact (ipv4 x) (ipv4 y) = verify_ipv4-exact x y
  verify_header-exact (ipv6 x) (ipv6 y) = verify_ipv6-exact x y
  verify_header-exact (gre x) (gre y) = verify_gre-exact x y
  verify_header-exact (mpls x) (mpls y) = verify_mpls-ok x y
  verify_header-exact (tcp x) (tcp y) = verify_tcp-exact a s options window x y
  verify_header-exact (udp x) (udp y) = check_iff udp_len y x
  verify_header-exact (icmpv4 x) (icmpv4 y) = verify_icmp-exact x y
  verify_header-exact (icmpv6 x) (icmpv6 y) = verify_icmp-exact x y
  verify_header-exact x y = (λ h. absurd (ground (arith, h)), λ h. absurd h)

  verify_layers-exact :
      (xs ys : List Layer)
      → length xs ≡ length ys
      → (verify_layers a s true xs ys ≡ status_ok) ↔ SameLayers xs ys
  unfolding verify_layers
  verify_layers-exact [] [] e = (λ h. tt, λ h. refl)
  verify_layers-exact (x ∷ xs) (y ∷ ys) e =
      let (head, head') = verify_header-exact x y in
      let (tail, tail') = verify_layers-exact xs ys (omega (arith, e)) in
      let (both, both') = also_iff (verify_header a s true x y) (verify_layers a s true xs ys) in
      (λ h. (head (both h).0, tail (both h).1), λ (h, hs). both' (head' h, tail' hs))
  verify_layers-exact [] (y ∷ ys) e = absurd (omega (arith, e))
  verify_layers-exact (x ∷ xs) [] e = absurd (omega (arith, e))

  SameLayers-length : (xs ys : List Layer) → SameLayers xs ys → length xs ≡ length ys
  SameLayers-length [] [] h = refl
  SameLayers-length (x ∷ xs) (y ∷ ys) (h, hs) = ap suc (SameLayers-length xs ys hs)
  SameLayers-length [] (y ∷ ys) h = absurd h
  SameLayers-length (x ∷ xs) [] h = absurd h

  -- If the script counts the options, the window and the whole TOS byte, a packet passes the strict comparison exactly when it has an IP header and one of layer 4, and its headers are in kind and number the script's and equal to them in all compared fields: a TTL where the script gives one, the checksum, key and sequence number of GRE where its flags announce them.
  pub verify_outbound_live_headers-exact : (verify_outbound_live_headers a s true ≡ status_ok) ↔ (
      (has_layer is_ip a.headers ≡ true)
      × (has_layer is_above_ip a.headers ≡ true)
      × SameLayers a.headers s.headers)
  unfolding verify_outbound_live_headers
  verify_outbound_live_headers-exact =
      let (count, count') = check_iff header_count (length s.headers) (length a.headers) in
      let ip = that_iff (has_layer is_ip a.headers) in
      let above = that_iff (has_layer is_above_ip a.headers) in
      (
        λ h.
            let (i, h1) = (also_iff _ _).0 h in
            let (l, h2) = (also_iff _ _).0 h1 in
            let (n, layers) = (also_iff _ _).0 h2 in
            (ip.0 i, above.0 l, (verify_layers-exact a.headers s.headers (count n)).0 layers),
        λ (i, l, same).
            let n = SameLayers-length a.headers s.headers same in
            (also_iff _ _).1 (
              ip.1 i,
              (also_iff _ _).1 (
                above.1 l,
                (also_iff _ _).1 (count' n, (verify_layers-exact a.headers s.headers n).1 same),
              ),
            ),
      )
