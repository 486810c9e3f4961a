-- ===== src/Outbound/Fragments.antt =====
-- What the packets have in common that the loop of `do_outbound_script_packet` accepts.
use qo_smos.Prelude.{
  ℕ, ◌+◌, ◌-◌, ◌≤◌, ◌<◌, ◌≡◌, ◌⊎◌, refl, inl, inr, true, false, List, [], ◌∷◌, ◌++◌, some, arith,
  ltb, Bool-cases, ltb→lt,
}
use qo_smos.Socket.{is_equal_tuple}
use qo_smos.Verify.Fields.{Difference, Verdict, status_ok, status_err, aborted}
use qo_smos.Verify.{◌also◌, only_if, verify_outbound_live_headers}
use qo_smos.Outbound.{
  nothing_collected, Live, packet_payload_len, verify_packet_fragments, Collected, Collecting,
  going, failed, collect, Failure,
}

-- A packet continues the one before it: same connection, and headers that a fragment may have.
pub record IsNext (previous packet : Live) : Type 0 where
  pub connection : is_equal_tuple previous.seen.tuple packet.seen.tuple ≡ true
  pub headers : verify_outbound_live_headers packet.compared previous.compared false ≡ status_ok

-- Packets of equal payloads, each continuing the one before it, with the last of them and the sum.
pub data Fragments : List Live → Live → ℕ → Type 0 where
  one : (packet : Live) → Fragments (packet ∷ []) packet (packet_payload_len packet)
  more :
      {packets : List Live} {previous : Live} {total : ℕ} (packet : Live)
      → Fragments packets previous total
      → IsNext previous packet
      → packet_payload_len packet ≡ packet_payload_len previous
      → Fragments (packets ++ (packet ∷ [])) packet (total + packet_payload_len packet)

-- The packets of a whole script packet: one, or fragments of equal payloads before a last one of any.
pub data Whole (expected : ℕ) : List Live → Type 0 where
  single : (packet : Live) → packet_payload_len packet ≡ expected → Whole expected (packet ∷ [])
  several :
      {packets : List Live} {previous : Live} {total : ℕ} (packet : Live)
      → Fragments packets previous total
      → IsNext previous packet
      → total < expected
      → total + packet_payload_len packet ≡ expected
      → Whole expected (packets ++ (packet ∷ []))

abbrev collected : List Live → Live → ℕ → ℕ → Collected
collected packets last count total = record {
  packets = packets;
  last = some last;
  packet_count = count;
  sniffed_payload_len = total;
}

-- What has been collected while the payload is less than expected.
pub data Partial (expected : ℕ) : Collected → Type 0 where
  none_yet : Partial expected nothing_collected
  some_of :
      (packets : List Live) (last : Live) (count total : ℕ)
      → total < expected
      → Fragments packets last total
      → Partial expected (collected packets last count total)

-- What a round leaves: a part, or all or too much.
pub data Progress (expected : ℕ) : Collected → Type 0 where
  partial :
      (c : Collected) → c.sniffed_payload_len < expected → Partial expected c → Progress expected c
  whole :
      (c : Collected)
      → expected ≤ c.sniffed_payload_len
      → (c.sniffed_payload_len ≡ expected → Whole expected c.packets)
      → Progress expected c

Verdict-cases :
    (v : Verdict) → (v ≡ status_ok) ⊎ ((d : Difference) × (v ≡ status_err d)) ⊎ (v ≡ aborted)
Verdict-cases status_ok = inl refl
Verdict-cases (status_err d) = inr (inl (d, refl))
Verdict-cases aborted = inr (inr refl)

fragments_ok :
    (current previous : Live) (payload sniffed expected : ℕ)
    → verify_packet_fragments current previous payload sniffed expected ≡ status_ok
    → (verify_outbound_live_headers current.compared previous.compared false ≡ status_ok)
      × ((payload < expected - sniffed) → payload ≡ packet_payload_len previous)
unfolding verify_packet_fragments ◌also◌ only_if
fragments_ok current previous payload sniffed expected h = ground arith

from_first :
    (expected : ℕ) (packet : Live)
    → Progress expected (collected (packet ∷ []) packet 1 (packet_payload_len packet))
from_first expected packet = elim (Bool-cases (ltb (packet_payload_len packet) expected)) [
  | inl less ↦ partial _ (ltb→lt _ _ less) (some_of _ packet 1 _ (ltb→lt _ _ less) (one packet))
  | inr enough ↦ whole _ (ground arith) (λ e. single packet e)
]

next_fragment :
    (expected : ℕ) (packets : List Live) (last : Live) (count total : ℕ) (packet : Live)
    → total < expected
    → Fragments packets last total
    → IsNext last packet
    → (packet_payload_len packet < expected - total
        → packet_payload_len packet ≡ packet_payload_len last)
    → Progress expected (
        collected (packets ++ (packet ∷ [])) packet (count + 1) (total + packet_payload_len packet))
next_fragment expected packets last count total packet left fragments next same =
    elim (Bool-cases (ltb (total + packet_payload_len packet) expected)) [
      | inl less ↦
          let below = ltb→lt _ _ less in
          partial _ below
            (some_of _ packet _ _ below (more packet fragments next (same (omega arith))))
      | inr enough ↦ whole _ (ground arith) (λ e. several packet fragments next left e)
    ]

-- A property of what a computation gives if it does not fail.
pub data Each {A : Type 0} (P : A → Type 0) : Collecting A → Type 0 where
  given : (a : A) → P a → Each P (going a)
  given_up : (e : Failure) → Each P (failed e)

pub collect-Progress :
    (expected : ℕ) {c : Collected} (packet : Live)
    → Partial expected c
    → Each (Progress expected) (collect expected c packet)
unfolding collect
collect-Progress expected packet none_yet = given _ (from_first expected packet)
collect-Progress expected packet (some_of packets last count total left fragments) =
    elim (Bool-cases (is_equal_tuple last.seen.tuple packet.seen.tuple)) [
      | inr other ↦ rw (other, collect) (given _ (from_first expected packet))
      | inl same ↦
          elim (Verdict-cases
            (verify_packet_fragments packet last (packet_payload_len packet) total expected)) [
              | inr (inl (d, bad)) ↦ rw (same, bad, collect) (given_up _)
              | inr (inr bad) ↦ rw (same, bad, collect) (given_up _)
              | inl good ↦
                  let (headers, payload) =
                    fragments_ok packet last (packet_payload_len packet) total expected good in
                  rw (same, good, collect)
                    (given _ (
                      next_fragment expected packets last count total packet left fragments
                        (record { connection = same; headers = headers }) payload))
            ]
    ]
