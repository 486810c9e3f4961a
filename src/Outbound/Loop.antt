-- ===== src/Outbound/Loop.antt =====
-- The loop of `do_outbound_script_packet` ends, and what it accepts are the fragments of a whole packet.
use qo_smos.Prelude.{
  ℕ, zero, suc, ◌≤◌, ◌<◌, ◌≡◌, inl, inr, false, not, List, [], ◌∷◌, Option, none, some, length,
  arith, ltb, ◌==◌, Bool-cases, lt→ltb, ==_iff, ◌||◌,
}
use qo_smos.Socket.{
  Socket, find_socket_for_live_packet, Direction, direction_inbound, direction_outbound, Seen,
}
use qo_smos.Socket.Creation.{Run, find_connect_for_live_packet}
use qo_smos.Outbound.{
  after_round, sniffed_by, receive_failed, ◌>>=◌, received, under_test, note_synack, converted,
  sniff_outbound_live_packet, Live, packet_payload_len, Collected, Collecting, going, failed,
  Settings, Failure, Outcome, matched, stopped, round, collect_loop, sniff_script_packet,
  expected_by,
}
use qo_smos.Outbound.Fragments.{
  Whole, Partial, none_yet, Progress, partial, whole, Each, given, given_up, collect-Progress,
}

Each-bind :
    {A B : Type 0} {P : A → Type 0} {Q : B → Type 0} {m : Collecting A} {f : A → Collecting B}
    → Each P m
    → ((a : A) → P a → Each Q (f a))
    → Each Q (m >>= f)
Each-bind (given a p) each = each a p
Each-bind (given_up e) each = given_up e

anything : {A : Type 0} (m : Collecting A) → Each (λ _. Unit) m
anything (going a) = given a tt
anything (failed e) = given_up e

-- A sniffed packet was the device's, and those before it are gone too.
data Shorter (n : ℕ) : Option (Run × Live × List Live) → Type 0 where
  nothing : Shorter n none
  found :
      (run : Run) (packet : Live) (rest : List Live)
      → length rest < n
      → Shorter n (some (run, packet, rest))

sniffed_by-Shorter :
    (n : ℕ) (known : Option Direction) (connect : Option Run) (run : Run) (packet : Live)
    (rest : List Live) (later : Option (Run × Live × List Live))
    → length rest < n
    → Shorter n later
    → Shorter n
        (sniffed_by known connect (some (run, packet, rest)) (λ r. some (r, packet, rest)) later)
sniffed_by-Shorter n (some direction_outbound) connect run packet rest later h l = found _ _ _ h
sniffed_by-Shorter n (some direction_inbound) (some r) run packet rest later h l = found _ _ _ h
sniffed_by-Shorter n (some direction_inbound) none run packet rest later h l = l
sniffed_by-Shorter n none (some r) run packet rest later h l = found _ _ _ h
sniffed_by-Shorter n none none run packet rest later h l = l

longer : {n : ℕ} {o : Option (Run × Live × List Live)} → Shorter n o → Shorter (suc n) o
longer nothing = nothing
longer (found run packet rest h) = found run packet rest (omega arith)

sniff-Shorter :
    (run : Run) (device : List Live)
    → Shorter (length device) (sniff_outbound_live_packet run device)
unfolding sniff_outbound_live_packet
sniff-Shorter run [] = nothing
sniff-Shorter run (packet ∷ device) =
    sniffed_by-Shorter _ (find_socket_for_live_packet run.socket_under_test packet.seen)
      (find_connect_for_live_packet run packet.seen) run packet device _ (omega arith)
      (longer (sniff-Shorter run device))

received_from :
    (n : ℕ) (o : Option (Run × Live × List Live))
    → Shorter n o
    → Each
        (λ r. length r.2 < n)
        (elim o as (λ x. Collecting (Run × Live × List Live)) [
          | none ↦ failed receive_failed
          | some r ↦ going r
        ])
received_from n none nothing = given_up _
received_from n _ (found run packet rest h) = given _ h

received-shorter :
    (run : Run) (device : List Live) → Each (λ r. length r.2 < length device) (received run device)
unfolding received
received-shorter run device = received_from _ _ (sniff-Shorter run device)

round-Progress :
    (script : Seen) (expected : ℕ) (run : Run) (device : List Live) {c : Collected}
    → Partial expected c
    → Each
        (λ r. Progress expected r.2 × (length r.1 < length device))
        (round script expected run device c)
unfolding round
round-Progress script expected run device p =
    Each-bind (received-shorter run device) (λ found shorter.
      Each-bind (anything (under_test found.0)) (λ socket _.
        Each-bind (anything (note_synack socket script found.1.seen)) (λ socket' _.
          Each-bind (anything (converted socket' found.1)) (λ sniffed _.
            Each-bind (collect-Progress expected sniffed p)
              (λ c' progress. given _ (progress, shorter))))))

-- What the loop ends with: fuel is left, and packets that it accepts are whole.
pub data Ended (expected : ℕ) : Outcome → Type 0 where
  matched_whole :
      (run : Run) (packets : List Live)
      → Whole expected packets
      → Ended expected (matched run packets)
  stopped_by : (e : Failure) → Ended expected (stopped e)

lt_differs : (a b : ℕ) → a < b → (a == b) ≡ false
lt_differs a b h = ground arith

le_stops : (a b : ℕ) → b ≤ a → ltb a b ≡ false
le_stops a b h = ground arith

after_round-Ended :
    {n : ℕ} (settings : Settings) (expected : ℕ) (m : Collecting (Run × List Live × Collected))
    (loop : Run → List Live → Collected → Outcome)
    → Each (λ r. Progress expected r.2 × (length r.1 < n)) m
    → ((run : Run) (device : List Live) (c : Collected)
        → Partial expected c
        → length device < n
        → Ended expected (loop run device c))
    → Ended expected (after_round settings expected loop m)
unfolding after_round
after_round-Ended settings expected m loop (given_up e) again = stopped_by e
after_round-Ended settings expected m loop (given (run, rest, _) (partial c less p, h)) again =
    elim (Bool-cases (not settings.strict_segments || settings.is_wire_server)) [
      | inl aggregate ↦ rw (lt→ltb _ _ less, aggregate) (again run rest c p h)
      | inr alone ↦ rw (lt→ltb _ _ less, alone, lt_differs _ _ less) (stopped_by _)
    ]
after_round-Ended settings expected m loop (given (run, rest, _) (whole c enough w, h)) again =
    elim (Bool-cases (c.sniffed_payload_len == expected)) [
      | inl all ↦
          rw (le_stops _ _ enough, all) (matched_whole run c.packets (w ((==_iff _ _).0 all)))
      | inr excess ↦ rw (le_stops _ _ enough, excess) (stopped_by _)
    ]

collect_loop-Ended :
    (settings : Settings) (script : Seen) (expected fuel : ℕ) (run : Run) (device : List Live)
    {c : Collected}
    → Partial expected c
    → length device < fuel
    → Ended expected (collect_loop settings script expected fuel run device c)
unfolding collect_loop
collect_loop-Ended settings script expected zero run device p h = absurd (omega arith)
collect_loop-Ended settings script expected (suc fuel) run device p h =
    after_round-Ended settings expected _ (collect_loop settings script expected fuel)
      (round-Progress script expected run device p)
      (λ run' rest c' q l.
        collect_loop-Ended settings script expected fuel run' rest q (omega arith))

-- Whatever the device gives, the loop of `do_outbound_script_packet` ends, with fuel for one round more than the device has packets: with an error, or with packets whose payloads sum to the script packet's. These are one packet, or packets of which each has the connection of the one before it and headers that pass the comparison of fragments with it, and all but the last have equal payloads that sum to less than the script packet's.
pub sniff_script_packet-Ended :
    (settings : Settings) (run : Run) (socket : Socket) (script : Live) (device : List Live)
    → Ended (packet_payload_len script) (sniff_script_packet settings run socket script device)
unfolding sniff_script_packet
sniff_script_packet-Ended settings run socket script device =
    collect_loop-Ended settings script.seen (packet_payload_len script) (suc (length device))
      (record run { socket_under_test = some (expected_by socket script.seen) }) device none_yet
      (omega arith)
