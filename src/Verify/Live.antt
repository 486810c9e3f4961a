-- ===== src/Verify/Live.antt =====
-- `verify_outbound_live_packet` of app/src/main/cpp/run_packet.c, behind the mapping of the live packet's
-- values to the script's.
pub mod Results
pub mod Matching
use qo_smos.Prelude.{
  ℕ, ◌≡◌, ◌≢◌, ◌↔◌, refl, Bool, true, false, not, ◌==◌, List, Option, none, some, ==_refl,
  if◌then◌else◌, length, arith, Bool-cases, ◌⊎◌, inl, inr,
}
use qo_smos.Prelude.Int.{ℤ}
use qo_smos.Checksum.{ipv4_checksum}
use qo_smos.Socket.{is_equal_ip}
use qo_smos.Timing.{State, Event, TimeVerdict, in_time, check_event_time}
use qo_smos.Verify.Fields.{Verdict, status_ok, status_err, aborted, Compared}
use qo_smos.Verify.{verify_outbound_live_headers}
use qo_smos.Verify.Flowlabel.{FlowlabelMap, verify_outbound_live_ipv6_flowlabel}
use qo_smos.Verify.TcpOptions.{
  OptionVerdict, options_ok, unread, overflowed, unfinished, OptionBlock, TsConfig,
  verify_outbound_live_tcp_options,
}

-- `STATUS_OK`, `STATUS_ERR`, `STATUS_WARN`
pub data Status : Type 0 where
  ok err warn : Status

-- A packet with what the checks read: its IPv4 header, if it has one, its flow label, if IPv6, and its TCP options, if TCP.
pub record LivePacket : Type 0 where
  pub compared : Compared
  pub ipv4_header : Option (List ℕ)
  pub flowlabel : Option ℕ
  pub options : Option OptionBlock
  pub icmp : Bool
  pub payload : List ℕ
  pub time_usecs : ℤ

unfoldable pub verify_outbound_live_checksums : LivePacket → Bool
unfolding ipv4_checksum
verify_outbound_live_checksums live = elim live.ipv4_header [
  | none ↦ true
  | some header ↦ ipv4_checksum header == 0
]

-- How the checks end before `out:`, with `non_fatal` set or not; and a failed assert or null pointer.
pub data Trial : Type 0 where
  passed fatal non_fatal crashed : Trial

abbrev pub and_also : Trial → Trial → Trial
and_also passed t = t
and_also other t = other

abbrev pub is_passed : Trial → Bool
is_passed passed = true
is_passed _ = false

abbrev pub non_fatal_unless : Bool → Trial
non_fatal_unless b = if b then passed else non_fatal

abbrev pub is_ok : Verdict → Bool
is_ok status_ok = true
is_ok _ = false

-- A read outside a buffer, the overflow of an int and the end of fuel are no result.
abbrev pub options_trial : OptionVerdict → Trial
options_trial options_ok = passed
options_trial unread = crashed
options_trial overflowed = crashed
options_trial unfinished = crashed
options_trial _ = non_fatal

abbrev pub headers_trial : Verdict → Trial
headers_trial status_ok = passed
headers_trial (status_err d) = non_fatal
headers_trial aborted = crashed

abbrev pub is_in_time : TimeVerdict → Bool
is_in_time in_time = true
is_in_time _ = false

-- An actual packet without a flow label or options behind equal headers is a null pointer.
unfoldable pub check_flowlabel : FlowlabelMap → Option ℕ → Option ℕ → FlowlabelMap × Trial
unfolding verify_outbound_live_ipv6_flowlabel
check_flowlabel map actual none = (map, passed)
check_flowlabel map none (some script) = (map, crashed)
check_flowlabel map (some actual) (some script) =
    let (map', verdict) = verify_outbound_live_ipv6_flowlabel map script actual in
    (map', non_fatal_unless (is_ok verdict))

unfoldable pub check_options : TsConfig → Bool → Option OptionBlock → Option OptionBlock → Trial
unfolding verify_outbound_live_tcp_options
check_options config options_nocheck actual none = passed
check_options config options_nocheck none (some script) = crashed
check_options config options_nocheck (some actual) (some script) =
    options_trial (verify_outbound_live_tcp_options config options_nocheck actual script)

unfoldable pub verify_outbound_live_payload : LivePacket → LivePacket → Trial
verify_outbound_live_payload actual script =
    if length actual.payload == length script.payload
    then non_fatal_unless (is_equal_ip script.payload actual.payload)
    else crashed

-- The checks behind the mapping, in their order; the flow labels are the socket's afterwards.
unfoldable pub verify_mapped :
    TsConfig → State → Event → FlowlabelMap → LivePacket → ℤ → LivePacket → FlowlabelMap × Trial
unfolding verify_outbound_live_headers check_flowlabel check_options verify_outbound_live_payload
    check_event_time
verify_mapped config state event map actual live_usecs script =
    let headers =
      headers_trial (verify_outbound_live_headers actual.compared script.compared true) in
    let (map', labels) = check_flowlabel map actual.flowlabel script.flowlabel in
    let rest =
      and_also (check_options config script.compared.options_nocheck actual.options script.options)
        (and_also (if actual.icmp then passed else verify_outbound_live_payload actual script)
          (non_fatal_unless (is_in_time (check_event_time state event live_usecs)))) in
    (if is_passed headers then map' else map, and_also headers (and_also labels rest))

-- The result, behind `out:`; `none` is a failed assert or null pointer.
unfoldable pub verdict_of : Bool → Trial → Option Status
verdict_of non_fatal_packet passed = some ok
verdict_of non_fatal_packet fatal = some err
verdict_of non_fatal_packet non_fatal = some (if non_fatal_packet then warn else err)
verdict_of non_fatal_packet crashed = none

-- `actual` is the copy of the live packet that `map_outbound_live_packet` leaves, `none` its error.
unfoldable pub verify_outbound_live_packet :
    TsConfig
    → Bool
    → State
    → Event
    → FlowlabelMap
    → LivePacket
    → Option LivePacket
    → LivePacket
    → FlowlabelMap × Option Status
unfolding verify_outbound_live_checksums verify_mapped verdict_of
verify_outbound_live_packet config non_fatal_packet state event map live none script =
    (map, verdict_of non_fatal_packet fatal)
verify_outbound_live_packet config non_fatal_packet state event map live (some actual) script =
    if verify_outbound_live_checksums live
    then (let (map', trial) = verify_mapped config state event map actual live.time_usecs script in
        (map', verdict_of non_fatal_packet trial))
    else (map, verdict_of non_fatal_packet fatal)
