-- ===== src/Verify/Live/Results.antt =====
-- The results of `verify_outbound_live_packet`.
use qo_smos.Prelude.{
  ℕ, ◌≡◌, ◌↔◌, refl, sym, Bool, true, false, Option, none, some, ==_refl, if◌then◌else◌, length,
  arith, ◌⊎◌,
}
use qo_smos.Socket.Matching.{is_equal_ip_refl, is_equal_ip_sound}
use qo_smos.Timing.{State, Event, TimeVerdict, in_time, check_event_time}
use qo_smos.Verify.Fields.{Verdict, status_ok}
use qo_smos.Verify.{verify_outbound_live_headers}
use qo_smos.Verify.Flowlabel.{FlowlabelMap, verify_outbound_live_ipv6_flowlabel}
use qo_smos.Verify.TcpOptions.{
  TsConfig, OptionVerdict, OptionBlock, options_ok, verify_outbound_live_tcp_options,
}
use qo_smos.Verify.Live.{
  Status, ok, warn, LivePacket, Trial, passed, fatal, non_fatal, crashed, and_also,
  non_fatal_unless, is_ok, options_trial, headers_trial, is_in_time, verify_outbound_live_checksums,
  check_flowlabel, check_options, verify_outbound_live_payload, verify_mapped, verdict_of,
  verify_outbound_live_packet,
}

-- The flow labels and the options pass if the script's packet has any.
abbrev pub LabelsPass : FlowlabelMap → Option ℕ → Option ℕ → Type 0
LabelsPass map actual none = Unit
LabelsPass map none (some script) = ⊥
LabelsPass map (some actual) (some script) =
    (verify_outbound_live_ipv6_flowlabel map script actual).1 ≡ status_ok

abbrev pub OptionsPass : TsConfig → Bool → Option OptionBlock → Option OptionBlock → Type 0
OptionsPass config options_nocheck actual none = Unit
OptionsPass config options_nocheck none (some script) = ⊥
OptionsPass config options_nocheck (some actual) (some script) =
    verify_outbound_live_tcp_options config options_nocheck actual script ≡ options_ok

-- Every check passes.
pub record Passes (config : TsConfig) (state : State) (event : Event) (map : FlowlabelMap)
    (live actual script : LivePacket) : Type 0 where
  pub checksums : verify_outbound_live_checksums live ≡ true
  pub headers : verify_outbound_live_headers actual.compared script.compared true ≡ status_ok
  pub labels : LabelsPass map actual.flowlabel script.flowlabel
  pub options : OptionsPass config script.compared.options_nocheck actual.options script.options
  pub payload : (actual.icmp ≡ true) ⊎ (actual.payload ≡ script.payload)
  pub time : check_event_time state event live.time_usecs ≡ in_time

and_also_iff : (s t : Trial) → (and_also s t ≡ passed) ↔ ((s ≡ passed) × (t ≡ passed))
and_also_iff passed t = (λ h. (refl, h), λ h. h.1)
and_also_iff fatal t = ground arith
and_also_iff non_fatal t = ground arith
and_also_iff crashed t = ground arith

unless_iff : (b : Bool) → (non_fatal_unless b ≡ passed) ↔ (b ≡ true)
unless_iff b = ground arith

is_ok_iff : (v : Verdict) → (is_ok v ≡ true) ↔ (v ≡ status_ok)
is_ok_iff status_ok = (λ h. refl, λ h. refl)
is_ok_iff _ = ground arith

headers_iff : (v : Verdict) → (headers_trial v ≡ passed) ↔ (v ≡ status_ok)
headers_iff status_ok = (λ h. refl, λ h. refl)
headers_iff _ = ground arith

is_in_time_iff : (v : TimeVerdict) → (is_in_time v ≡ true) ↔ (v ≡ in_time)
is_in_time_iff in_time = (λ h. refl, λ h. refl)
is_in_time_iff _ = ground arith

options_trial_iff : (v : OptionVerdict) → (options_trial v ≡ passed) ↔ (v ≡ options_ok)
options_trial_iff options_ok = (λ h. refl, λ h. refl)
options_trial_iff _ = ground arith

payload_iff :
    (actual script : LivePacket)
    → (verify_outbound_live_payload actual script ≡ passed) ↔ (actual.payload ≡ script.payload)
unfolding verify_outbound_live_payload
payload_iff actual script = (
  λ h. sym (is_equal_ip_sound script.payload actual.payload (ground arith)),
  λ e. rw (e, ==_refl (length script.payload), is_equal_ip_refl script.payload) refl,
)

icmp_iff :
    (actual script : LivePacket)
    → ((if actual.icmp then passed else verify_outbound_live_payload actual script) ≡ passed)
      ↔ ((actual.icmp ≡ true) ⊎ (actual.payload ≡ script.payload))
icmp_iff actual script = let same = payload_iff actual script in ground arith

verdict_iff : (b : Bool) (t : Trial) → (verdict_of b t ≡ some ok) ↔ (t ≡ passed)
unfolding verdict_of
verdict_iff b passed = (λ h. refl, λ h. refl)
verdict_iff b fatal = ground arith
verdict_iff b non_fatal = ground arith
verdict_iff b crashed = ground arith

labels_iff :
    (map : FlowlabelMap) (actual script : Option ℕ)
    → ((check_flowlabel map actual script).1 ≡ passed) ↔ LabelsPass map actual script
unfolding check_flowlabel
labels_iff map actual none = (λ h. tt, λ h. refl)
labels_iff map none (some script) = (λ h. absurd (ground arith), λ h. absurd h)
labels_iff map (some actual) (some script) =
    let verdict = (verify_outbound_live_ipv6_flowlabel map script actual).1 in
    let (to, from) = unless_iff (is_ok verdict) in
    let (to', from') = is_ok_iff verdict in (λ h. to' (to h), λ h. from (from' h))

options_iff :
    (config : TsConfig) (nocheck : Bool) (actual script : Option OptionBlock)
    → (check_options config nocheck actual script ≡ passed)
      ↔ OptionsPass config nocheck actual script
unfolding check_options
options_iff config nocheck actual none = (λ h. tt, λ h. refl)
options_iff config nocheck none (some script) = (λ h. absurd (ground arith), λ h. absurd h)
options_iff config nocheck (some actual) (some script) =
    options_trial_iff (verify_outbound_live_tcp_options config nocheck actual script)

chain_iff :
    (headers labels options payload time : Trial)
    → (and_also headers (and_also labels (and_also options (and_also payload time))) ≡ passed) ↔ (
        (headers ≡ passed)
        × (labels ≡ passed)
        × (options ≡ passed)
        × (payload ≡ passed)
        × (time ≡ passed))
chain_iff headers labels options payload time =
    let (to0, from0) =
      and_also_iff headers (and_also labels (and_also options (and_also payload time))) in
    let (to1, from1) = and_also_iff labels (and_also options (and_also payload time)) in
    let (to2, from2) = and_also_iff options (and_also payload time) in
    let (to3, from3) = and_also_iff payload time in
    (
      λ h.
          let (d, h0) = to0 h in
          let (l, h1) = to1 h0 in let (o, h2) = to2 h1 in let (p, t) = to3 h2 in (d, l, o, p, t),
      λ (d, l, o, p, t). from0 (d, from1 (l, from2 (o, from3 (p, t)))),
    )

checked_iff :
    (b : Bool) (non_fatal_packet : Bool) (map after : FlowlabelMap) (t : Trial)
    → ((if◌then◌else◌ {A = FlowlabelMap × Option Status} b
          (after, verdict_of non_fatal_packet t)
          (map, verdict_of non_fatal_packet fatal)).1
        ≡ some ok)
      ↔ ((b ≡ true) × (t ≡ passed))
checked_iff true n map after t =
    let (to, from) = verdict_iff n t in (λ h. (refl, to h), λ h. from h.1)
checked_iff false n map after t =
    let (to, from) = verdict_iff n fatal in
    (λ h. absurd (ground (arith, to h)), λ h. absurd (ground arith))

-- Behind a successful mapping the comparison of a live packet with the script's gives STATUS_OK exactly when the live IPv4 checksum is right, the strict comparison of headers, the checks of flow label and TCP options and that of the time succeed, and the payloads are equal unless the packet is ICMP.
pub verify_outbound_live_packet-exact :
    (config : TsConfig) (non_fatal_packet : Bool) (state : State) (event : Event)
    (map : FlowlabelMap) (live actual script : LivePacket)
    → ((verify_outbound_live_packet config non_fatal_packet state event map live
          (some actual)
          script).1
        ≡ some ok)
      ↔ Passes config state event map live actual script
unfolding verify_outbound_live_packet verify_mapped
verify_outbound_live_packet-exact config non_fatal_packet state event map live actual script =
    let headers = verify_outbound_live_headers actual.compared script.compared true in
    let labels = (check_flowlabel map actual.flowlabel script.flowlabel).1 in
    let options =
      check_options config script.compared.options_nocheck actual.options script.options in
    let payload : Trial =
      if actual.icmp then passed else verify_outbound_live_payload actual script in
    let on_time = is_in_time (check_event_time state event live.time_usecs) in
    let (to1, from1) =
      checked_iff (verify_outbound_live_checksums live) non_fatal_packet map
        (verify_mapped config state event map actual live.time_usecs script).0
        (verify_mapped config state event map actual live.time_usecs script).1 in
    let (to2, from2) =
      chain_iff (headers_trial headers) labels options payload (non_fatal_unless on_time) in
    (
      λ h.
          let (sum, h1) = to1 h in
          let (heads, l, o, p, t) = to2 h1 in
          record {
            checksums = sum;
            headers = (headers_iff headers).0 heads;
            labels = (labels_iff map actual.flowlabel script.flowlabel).0 l;
            options =
                (options_iff config script.compared.options_nocheck actual.options script.options).0
                  o;
            payload = (icmp_iff actual script).0 p;
            time = (is_in_time_iff _).0 ((unless_iff on_time).0 t);
          },
      λ g. from1 (
        g.checksums,
        from2 (
          (headers_iff headers).1 g.headers,
          (labels_iff map actual.flowlabel script.flowlabel).1 g.labels,
          (options_iff config script.compared.options_nocheck actual.options script.options).1
              g.options,
          (icmp_iff actual script).1 g.payload,
          (unless_iff on_time).1 ((is_in_time_iff _).1 g.time),
        ),
      ),
    )

warn_only :
    (b n : Bool) (map after : FlowlabelMap) (t : Trial)
    → (if◌then◌else◌ {A = FlowlabelMap × Option Status} b
        (after, verdict_of n t)
        (map, verdict_of n fatal)).1
      ≡ some warn
    → (n ≡ true) × (b ≡ true)
unfolding verdict_of
warn_only true true map after t h = (refl, refl)
warn_only true false map after passed h = absurd (ground arith)
warn_only true false map after fatal h = absurd (ground arith)
warn_only true false map after non_fatal h = absurd (ground arith)
warn_only true false map after crashed h = absurd (ground arith)
warn_only false n map after t h = absurd (ground arith)

-- STATUS_WARN is the result only if the configuration makes failed comparisons non-fatal, the live IPv4 checksum is right, the packet's values could be mapped, and the mapped packet fails one of the comparisons with the script's: of headers, flow label, TCP options, payload or time.
pub verify_outbound_live_packet-warns :
    (config : TsConfig) (non_fatal_packet : Bool) (state : State) (event : Event)
    (map : FlowlabelMap) (live : LivePacket) (mapped : Option LivePacket) (script : LivePacket)
    → (verify_outbound_live_packet config non_fatal_packet state event map live mapped script).1
      ≡ some warn
    → (non_fatal_packet ≡ true)
      × (verify_outbound_live_checksums live ≡ true)
      × ((actual : LivePacket) × (mapped ≡ some actual)
          × ¬ Passes config state event map live actual script)
unfolding verify_outbound_live_packet verdict_of
verify_outbound_live_packet-warns config n state event map live none script h =
    absurd (ground arith)
verify_outbound_live_packet-warns config n state event map live (some actual) script h =
    let t = verify_mapped config state event map actual live.time_usecs script in
    let (fatal_not, summed) = warn_only (verify_outbound_live_checksums live) n map t.0 t.1 h in
    let exact = verify_outbound_live_packet-exact config n state event map live actual script in
    (
      fatal_not,
      summed,
      (actual, refl, λ passes. let ok_too = exact.1 passes in absurd (ground (arith, h, ok_too))),
    )
