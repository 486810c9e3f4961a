-- ===== src/Verify/Flowlabel.antt =====
-- `verify_outbound_live_ipv6_flowlabel` of app/src/main/cpp/run_packet.c and what it enforces over
-- the packets of a socket.
use qo_smos.Prelude.{ℕ, ◌≡◌, ◌≢◌, ◌↔◌, ap, not, arith, ◌==◌, if◌then◌else◌}
use qo_smos.Verify.Fields.{
  Verdict, status_ok, status_err, flowlabel_unmarked, flowlabel_same, flowlabel_inconsistent,
}

-- `struct flowlabel_map`
pub record FlowlabelMap : Type 0 where
  pub flowlabel_script : ℕ
  pub flowlabel_live : ℕ

-- The socket's map after the check, and the verdict.
unfoldable pub verify_outbound_live_ipv6_flowlabel : FlowlabelMap → ℕ → ℕ → FlowlabelMap × Verdict
verify_outbound_live_ipv6_flowlabel map script live =
    if script == 0
    then (map, status_ok)
    else if live == 0
    then (map, status_err flowlabel_unmarked)
    else if map.flowlabel_script == 0
    then (record { flowlabel_script = script; flowlabel_live = live }, status_ok)
    else if not (script == map.flowlabel_script)
    then (if not (live == map.flowlabel_live)
        then (record { flowlabel_script = script; flowlabel_live = live }, status_ok)
        else (map, status_err flowlabel_same))
    else if live == map.flowlabel_live
    then (map, status_ok)
    else (map, status_err flowlabel_inconsistent)

-- A check that succeeds leaves the pair of the packet's labels.
flowlabel_moved :
    (map : FlowlabelMap) (script live : ℕ)
    → script ≢ 0
    → map.flowlabel_script ≢ 0
    → (verify_outbound_live_ipv6_flowlabel map script live).1 ≡ status_ok
    → verify_outbound_live_ipv6_flowlabel map script live
      ≡ (record { flowlabel_script = script; flowlabel_live = live }, status_ok)
unfolding verify_outbound_live_ipv6_flowlabel
flowlabel_moved map script live labelled started h =
    let same_script : (verify_outbound_live_ipv6_flowlabel map script live).0.flowlabel_script
        ≡ script =
      ground arith in
    let same_live : (verify_outbound_live_ipv6_flowlabel map script live).0.flowlabel_live ≡ live =
      ground arith in
    λ i. (record { flowlabel_script = same_script i; flowlabel_live = same_live i }, h i)

flowlabel_accepts :
    (map : FlowlabelMap) (script live : ℕ)
    → script ≢ 0
    → map.flowlabel_script ≢ 0
    → ((verify_outbound_live_ipv6_flowlabel map script live).1 ≡ status_ok)
      ↔ ((live ≢ 0) × ((script ≡ map.flowlabel_script) ↔ (live ≡ map.flowlabel_live)))
unfolding verify_outbound_live_ipv6_flowlabel
flowlabel_accepts map script live labelled started = (λ h. ground arith, λ h. ground arith)

-- On a labelled packet of a socket that has a label, the check succeeds and keeps the packet's two
-- labels exactly when the packet is labelled on the wire too, and has the last label there if and
-- only if it has the last label in the script.
pub flowlabel-consistent :
    (map : FlowlabelMap) (script live : ℕ)
    → script ≢ 0
    → map.flowlabel_script ≢ 0
    → (verify_outbound_live_ipv6_flowlabel map script live
        ≡ (record { flowlabel_script = script; flowlabel_live = live }, status_ok))
      ↔ ((live ≢ 0) × ((script ≡ map.flowlabel_script) ↔ (live ≡ map.flowlabel_live)))
flowlabel-consistent map script live labelled started =
    let accepts = flowlabel_accepts map script live labelled started in
    (
      λ h. accepts.0 (ap (λ r. r.1) h),
      λ c. flowlabel_moved map script live labelled started (accepts.1 c),
    )
