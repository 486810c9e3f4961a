-- ===== src/Verify/Live/Matching.antt =====
-- What the comparison of a live packet with the script's accepts, in terms of the packets.
use qo_smos.Prelude.{ℕ, ◌≡◌, ◌≢◌, ◌↔◌, true, Option, none, some, ◌⊎◌, List}
use qo_smos.Checksum.{ipv4_checksum}
use qo_smos.Timing.{State, Event, any_time}
use qo_smos.Timing.Exact.{IsClose, last_time_of}
use qo_smos.Verify.{has_layer, is_ip, is_above_ip}
use qo_smos.Verify.Same.{SameLayers}
use qo_smos.Verify.Flowlabel.{FlowlabelMap}
use qo_smos.Verify.TcpOptions.{TsConfig}
use qo_smos.Verify.Live.{LivePacket}
use qo_smos.Verify.Live.Results.{OptionsPass}

-- A script with a label wants one in the live packet, which changes exactly with the script's.
abbrev pub LabelFollows : FlowlabelMap → ℕ → ℕ → Type 0
LabelFollows map script live =
    (live ≢ 0)
    × ((map.flowlabel_script ≡ 0) ⊎ ((script ≡ map.flowlabel_script) ↔ (live ≡ map.flowlabel_live)))

abbrev pub LabelsFollow : FlowlabelMap → Option ℕ → Option ℕ → Type 0
LabelsFollow map actual none = Unit
LabelsFollow map none (some script) = ⊥
LabelsFollow map (some actual) (some script) = (script ≡ 0) ⊎ LabelFollows map script actual

-- The IPv4 header of the live packet, if it has one, sums to zero.
abbrev pub IsSummed : LivePacket → Type 0
IsSummed live = (header : List ℕ) → live.ipv4_header ≡ some header → ipv4_checksum header ≡ 0

-- The live packet and what is mapped of it match the script's.
pub record Matches (config : TsConfig) (state : State) (event : Event) (map : FlowlabelMap)
    (live actual script : LivePacket) : Type 0 where
  pub checksum : IsSummed live
  pub ip : has_layer is_ip actual.compared.headers ≡ true
  pub above : has_layer is_above_ip actual.compared.headers ≡ true
  pub layers : SameLayers actual.compared.headers script.compared.headers
  pub labels : LabelsFollow map actual.flowlabel script.flowlabel
  pub options : OptionsPass config script.compared.options_nocheck actual.options script.options
  pub payload : (actual.icmp ≡ true) ⊎ (actual.payload ≡ script.payload)
  pub time :
      (event.time_type ≡ any_time)
      ⊎ IsClose state event.time_usecs
          (last_time_of event.time_type event.time_usecs event.time_usecs_end)
          live.time_usecs
