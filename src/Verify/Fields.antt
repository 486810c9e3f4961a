-- ===== src/Verify/Fields.antt =====
-- The fields that app/src/main/cpp/run_packet.c compares, and its verdicts.
use qo_smos.Prelude.{ℕ, Bool, List}

-- The messages on a difference.
pub data Difference : Type 0 where
  header_count header_layer : Difference
  ipv4_version ipv4_protocol ipv4_header_length ipv4_total_length ip_ecn tos ttl : Difference
  ipv6_version ipv6_payload_len ipv6_next_header : Difference
  tcp_data_offset tcp_fin tcp_syn tcp_rst tcp_psh tcp_ack tcp_urg tcp_ece tcp_cwr : Difference
  tcp_reserved_bits tcp_seq tcp_ack_seq tcp_window tcp_urg_ptr udp_len : Difference
  gre_length gre_flags gre_proto gre_sum gre_off gre_key gre_seq : Difference
  mpls_depth mpls_label icmp_type icmp_code : Difference
  flowlabel_unmarked flowlabel_same flowlabel_inconsistent : Difference
  fragment_payload : Difference

-- STATUS_OK, or STATUS_ERR with its message; a failed assert is `aborted`.
pub data Verdict : Type 0 where
  status_ok aborted : Verdict
  status_err : Difference → Verdict

pub data TosCheck : Type 0 where
  tos_check_none tos_check_ecn tos_check_tos : TosCheck

pub record Ipv4 : Type 0 where
  pub version : ℕ
  pub ihl : ℕ
  pub tos_byte : ℕ
  pub tot_len : ℕ
  pub ttl_byte : ℕ
  pub protocol : ℕ

pub record Ipv6 : Type 0 where
  pub version : ℕ
  pub tos_byte : ℕ
  pub payload_len : ℕ
  pub next_header : ℕ
  pub hop_limit : ℕ

pub record Tcp : Type 0 where
  pub doff : ℕ
  pub fin : ℕ
  pub syn : ℕ
  pub rst : ℕ
  pub psh : ℕ
  pub ack : ℕ
  pub urg : ℕ
  pub ece : ℕ
  pub cwr : ℕ
  pub res1 : ℕ
  pub seq : ℕ
  pub ack_seq : ℕ
  pub window : ℕ
  pub urg_ptr : ℕ

-- The optional fields are the three words of the union.
pub record Gre : Type 0 where
  pub flags : ℕ
  pub proto : ℕ
  pub be32 : List ℕ

pub record Icmp : Type 0 where
  pub type : ℕ
  pub code : ℕ

-- A header of a packet; of UDP only the length is compared, and MPLS is its label stack.
pub data Layer : Type 0 where
  ipv4 : Ipv4 → Layer
  ipv6 : Ipv6 → Layer
  gre : Gre → Layer
  mpls : List ℕ → Layer
  tcp : Tcp → Layer
  udp : ℕ → Layer
  icmpv4 icmpv6 : Icmp → Layer

-- What is compared of a `struct packet`, with its two NOCHECK flags.
pub record Compared : Type 0 where
  pub headers : List Layer
  pub win_nocheck : Bool
  pub options_nocheck : Bool
  pub tos_chk : TosCheck
  pub tcp_options_len : ℕ
  pub payload_len : ℕ
