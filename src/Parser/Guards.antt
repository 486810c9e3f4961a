-- ===== src/Parser/Guards.antt =====
-- What the checks of each header establish.
use qo_smos.Prelude.{
  ℕ, zero, suc, ◌+◌, ◌%◌, ◌≤◌, ◌<◌, not, ◌&&◌, List, length, arith, Bool-cases, inl, inr, ltb, ◌==◌,
}
use qo_smos.Parser.Outcome.{Reason}
use qo_smos.Parser.Checks.{
  Extent, check_ipv4, check_ipv6, check_layer3, check_gre, mpls_stack, check_mpls,
}
use qo_smos.Parser.Layer4.{check_tcp, check_udp}
use qo_smos.Parser.Rules.{
  IsTame, Holds, refuse_rule, assert_rule, read8_rule, read16_rule, read_bytes_rule, then-Holds,
  weaken, passes,
}

-- The header and the datagram lie inside the packet, the header inside the datagram.
pub record Fits (p packet_end least : ℕ) (x : Extent) : Type 0 where
  pub header_least : least ≤ x.header
  pub header_total : x.header ≤ x.total
  pub total_inside : p + x.total ≤ packet_end

module _ (buffer : List ℕ) (packet_end : ℕ) (fits : packet_end ≤ length buffer) (p : ℕ) where
  pub check_ipv4-Holds :
      p ≤ packet_end
      → Holds (IsTame buffer packet_end) (Fits p packet_end 20) (check_ipv4 buffer p packet_end)
  unfolding check_ipv4
  check_ipv4-Holds inside = then-Holds (read8_rule buffer packet_end p inside) λ first u.
      then-Holds (refuse_rule buffer packet_end _ _) λ u long_enough.
        then-Holds (refuse_rule buffer packet_end _ _) λ u header_inside.
          then-Holds (read16_rule buffer packet_end (p + 2) (ground arith)) λ total u.
            then-Holds (refuse_rule buffer packet_end _ _) λ u total_inside.
              then-Holds (refuse_rule buffer packet_end _ _) λ u header_fits.
                then-Holds (read16_rule buffer packet_end (p + 6) (ground arith)) λ frag_off u.
                  then-Holds (refuse_rule buffer packet_end _ _) λ u a.
                    then-Holds (refuse_rule buffer packet_end _ _) λ u b.
                      then-Holds (read_bytes_rule buffer packet_end p _ (ground arith) fits)
                        λ bytes u. then-Holds (refuse_rule buffer packet_end _ _) λ u sum_ok.
                          then-Holds (assert_rule buffer packet_end (ground arith)) λ u v.
                            then-Holds (read8_rule buffer packet_end (p + 9) (ground arith))
                              λ protocol u. passes _ (record {
                                header_least = ground arith;
                                header_total = ground arith;
                                total_inside = ground arith;
                              })

  pub check_ipv6-Holds :
      Holds (IsTame buffer packet_end) (Fits p packet_end 20) (check_ipv6 buffer p packet_end)
  unfolding check_ipv6
  check_ipv6-Holds = then-Holds (refuse_rule buffer packet_end _ _) λ u header_inside.
      then-Holds (read16_rule buffer packet_end (p + 4) (ground arith)) λ payload_len u.
        then-Holds (refuse_rule buffer packet_end _ _) λ u total_inside.
          then-Holds (assert_rule buffer packet_end (ground arith)) λ u v.
            then-Holds (assert_rule buffer packet_end (ground arith)) λ u v.
              then-Holds (read8_rule buffer packet_end (p + 6) (ground arith)) λ protocol u.
                passes _ (record {
                  header_least = omega arith;
                  header_total = omega arith;
                  total_inside = ground arith;
                })

  pub check_layer3-Holds :
      (n : ℕ) (overflows : Reason)
      → 1 ≤ n
      → Holds
          (IsTame buffer packet_end)
          (λ _. p + n ≤ packet_end)
          (check_layer3 buffer p packet_end n overflows)
  unfolding check_layer3
  check_layer3-Holds n overflows some_bytes =
      then-Holds (refuse_rule buffer packet_end _ _) λ u inside.
        then-Holds (read8_rule buffer packet_end p (ground arith))
          λ first u. passes _ (ground arith)

  pub check_gre-Holds :
      (bytes : ℕ)
      → p + bytes ≤ packet_end
      → Holds
          (IsTame buffer packet_end)
          (λ x. (4 ≤ x.0) × (p + x.0 ≤ packet_end))
          (check_gre buffer p bytes packet_end)
  unfolding check_gre
  check_gre-Holds bytes inside = then-Holds (refuse_rule buffer packet_end _ _) λ u long_enough.
      then-Holds (read16_rule buffer packet_end p (ground arith)) λ flags u.
        then-Holds (refuse_rule buffer packet_end _ _) λ u a.
          then-Holds (refuse_rule buffer packet_end _ _) λ u b.
            then-Holds (refuse_rule buffer packet_end _ _) λ u least.
              then-Holds (refuse_rule buffer packet_end _ _) λ u most.
                then-Holds (assert_rule buffer packet_end (ground arith)) λ u v.
                  then-Holds (assert_rule buffer packet_end (ground arith)) λ u v.
                    then-Holds (read16_rule buffer packet_end (p + 2) (ground arith))
                      λ proto u. passes _ (ground arith, ground arith)

  pub check_tcp-Holds :
      (bytes : ℕ)
      → p + bytes ≤ packet_end
      → 20 ≤ bytes
      → Holds (IsTame buffer packet_end) (λ len. len ≤ bytes) (check_tcp buffer p bytes)
  unfolding check_tcp
  check_tcp-Holds bytes inside long_enough =
      then-Holds (read8_rule buffer packet_end (p + 12) (omega arith)) λ offset u.
        then-Holds (refuse_rule buffer packet_end _ _) λ u least.
          then-Holds (refuse_rule buffer packet_end _ _) λ u most. passes _ (ground arith)

  pub check_udp-Holds :
      (bytes : ℕ)
      → p + bytes ≤ packet_end
      → 8 ≤ bytes
      → Holds (IsTame buffer packet_end) (λ _. Unit {0}) (check_udp buffer p bytes)
  unfolding check_udp
  check_udp-Holds bytes inside long_enough =
      then-Holds (read16_rule buffer packet_end (p + 4) (omega arith)) λ udp_len u.
        then-Holds (refuse_rule buffer packet_end _ _) λ u a.
          then-Holds (refuse_rule buffer packet_end _ _)
            λ u b. weaken (refuse_rule buffer packet_end _ _) (λ u c. tt)

module _ (buffer : List ℕ) (packet_end : ℕ) where
  -- With as much fuel as there are bytes left, the walk along the label stack ends inside the packet.
  mpls_stack-Holds :
      (fuel p : ℕ)
      → packet_end < p + fuel
      → p ≤ packet_end
      → Holds
          (IsTame buffer packet_end)
          (λ q. (p + 4 ≤ q) × (q ≤ packet_end))
          (mpls_stack buffer packet_end fuel p)
  unfolding mpls_stack
  mpls_stack-Holds zero p enough inside = absurd (omega arith)
  mpls_stack-Holds (suc fuel) p enough inside =
      then-Holds (refuse_rule buffer packet_end _ _) λ u entry_inside.
        then-Holds (read8_rule buffer packet_end (p + 2) (ground arith)) λ third u.
          elim (Bool-cases (not (third % 2 == 1) && ltb (p + 4) packet_end)) [
            | inl more ↦ rw more (
                weaken (mpls_stack-Holds fuel (p + 4) (omega arith) (ground arith))
                  (λ q h. omega arith))
            | inr last ↦ rw last (passes _ (ground arith))
          ]

  pub check_mpls-Holds :
      (p : ℕ)
      → p ≤ packet_end
      → Holds
          (IsTame buffer packet_end)
          (λ q. (p + 4 ≤ q) × (q ≤ packet_end))
          (check_mpls buffer p packet_end)
  unfolding check_mpls
  check_mpls-Holds p inside =
      then-Holds (mpls_stack-Holds (suc packet_end) p (omega arith) inside) λ q between.
        then-Holds (assert_rule buffer packet_end (ground arith))
          λ u v. then-Holds (assert_rule buffer packet_end (ground arith)) λ u v. passes _ between
