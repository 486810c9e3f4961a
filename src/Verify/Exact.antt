-- ===== src/Verify/Exact.antt =====
-- When the comparisons of headers succeed.
use qo_smos.Prelude.{
  ℕ, ◌+◌, ◌*◌, ◌/◌, ◌≡◌, ◌↔◌, refl, Bool, true, false, not, List, [], ◌∷◌, arith, ◌==◌, length,
  ==_refl,
}
use qo_smos.Verify.Fields.{
  Verdict, status_ok, status_err, aborted, Difference, mpls_depth, tcp_seq, tcp_window, tcp_urg_ptr,
  Tcp, Compared,
}
use qo_smos.Prelude.Words.{add32}
use qo_smos.Verify.{
  ◌also◌, only_if, check_field, tcp_options_allowance, verify_tcp, verify_entries, verify_mpls,
}

module _ (d : Difference) (expected actual : ℕ) where
  pub check_field-ok : check_field d expected actual ≡ status_ok → actual ≡ expected
  unfolding check_field
  check_field-ok h = ground arith

  pub check_field-equal : actual ≡ expected → check_field d expected actual ≡ status_ok
  unfolding check_field
  check_field-equal h = ground arith

pub also-first : (v w : Verdict) → (v also w) ≡ status_ok → v ≡ status_ok
unfolding ◌also◌
also-first status_ok w h = refl
also-first (status_err d) w h = h
also-first aborted w h = h

pub also-second : (v w : Verdict) → (v also w) ≡ status_ok → w ≡ status_ok
unfolding ◌also◌
also-second status_ok w h = h
also-second (status_err d) w h = absurd (ground arith)
also-second aborted w h = absurd (ground arith)

only_if-true : (b : Bool) (v : Verdict) → b ≡ true → only_if b v ≡ status_ok → v ≡ status_ok
unfolding only_if
only_if-true true v e h = h
only_if-true false v e h = absurd (ground arith)

-- A comparison with one field of the remaining ones.
split :
    (d : Difference) (expected actual : ℕ) (w : Verdict)
    → (check_field d expected actual also w) ≡ status_ok
    → (actual ≡ expected) × (w ≡ status_ok)
split d expected actual w h = (
  check_field-ok d expected actual (also-first _ w h),
  also-second (check_field d expected actual) w h,
)

verify_entries-ok :
    (actual script : List ℕ)
    → length actual ≡ length script
    → verify_entries actual script ≡ status_ok
    → actual ≡ script
unfolding verify_entries
verify_entries-ok [] [] e h = refl
verify_entries-ok (a ∷ actual) [] e h = absurd (omega (arith, e))
verify_entries-ok [] (s ∷ script) e h = absurd (omega (arith, e))
verify_entries-ok (a ∷ actual) (s ∷ script) e h =
    let (first, rest) = split _ s a (verify_entries actual script) h in
    rw (first, verify_entries-ok actual script (omega (arith, e)) rest) refl

verify_entries_self : (script : List ℕ) → verify_entries script script ≡ status_ok
unfolding verify_entries ◌also◌
verify_entries_self [] = refl
verify_entries_self (s ∷ script) = rw (check_field-equal _ s s refl) (verify_entries_self script)

-- MPLS label stacks compare as equal exactly when they are equal: no depth or entry is left out.
pub verify_mpls-ok :
    (actual script : List ℕ) → (verify_mpls actual script ≡ status_ok) ↔ (actual ≡ script)
unfolding verify_mpls ◌also◌
verify_mpls-ok actual script = (
  λ h.
      let (depth, rest) =
        split _ (length script * 4) (length actual * 4) (verify_entries actual script) h in
      verify_entries-ok actual script (omega (arith, depth)) rest,
  λ e.
      rw (e, verify_mpls, check_field-equal mpls_depth (length script * 4) (length script * 4) refl)
        (verify_entries_self script),
)

-- The two packets of a comparison in which the options and the window count.
module _ (a s : Compared) (options : s.options_nocheck ≡ false)
    (window : s.win_nocheck ≡ false) where
  no_allowance : tcp_options_allowance a s ≡ 0
  unfolding tcp_options_allowance
  no_allowance = rw (tcp_options_allowance, options) refl

  verify_tcp-fields : (x y : Tcp) → verify_tcp a s true x y ≡ status_ok → x ≡ y
  unfolding verify_tcp only_if
  verify_tcp-fields x y h =
      let (doff, h1) = split _ _ _ _ h in
      let (fin, h2) = split _ _ _ _ h1 in
      let (syn, h3) = split _ _ _ _ h2 in
      let (rst, h4) = split _ _ _ _ h3 in
      let (psh, h5) = split _ _ _ _ h4 in
      let (ack, h6) = split _ _ _ _ h5 in
      let (urg, h7) = split _ _ _ _ h6 in
      let (ece, h8) = split _ _ _ _ h7 in
      let (cwr, h9) = split _ _ _ _ h8 in
      let (res1, h10) = split _ _ _ _ h9 in
      let (seq, h11) = split _ _ _ _ h10 in
      let h12 =
        also-second (only_if false (check_field tcp_seq (add32 y.seq s.payload_len) x.seq)) _ h11 in
      let (ack_seq, h13) = split _ _ _ _ h12 in
      let window_ok = only_if-true (not s.win_nocheck) _ (rw window refl) (also-first _ _ h13) in
      let win = check_field-ok tcp_window y.window x.window window_ok in
      let urg_ptr = check_field-ok tcp_urg_ptr y.urg_ptr x.urg_ptr (
        also-second (only_if (not s.win_nocheck) (check_field tcp_window y.window x.window)) _
          h13) in
      let offset : x.doff ≡ y.doff = omega (arith, doff, no_allowance) in
      λ i. record {
        doff = offset i;
        fin = fin i;
        syn = syn i;
        rst = rst i;
        psh = psh i;
        ack = ack i;
        urg = urg i;
        ece = ece i;
        cwr = cwr i;
        res1 = res1 i;
        seq = seq i;
        ack_seq = ack_seq i;
        window = win i;
        urg_ptr = urg_ptr i;
      }

  verify_tcp_self : (y : Tcp) → verify_tcp a s true y y ≡ status_ok
  unfolding verify_tcp only_if ◌also◌ check_field
  verify_tcp_self y =
      let offset : (y.doff == y.doff + tcp_options_allowance a s / 4) ≡ true =
        ground (arith, no_allowance) in
      rw
        (
          verify_tcp,
          check_field,
          offset,
          ==_refl y.fin,
          ==_refl y.syn,
          ==_refl y.rst,
          ==_refl y.psh,
          ==_refl y.ack,
          ==_refl y.urg,
          ==_refl y.ece,
          ==_refl y.cwr,
          ==_refl y.res1,
          ==_refl y.seq,
          ==_refl y.ack_seq,
          window,
          ==_refl y.window,
          ==_refl y.urg_ptr,
        )
        refl

  -- If neither the options nor the window are excluded, a strict comparison of TCP headers succeeds
  -- exactly when all the fields of the record are equal.
  pub verify_tcp-exact : (x y : Tcp) → (verify_tcp a s true x y ≡ status_ok) ↔ (x ≡ y)
  verify_tcp-exact x y = (verify_tcp-fields x y, λ e. rw e (verify_tcp_self y))
