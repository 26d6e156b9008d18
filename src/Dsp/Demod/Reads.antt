-- ===== src/Dsp/Demod/Reads.antt =====
-- What `demodulate` and `dc_block_filter` read: what they carry from block to block, the samples, and
-- the results that they have stored.
use mathlib.Core.Path.{subst}
use rtl_ais_android.Base.{
  ℕ, suc, ◌+◌, ◌-◌, ◌/◌, ◌%◌, ◌≤◌, ◌<◌, ◌≡◌, refl, sym, ap, ◌∙◌, arith, Array, update, Agree,
  update-Agree, update-Agree_next,
}
use rtl_ais_android.Base.Int.{ℤ, pos, to_int16, ◌-ℤ◌, div}
use rtl_ais_android.Base.Loop.{for_loop, for_loop_rel}
use rtl_ais_android.Dsp.Demod.{
  DemodState, polar_disc_fast, demodulate_round, demodulate, sum_round, subtract_round, smoothed,
  dc_block_filter,
}

-- What is carried from block to block is the same.
pub record SameCarried (d e : DemodState) : Type 0 where
  pub buf_len : d.buf_len ≡ e.buf_len
  pub result_len : d.result_len ≡ e.result_len
  pub pre_r : d.pre_r ≡ e.pre_r
  pub pre_j : d.pre_j ≡ e.pre_j
  pub dc_avg : d.dc_avg ≡ e.dc_avg

-- Two loops that store the same values, the first at place 1.
module _ (len : ℕ) (a b : Array ℤ) (same : Agree len a b) where
  abbrev Stored : ℕ → Array ℤ → Array ℤ → Type 0
  Stored i s t = (i % 2 ≡ 0) × Agree (i / 2) s t

  demodulate_round-Stored :
      (i : ℕ) (s t : Array ℤ)
      → i < len - 1
      → Stored i s t
      → Stored (i + 2) (demodulate_round a i s) (demodulate_round b i t)
  unfolding demodulate_round
  demodulate_round-Stored i s t lt (even, h) =
      let e : (i + 2) / 2 ≡ suc (i / 2) = omega arith in
      (
        omega arith,
        rw e (
            update-Agree_next (i / 2) _ _ s t
              (rw
                (
                  same i (omega arith),
                  same (i + 1) (omega arith),
                  same (i - 2) (omega arith),
                  same (i - 1) (omega arith),
                )
                refl)
              h),
      )

  results-Agree :
      (m : ℕ) (s t : Array ℤ)
      → m ≡ len
      → Agree 1 s t
      → Agree
          (len / 2)
          (for_loop 2 2 (len - 1) (demodulate_round a) s)
          (for_loop 2 2 (m - 1) (demodulate_round b) t)
  results-Agree m s t e h =
      let (last, past, (even, all)) =
        for_loop_rel Stored 2 (len - 1) (demodulate_round a) (demodulate_round b) (omega arith)
          demodulate_round-Stored 2 s t (refl, h) in
      subst
        (λ n.
          Agree (len / 2) (for_loop 2 2 (len - 1) (demodulate_round a) s)
            (for_loop 2 2 (n - 1) (demodulate_round b) t))
        (sym e) (λ x lt. all x (omega (arith, even, past, lt)))

first-Agree : (v w : ℤ) (s t : Array ℤ) → v ≡ w → Agree 1 (update s 0 v) (update t 0 w)
first-Agree v w s t e = update-Agree_next 0 v w s t e (λ x lt. absurd (omega arith))

-- The results are those of the samples and of what is carried, whatever stood in their array.
pub demodulate-Same :
    (d e : DemodState)
    → 2 ≤ d.buf_len
    → d.result_len ≡ d.buf_len / 2
    → SameCarried d e
    → Agree d.buf_len d.buf e.buf
    → SameCarried (demodulate d) (demodulate e)
      × Agree d.result_len (demodulate d).result (demodulate e).result
unfolding demodulate
demodulate-Same d e two half s same =
    let first : polar_disc_fast (d.buf 0) (d.buf 1) d.pre_r d.pre_j
        ≡ polar_disc_fast (e.buf 0) (e.buf 1) e.pre_r e.pre_j =
      rw (same 0 (omega arith), same 1 (omega arith), s.pre_r, s.pre_j) refl in
    (
      record {
        buf_len = s.buf_len;
        result_len = s.result_len;
        pre_r = same (d.buf_len - 2) (omega arith) ∙ ap (λ n. e.buf (n - 2)) s.buf_len;
        pre_j = same (d.buf_len - 1) (omega arith) ∙ ap (λ n. e.buf (n - 1)) s.buf_len;
        dc_avg = s.dc_avg;
      },
      λ x lt.
          results-Agree d.buf_len d.buf e.buf same e.buf_len _ _ (sym s.buf_len)
            (first-Agree _ _ d.result e.result (ap to_int16 first)) x (omega (arith, half, lt)),
    )

module _ (n : ℕ) (a b : Array ℤ) (same : Agree n a b) where
  sum_round-same : (i : ℕ) (s t : ℤ) → i < n → s ≡ t → sum_round a i s ≡ sum_round b i t
  unfolding sum_round
  sum_round-same i s t lt e = rw (e, same i lt) refl

  same_sum :
      (m : ℕ) → n ≡ m → for_loop 0 1 n (sum_round a) (pos 0) ≡ for_loop 0 1 m (sum_round b) (pos 0)
  same_sum m e =
      let (last, past, r) =
        for_loop_rel (λ i s t. s ≡ t) 1 n (sum_round a) (sum_round b) (omega arith) sum_round-same 0
          (pos 0) (pos 0) refl in
      r ∙ ap (λ k. for_loop 0 1 k (sum_round b) (pos 0)) e

  subtract_round-Agree :
      (avg : ℤ) (i : ℕ) (s t : Array ℤ)
      → i < n
      → Agree n s t
      → Agree n (subtract_round avg i s) (subtract_round avg i t)
  unfolding subtract_round
  subtract_round-Agree avg i s t lt h =
      update-Agree n i _ _ s t (ap (λ z. to_int16 (z -ℤ avg)) (h i lt)) h

  subtracted-Agree :
      (m : ℕ) (avg avg' : ℤ)
      → n ≡ m
      → avg ≡ avg'
      → Agree n (for_loop 0 1 n (subtract_round avg) a) (for_loop 0 1 m (subtract_round avg') b)
  subtracted-Agree m avg avg' e e' =
      let (last, past, r) =
        for_loop_rel (λ i s t. Agree n s t) 1 n (subtract_round avg) (subtract_round avg)
          (omega arith) (subtract_round-Agree avg) 0 a b same in
      subst
        (λ k.
          Agree n (for_loop 0 1 n (subtract_round avg) a) (for_loop 0 1 k (subtract_round avg') b))
        e
        (subst
          (λ z.
            Agree n (for_loop 0 1 n (subtract_round avg) a) (for_loop 0 1 n (subtract_round z) b))
          e' r)

pub dc_block_filter-Same :
    (d e : DemodState)
    → SameCarried d e
    → Agree d.result_len d.result e.result
    → SameCarried (dc_block_filter d) (dc_block_filter e)
      × Agree d.result_len (dc_block_filter d).result (dc_block_filter e).result
unfolding dc_block_filter
dc_block_filter-Same d e s same =
    let n = d.result_len in
    let sum = same_sum n d.result e.result same e.result_len s.result_len in
    let before = smoothed (div (for_loop 0 1 n (sum_round d.result) (pos 0)) n) d.dc_avg in
    let after =
      smoothed (div (for_loop 0 1 e.result_len (sum_round e.result) (pos 0)) e.result_len)
        e.dc_avg in
    let avg : before ≡ after = rw (sum, s.result_len, s.dc_avg) refl in
    (
      record {
        buf_len = s.buf_len;
        result_len = s.result_len;
        pre_r = s.pre_r;
        pre_j = s.pre_j;
        dc_avg = avg;
      },
      subtracted-Agree n d.result e.result same e.result_len before after s.result_len avg,
    )
