-- ===== src/Dsp/Pipeline/Reads.antt =====
-- What a channel of the signal path reads: what it carries, and the samples it is given.
pub mod State
pub mod Rounds
pub mod First
use mathlib.Core.Path.{subst}
use rtl_ais_android.Base.{
  ℕ, suc, ◌+◌, ◌-◌, ◌*◌, ◌≤◌, ◌<◌, ◌≡◌, refl, sym, ap, ◌∙◌, arith, Array, update, Agree,
  update-Agree_next, List, [], ◌∷◌, Bool, true, false, if◌then◌else◌, ltb, lt→ltb,
}
use native.Mathlib.Numerals.{add-one}
use rtl_ais_android.Base.Int.{ℤ}
use rtl_ais_android.Base.Loop.{for_loop, for_loop_rel}
use rtl_ais_android.Dsp.Downsample.{DownsampleState, downsample}
use rtl_ais_android.Dsp.Downsample.Reads.{SameStage, downsample-SameStage}
use rtl_ais_android.Dsp.Demod.{DemodState, demodulate, dc_block_filter}
use rtl_ais_android.Dsp.Demod.Reads.{SameCarried, demodulate-Same, dc_block_filter-Same}
use rtl_ais_android.Dsp.Pipeline.{Pipeline, copied, store_round, interleave_round, channel}
use rtl_ais_android.Dsp.Pipeline.Stores.{StageFits, downsample-StageKept, DemodFits}

-- The lengths and the histories of a stage, without its block.
pub record SameHistories (d e : DownsampleState) : Type 0 where
  pub len_in : d.len_in ≡ e.len_in
  pub len_out : d.len_out ≡ e.len_out
  pub passes : d.downsample_passes ≡ e.downsample_passes
  pub lp_i : d.lp_i_hist ≡ e.lp_i_hist
  pub lp_q : d.lp_q_hist ≡ e.lp_q_hist
  pub droop_i : d.droop_i_hist ≡ e.droop_i_hist
  pub droop_q : d.droop_q_hist ≡ e.droop_q_hist

pub SameStage-SameHistories : (d e : DownsampleState) → SameStage d e → SameHistories d e
SameStage-SameHistories d e s = record {
  len_in = s.len_in;
  len_out = s.len_out;
  passes = s.passes;
  lp_i = s.lp_i;
  lp_q = s.lp_q;
  droop_i = s.droop_i;
  droop_q = s.droop_q;
}

pub SameHistories-SameStage :
    (d e : DownsampleState) (a b : Array ℤ)
    → SameHistories d e
    → Agree d.len_in a b
    → SameStage (record d { buf = a }) (record e { buf = b })
SameHistories-SameStage d e a b s same = record {
  len_in = s.len_in;
  len_out = s.len_out;
  passes = s.passes;
  buf = same;
  lp_i = s.lp_i;
  lp_q = s.lp_q;
  droop_i = s.droop_i;
  droop_q = s.droop_q;
}

pub with_buf-SameHistories :
    (d e : DownsampleState) (a b : Array ℤ)
    → SameHistories d e
    → SameHistories (record d { buf = a }) (record e { buf = b })
with_buf-SameHistories d e a b s = record {
  len_in = s.len_in;
  len_out = s.len_out;
  passes = s.passes;
  lp_i = s.lp_i;
  lp_q = s.lp_q;
  droop_i = s.droop_i;
  droop_q = s.droop_q;
}

-- A copy of all that is asked of the target.
pub copied-Agree :
    (n n' m k : ℕ) (s s' t t' : Array ℤ)
    → n ≡ n'
    → k ≤ n
    → n ≤ m
    → Agree m s s'
    → Agree k (copied n s t) (copied n' s' t')
copied-Agree n n' m k s s' t t' e all le same x lt =
    rw (← e, lt→ltb x n (omega (arith, all, lt))) (same x (omega (arith, all, le, lt)))

interleave_round-Agree :
    (n m : ℕ) (l l' r r' : Array ℤ)
    → n ≤ m
    → Agree n l l'
    → Agree m r r'
    → (i : ℕ) (s t : Array ℤ) → i < n
    → Agree (i * 2) s t
    → Agree ((i + 1) * 2) (interleave_round l r i s) (interleave_round l' r' i t)
unfolding interleave_round
interleave_round-Agree n m l l' r r' le left right i s t lt same x below =
    let pair =
      update-Agree_next (suc (i * 2)) _ _ _ _ (right i (omega (arith, le)))
        (update-Agree_next (i * 2) _ _ s t (left i lt) same) in
    rw add-one (pair x (omega (arith, below)))

pub interleaved-Agree :
    (n n' m : ℕ) (l l' r r' s t : Array ℤ)
    → n ≡ n'
    → n ≤ m
    → Agree n l l'
    → Agree m r r'
    → Agree
        (2 * n)
        (for_loop 0 1 n (interleave_round l r) s)
        (for_loop 0 1 n' (interleave_round l' r') t)
interleaved-Agree n n' m l l' r r' s t e le left right =
    let (last, past, h) =
      for_loop_rel (λ i a b. Agree (i * 2) a b) 1 n (interleave_round l r) (interleave_round l' r')
        (omega arith) (interleave_round-Agree n m l l' r r' le left right) 0 s t
        (λ x lt. absurd (omega arith)) in
    subst
      (λ k.
        Agree (2 * n) (for_loop 0 1 n (interleave_round l r) s)
          (for_loop 0 1 k (interleave_round l' r') t))
      e (λ x lt. h x (omega (arith, past, lt)))

store_round-Agree :
    (n : ℕ) (bytes bytes' : Array ℕ)
    → Agree n bytes bytes'
    → (i : ℕ) (s t : Array ℤ) → i < n
    → Agree i s t
    → Agree (i + 1) (store_round bytes i s) (store_round bytes' i t)
unfolding store_round
store_round-Agree n bytes bytes' given i s t lt same =
    rw add-one (update-Agree_next i _ _ s t (rw (given i lt) refl) same)

pub stored-Agree :
    (n n' : ℕ) (bytes bytes' : Array ℕ) (s t : Array ℤ)
    → n ≡ n'
    → Agree n bytes bytes'
    → Agree n (for_loop 0 1 n (store_round bytes) s) (for_loop 0 1 n' (store_round bytes') t)
stored-Agree n n' bytes bytes' s t e given =
    let (last, past, h) =
      for_loop_rel (λ i a b. Agree i a b) 1 n (store_round bytes) (store_round bytes') (omega arith)
        (store_round-Agree n bytes bytes' given) 0 s t (λ x lt. absurd (omega arith)) in
    subst
      (λ k. Agree n (for_loop 0 1 n (store_round bytes) s) (for_loop 0 1 k (store_round bytes') t))
      e (λ x lt. h x (omega (arith, past, lt)))

-- The filter keeps the number of results.
dc_if-Same :
    (b : Bool) (d e : DemodState)
    → SameCarried d e
    → Agree d.result_len d.result e.result
    → let d' = if b then dc_block_filter d else d in
      let e' = if b then dc_block_filter e else e in
      (d'.result_len ≡ d.result_len) × SameCarried d' e' × Agree d.result_len d'.result e'.result
unfolding dc_block_filter
dc_if-Same true d e s same =
    let (carried, results) = dc_block_filter-Same d e s same in (refl, carried, results)
dc_if-Same false d e s same = (refl, s, same)

module _ (up : Array ℤ → Array ℤ → ℕ → ℕ → Array ℤ)
    (up-Agree : (s s' t t' : Array ℤ) (n m : ℕ)
      → 2 ≤ n
      → n ≤ m
      → Agree n s s'
      → Agree m (up s t n m) (up s' t' n m))
    (dc : Bool) (d e : DownsampleState) (demod demod' : DemodState) (out out' : Array ℤ) (len : ℕ)
    (fits : StageFits d) (inside : d.len_out ≤ d.len_in) (same : SameStage d e)
    (demod_fits : DemodFits demod) (filled : d.len_out ≡ demod.buf_len)
    (same_demod : SameCarried demod demod') (two : 2 ≤ demod.result_len)
    (more : demod.result_len ≤ len) where
  abbrev next : DemodState
  next = record demod { buf = copied (downsample d).len_out (downsample d).buf demod.buf }

  abbrev next' : DemodState
  next' = record demod' { buf = copied (downsample e).len_out (downsample e).buf demod'.buf }

  next-SameCarried : SameCarried next next'
  next-SameCarried = record {
    buf_len = same_demod.buf_len;
    result_len = same_demod.result_len;
    pre_r = same_demod.pre_r;
    pre_j = same_demod.pre_j;
    dc_avg = same_demod.dc_avg;
  }

  next-Agree : Agree demod.buf_len next.buf next'.buf
  next-Agree =
      let s = downsample-SameStage d e fits.long same in
      let kept = downsample-StageKept d fits in
      copied-Agree (downsample d).len_out (downsample e).len_out (downsample d).len_in demod.buf_len
        _ _ _ _ s.len_out (rw (kept.len_out, filled) (omega arith))
        (rw (kept.len_out, kept.len_in) inside) s.buf

  pub channel-Same :
      let c = channel up dc d demod out len in
      let c' = channel up dc e demod' out' len in
      SameHistories c.0 c'.0 × SameCarried c.1.0 c'.1.0 × Agree len c.1.1 c'.1.1
  unfolding channel demodulate
  channel-Same =
      let (carried, results) =
        demodulate-Same next next' demod_fits.some_values demod_fits.half next-SameCarried
          next-Agree in
      let (kept, ready, values) =
        dc_if-Same dc (demodulate next) (demodulate next') carried results in
      (
        SameStage-SameHistories _ _ (downsample-SameStage d e fits.long same),
        ready,
        rw (← ready.result_len, kept) (up-Agree _ _ out out' demod.result_len len two more values),
      )
