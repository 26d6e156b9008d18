-- ===== src/Dsp/Pipeline/Receiver/Channel.antt =====
-- A stage on the samples of a signal, and the channel behind it.
use rtl_ais_android.Base.{
  ℕ, zero, suc, ◌+◌, ◌*◌, ◌^◌, ◌≤◌, ◌<◌, ◌≡◌, refl, ap, ◌∙◌, arith, Array, Agree, Bool, true, false,
  if◌then◌else◌, lt→ltb,
}
use rtl_ais_android.Base.Int.{ℤ, to_int16_range}
use rtl_ais_android.Dsp.GenericFir.{filtered}
use rtl_ais_android.Dsp.Downsample.{DownsampleState, downsample}
use rtl_ais_android.Dsp.Downsample.Decimation.Passes.{AreDecimated, downsample-AreDecimated}
use rtl_ais_android.Dsp.Demod.{DemodState, demodulate, dc_block_filter}
use rtl_ais_android.Dsp.Demod.Blocks.{turn_into, signal, IsDemodulated, demodulate-IsDemodulated}
use rtl_ais_android.Dsp.Demod.Dc.{sum_below, dc_block_filter_lem}
use rtl_ais_android.Dsp.Pipeline.{copied, channel}
use rtl_ais_android.Dsp.Pipeline.Stores.{StageFits, downsample-StageKept}
use rtl_ais_android.Dsp.Pipeline.Receiver.{Iq, lowered, angles, estimated, centred, IsHeard}
use rtl_ais_android.Dsp.Pipeline.Receiver.Places.{Holds, AreInt16, copied-Holds}

-- A stage whose `c * 2 ^ passes` samples are those of a signal.
module _ (c : ℕ) (d : DownsampleState) (some_data : 0 < c)
    (whole : d.len_in ≡ 2 * (c * 2 ^ d.downsample_passes)) (s : Iq)
    (h : Holds (c * 2 ^ d.downsample_passes) s d.buf) where
  pub downsample-stage : AreDecimated c d s.i s.q (downsample d)
  downsample-stage = downsample-AreDecimated c d some_data whole s.i s.q h.i h.q

  pub downsample-Holds : Holds c (lowered d s) (downsample d).buf
  downsample-Holds = record {
    i = downsample-stage.i_values.stored;
    q = downsample-stage.q_values.stored;
  }

pub lowered-AreInt16 : (d : DownsampleState) (s : Iq) → AreInt16 (lowered d s)
unfolding filtered
lowered-AreInt16 d s k = (to_int16_range _, to_int16_range _)

-- The angles of the samples of a signal.
angles_of :
    (n : ℕ) (d : DemodState) (s : Iq)
    → Holds (suc n) s d.buf
    → (k : ℕ) → k ≤ n
    → turn_into (signal d) k ≡ angles d s k
angles_of n d s h zero le =
    let i : d.buf (2 * 0) ≡ s.i 0 = h.i 0 (omega arith) in
    let q : d.buf (2 * 0 + 1) ≡ s.q 0 = h.q 0 (omega arith) in rw (i, q) refl
angles_of n d s h (suc k) le =
    let i : d.buf (2 * suc k) ≡ s.i (suc k) = ap d.buf (omega arith) ∙ h.i (suc k) (omega arith) in
    let q : d.buf (2 * suc k + 1) ≡ s.q (suc k) =
      ap d.buf (omega arith) ∙ h.q (suc k) (omega arith) in
    let i' : d.buf (2 * k) ≡ s.i k = ap d.buf (omega arith) ∙ h.i k (omega arith) in
    let q' : d.buf (2 * k + 1) ≡ s.q k = ap d.buf (omega arith) ∙ h.q k (omega arith) in
    rw (i, q, i', q') refl

sum_below-Agree : (n : ℕ) (a b : Array ℤ) → Agree n a b → sum_below a n ≡ sum_below b n
sum_below-Agree zero a b same = refl
sum_below-Agree (suc n) a b same =
    rw (sum_below-Agree n a b (λ x lt. same x (omega (arith, lt))), same n (omega arith)) refl

-- The filter, or none, on the values `v`.
dc_if-centred :
    (dc : Bool) (d : DemodState) (v : Array ℤ)
    → Agree d.result_len d.result v
    → let d' = if dc then dc_block_filter d else d in
      (d'.dc_avg ≡ estimated dc d v)
      × (d'.result_len ≡ d.result_len)
      × (d'.pre_r ≡ d.pre_r)
      × (d'.pre_j ≡ d.pre_j)
      × Agree d.result_len d'.result (centred dc d v)
dc_if-centred true d v same =
    let (average, each) = dc_block_filter_lem d in
    let sum = sum_below-Agree d.result_len d.result v same in
    let lens = dc_lens d in
    (
      average ∙ rw sum refl,
      lens.0,
      lens.1,
      lens.2,
      λ x lt. each x ∙ rw (lt→ltb x d.result_len lt, sum, same x lt) refl,
    )
  where
    dc_lens :
        (d : DemodState)
        → ((dc_block_filter d).result_len ≡ d.result_len)
          × ((dc_block_filter d).pre_r ≡ d.pre_r)
          × ((dc_block_filter d).pre_j ≡ d.pre_j)
    dc_lens d = unfold dc_block_filter in (refl, refl, refl)
dc_if-centred false d v same = (refl, refl, refl, refl, same)

module _ (up : Array ℤ → Array ℤ → ℕ → ℕ → Array ℤ)
    (up-Agree : (s s' t t' : Array ℤ) (n m : ℕ)
      → 2 ≤ n
      → n ≤ m
      → Agree n s s'
      → Agree m (up s t n m) (up s' t' n m))
    (n : ℕ) (dc : Bool) (d : DownsampleState) (demod : DemodState) (out : Array ℤ) (len : ℕ)
    (whole : d.len_in ≡ 2 * (suc n * 2 ^ d.downsample_passes)) (out_whole : d.len_out ≡ 2 * suc n)
    (fits : StageFits d) (buf_whole : demod.buf_len ≡ 2 * suc n)
    (results : demod.result_len ≡ suc n) (two : 2 ≤ suc n) (more : suc n ≤ len) (s : Iq)
    (h : Holds (suc n * 2 ^ d.downsample_passes) s d.buf) where
  abbrev next : DemodState
  next = record demod { buf = copied (downsample d).len_out (downsample d).buf demod.buf }

  next-Holds : Holds (suc n) (lowered d s) next.buf
  next-Holds =
      let kept = downsample-StageKept d fits in
      copied-Holds (suc n) (downsample d).len_out (lowered d s) (downsample d).buf demod.buf
        (rw (kept.len_out, out_whole) (omega arith))
        (downsample-Holds (suc n) d (omega arith) whole s h)

  heard : IsDemodulated next n buf_whole (demodulate next)
  heard = demodulate-IsDemodulated next n buf_whole

  pub channel-IsHeard :
      let c = channel up dc d demod out len in IsHeard up n dc d demod len s c.0 c.1.0 c.1.1
  unfolding channel demodulate
  channel-IsHeard =
      let v = angles demod (lowered d s) in
      let same : Agree demod.result_len (demodulate next).result v = λ x lt.
        heard.stored x (omega (arith, results, lt))
        ∙ angles_of n next (lowered d s) next-Holds x (omega (arith, results, lt)) in
      let done = if dc then dc_block_filter (demodulate next) else demodulate next in
      let (average, len', pre_r, pre_j, values) = dc_if-centred dc (demodulate next) v same in
      record {
        stage = downsample-stage (suc n) d (omega arith) whole s h;
        last_r = pre_r ∙ heard.last_r ∙ ap next.buf (omega arith) ∙ next-Holds.i n (omega arith);
        last_j = pre_j ∙ heard.last_j ∙ ap next.buf (omega arith) ∙ next-Holds.q n (omega arith);
        average = average;
        outputs = λ start m lt.
            ap (λ k. up done.result out k len m) (len' ∙ results)
            ∙ up-Agree done.result (centred dc demod v) out start (suc n) len two more
                (λ x below. values x (omega (arith, results, below))) m lt;
      }
