-- ===== src/Dsp/Pipeline/Receiver.antt =====
-- What the signal path does to one block, as functions of signals: no buffers and no places in them.
pub mod Places
pub mod Channel
pub mod Block
use rtl_ais_android.Base.{ℕ, suc, ◌+◌, ◌*◌, ◌%◌, ◌<◌, ◌≡◌, Array, List, ◌∷◌, Bool, if◌then◌else◌}
use rtl_ais_android.Base.Int.{ℤ, pos, ◌-ℤ◌, to_int16}
use rtl_ais_android.Dsp.Rotate.Turns.{quarter_turns, quarter_turns_back}
use rtl_ais_android.Dsp.Downsample.{DownsampleState}
use rtl_ais_android.Dsp.Downsample.Decimation.{decimated}
use rtl_ais_android.Dsp.Downsample.Decimation.Passes.{AreDecimated}
use rtl_ais_android.Dsp.Demod.{DemodState, smoothed}
use rtl_ais_android.Dsp.Demod.Blocks.{turn_into}
use rtl_ais_android.Dsp.Demod.Dc.{mean}
use rtl_ais_android.Dsp.Pipeline.{Pipeline}

-- A complex signal.
pub record Iq : Type 0 where
  pub i : ℕ → ℤ
  pub q : ℕ → ℤ

-- The bytes of the stick, in pairs around 127.
abbrev pub received : Array ℕ → Iq
received bytes = record {
  i = λ k. pos (bytes (2 * k)) -ℤ pos 127;
  q = λ k. pos (bytes (2 * k + 1)) -ℤ pos 127;
}

-- Both parts at a lower rate, with the histories of the stage.
abbrev pub lowered : DownsampleState → Iq → Iq
lowered d s = record {
  i = decimated d.downsample_passes d.lp_i_hist d.droop_i_hist s.i;
  q = decimated d.downsample_passes d.lp_q_hist d.droop_q_hist s.q;
}

-- A shift by a quarter of the rate: sample k turned `k` times.
abbrev pub turned : (ℕ → ℤ × ℤ → ℤ × ℤ) → Iq → Iq
turned turns s = record {
  i = λ k. (turns (k % 4) (s.i k, s.q k)).0;
  q = λ k. (turns (k % 4) (s.i k, s.q k)).1;
}

-- The changes of angle, the first one against the last sample of the block before.
abbrev pub angles : DemodState → Iq → ℕ → ℤ
angles d s = turn_into (record { before_r = d.pre_r; before_j = d.pre_j; re = s.i; im = s.q })

-- The estimate of the offset, and the values without it.
abbrev pub estimated : Bool → DemodState → (ℕ → ℤ) → ℤ
estimated dc_filter d v = if dc_filter then smoothed (mean v d.result_len) d.dc_avg else d.dc_avg

abbrev pub centred : Bool → DemodState → (ℕ → ℤ) → ℕ → ℤ
centred dc_filter d v k =
    if dc_filter then to_int16 (v k -ℤ smoothed (mean v d.result_len) d.dc_avg) else v k

-- What a channel leaves of a signal of its band, `suc n` samples after its stage: the stage, the last
-- sample, the estimate, and the outputs of the interpolation.
pub record IsHeard (up : Array ℤ → Array ℤ → ℕ → ℕ → Array ℤ) (n : ℕ) (dc_filter : Bool)
    (d : DownsampleState) (demod : DemodState) (len : ℕ) (s : Iq) (d' : DownsampleState)
    (demod' : DemodState) (out : Array ℤ) : Type 0 where
  pub stage : AreDecimated (suc n) d s.i s.q d'
  pub last_r : demod'.pre_r ≡ (lowered d s).i n
  pub last_j : demod'.pre_j ≡ (lowered d s).q n
  pub average : demod'.dc_avg ≡ estimated dc_filter demod (angles demod (lowered d s))
  pub outputs :
      (start : Array ℤ) (m : ℕ)
      → m < len
      → out m ≡ up (centred dc_filter demod (angles demod (lowered d s))) start (suc n) len m

-- What no block changes: the lengths, the numbers of passes, and whether there is a filter.
pub record SameStageSetup (d d' : DownsampleState) : Type 0 where
  pub len_in : d'.len_in ≡ d.len_in
  pub len_out : d'.len_out ≡ d.len_out
  pub passes : d'.downsample_passes ≡ d.downsample_passes

pub record SameSetup (p q : Pipeline) : Type 0 where
  pub both : SameStageSetup p.both q.both
  pub left : SameStageSetup p.left q.left
  pub right : SameStageSetup p.right q.right
  pub left_buf : q.left_demod.buf_len ≡ p.left_demod.buf_len
  pub right_buf : q.right_demod.buf_len ≡ p.right_demod.buf_len
  pub left_results : q.left_demod.result_len ≡ p.left_demod.result_len
  pub right_results : q.right_demod.result_len ≡ p.right_demod.result_len
  pub bl_len : q.bl_len ≡ p.bl_len
  pub br_len : q.br_len ≡ p.br_len
  pub dc_filter : q.dc_filter ≡ p.dc_filter

-- What one block leaves in the signal path: `c` samples after the first stage, `suc n` after the next.
pub record IsReceived (up : Array ℤ → Array ℤ → ℕ → ℕ → Array ℤ) (c n : ℕ) (bytes : Array ℕ)
    (p q : Pipeline) : Type 0 where
  pub setup : SameSetup p q
  pub first : AreDecimated c p.both (received bytes).i (received bytes).q q.both
  pub left :
      IsHeard up n p.dc_filter p.left p.left_demod p.bl_len
        (turned quarter_turns (lowered p.both (received bytes)))
        q.left
        q.left_demod
        q.buf_left
  pub right :
      IsHeard up n p.dc_filter p.right p.right_demod p.br_len
        (turned quarter_turns_back (lowered p.both (received bytes)))
        q.right
        q.right_demod
        q.buf_right
  pub stereo :
      (m : ℕ)
      → m < p.bl_len
      → (q.result (2 * m) ≡ q.buf_left m) × (q.result (2 * m + 1) ≡ q.buf_right m)
  pub handed : q.handed ≡ q.result ∷ p.handed
