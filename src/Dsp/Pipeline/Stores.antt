-- ===== src/Dsp/Pipeline/Stores.antt =====
-- Where the signal path stores, against the lengths of its buffers.
pub mod Rounds
use rtl_ais_android.Base.{
  ℕ, zero, suc, ◌+◌, ◌-◌, ◌*◌, ◌/◌, ◌%◌, ◌^◌, ◌≤◌, ◌<◌, ◌≡◌, refl, sym, ap, ◌∙◌, arith, Array,
  update, update_ne, List, [], ◌∷◌, Bool, true, false, ltb, if◌then◌else◌,
}
use rtl_ais_android.Base.Int.{ℤ}
use rtl_ais_android.Base.Loop.{for_loop, for_loop_inv}
use rtl_ais_android.Dsp.Rotate.{rotate_90, rotate_m90}
use rtl_ais_android.Dsp.Rotate.Laws.{rotate_90_lem, rotate_m90_lem}
use rtl_ais_android.Dsp.Downsample.{DownsampleState, downsample}
use rtl_ais_android.Dsp.Downsample.Keeps.{downsample-Keeps}
use rtl_ais_android.Dsp.Demod.{DemodState, demodulate_round, demodulate, dc_block_filter}
use rtl_ais_android.Dsp.Demod.Dc.{dc_block_filter_lem}
use rtl_ais_android.Dsp.Pipeline.{
  Pipeline, copied, store_round, store_block, rtlsdr_callback, interleave_round, pre_output,
  channel, take_block, finish_block, demod_round,
}
use rtl_ais_android.Dsp.Pipeline.Levels.{feed}

-- The array is the same from `n` on.
abbrev pub Beyond : ℕ → Array ℤ → Array ℤ → Type 0
Beyond n old new = (x : ℕ) → n ≤ x → new x ≡ old x

-- A stage whose passes all have values, with whole groups of eight for the rotation.
pub record StageFits (d : DownsampleState) : Type 0 where
  pub long : 2 * 2 ^ d.downsample_passes ≤ d.len_in
  pub eighth : d.len_in % 8 ≡ 0

pub record StageKept (d d' : DownsampleState) : Type 0 where
  pub len_in : d'.len_in ≡ d.len_in
  pub len_out : d'.len_out ≡ d.len_out
  pub passes : d'.downsample_passes ≡ d.downsample_passes
  pub buf : Beyond d.len_in d.buf d'.buf

pub record DemodFits (d : DemodState) : Type 0 where
  pub some_values : 2 ≤ d.buf_len
  pub half : d.result_len ≡ d.buf_len / 2

pub record DemodKept (d d' : DemodState) : Type 0 where
  pub buf_len : d'.buf_len ≡ d.buf_len
  pub result_len : d'.result_len ≡ d.result_len
  pub buf : Beyond d.buf_len d.buf d'.buf
  pub result : Beyond d.result_len d.result d'.result

pub downsample-StageKept : (d : DownsampleState) → StageFits d → StageKept d (downsample d)
downsample-StageKept d fits =
    let h = downsample-Keeps d fits.long in
    record { len_in = h.len_in; len_out = h.len_out; passes = h.passes; buf = h.beyond }

pub rotate_90-Beyond : (buf : Array ℤ) (len : ℕ) → len % 8 ≡ 0 → Beyond len buf (rotate_90 buf len)
rotate_90-Beyond buf len eighth x ge = ground (arith, rotate_90_lem buf len x)

pub rotate_m90-Beyond :
    (buf : Array ℤ) (len : ℕ) → len % 8 ≡ 0 → Beyond len buf (rotate_m90 buf len)
rotate_m90-Beyond buf len eighth x ge = ground (arith, rotate_m90_lem buf len x)

demodulate_round-Beyond :
    (d : DemodState) (start : Array ℤ) (i : ℕ) (result : Array ℤ)
    → i < d.buf_len - 1
    → Beyond (d.buf_len / 2) start result
    → Beyond (d.buf_len / 2) start (demodulate_round d.buf i result)
unfolding demodulate_round
demodulate_round-Beyond d start i result lt h x ge =
    update_ne result (i / 2) x _ (omega arith) ∙ h x ge

demodulate-DemodKept : (d : DemodState) → DemodFits d → DemodKept d (demodulate d)
unfolding demodulate
demodulate-DemodKept d fits = record {
  buf_len = refl;
  result_len = refl;
  buf = λ x ge. refl;
  result = λ x ge.
      let (last, past, h) =
        for_loop_inv (λ i result. Beyond (d.buf_len / 2) d.result result) 2 (d.buf_len - 1)
          (demodulate_round d.buf) (omega arith) (demodulate_round-Beyond d d.result) 2 _
          (λ y gey. update_ne d.result 0 y _ (omega (arith, fits.some_values))) in
      h x (omega (arith, fits.half));
}

dc_block_filter-DemodKept : (d : DemodState) → DemodKept d (dc_block_filter d)
unfolding dc_block_filter
dc_block_filter-DemodKept d = record {
  buf_len = refl;
  result_len = refl;
  buf = λ x ge. refl;
  result = λ x ge. ground (arith, (dc_block_filter_lem d).1 x);
}

-- Every length stays, and so does every array beyond its length.
pub record Fits (p : Pipeline) : Type 0 where
  pub both : StageFits p.both
  pub left : StageFits p.left
  pub right : StageFits p.right
  pub to_left : p.both.len_out ≡ p.left.len_in
  pub to_right : p.both.len_out ≡ p.right.len_in
  pub left_demod : DemodFits p.left_demod
  pub right_demod : DemodFits p.right_demod
  pub left_out : p.left.len_out ≡ p.left_demod.buf_len
  pub right_out : p.right.len_out ≡ p.right_demod.buf_len

pub record Kept (p q : Pipeline) : Type 0 where
  pub both : StageKept p.both q.both
  pub left : StageKept p.left q.left
  pub right : StageKept p.right q.right
  pub left_demod : DemodKept p.left_demod q.left_demod
  pub right_demod : DemodKept p.right_demod q.right_demod
  pub bl_len : q.bl_len ≡ p.bl_len
  pub br_len : q.br_len ≡ p.br_len
  pub buf_left : Beyond p.bl_len p.buf_left q.buf_left
  pub buf_right : Beyond p.br_len p.buf_right q.buf_right
  pub result : Beyond (2 * p.bl_len) p.result q.result

Beyond-trans : (n m : ℕ) (a b c : Array ℤ) → m ≡ n → Beyond n a b → Beyond m b c → Beyond n a c
Beyond-trans n m a b c e h k x ge = k x (rw e ge) ∙ h x ge

StageKept-trans : (a b c : DownsampleState) → StageKept a b → StageKept b c → StageKept a c
StageKept-trans a b c h k = record {
  len_in = k.len_in ∙ h.len_in;
  len_out = k.len_out ∙ h.len_out;
  passes = k.passes ∙ h.passes;
  buf = Beyond-trans a.len_in b.len_in a.buf b.buf c.buf h.len_in h.buf k.buf;
}

DemodKept-trans : (a b c : DemodState) → DemodKept a b → DemodKept b c → DemodKept a c
DemodKept-trans a b c h k = record {
  buf_len = k.buf_len ∙ h.buf_len;
  result_len = k.result_len ∙ h.result_len;
  buf = Beyond-trans a.buf_len b.buf_len a.buf b.buf c.buf h.buf_len h.buf k.buf;
  result =
      Beyond-trans a.result_len b.result_len a.result b.result c.result h.result_len h.result
        k.result;
}

pub Kept-trans : (p q r : Pipeline) → Kept p q → Kept q r → Kept p r
Kept-trans p q r h k = record {
  both = StageKept-trans p.both q.both r.both h.both k.both;
  left = StageKept-trans p.left q.left r.left h.left k.left;
  right = StageKept-trans p.right q.right r.right h.right k.right;
  left_demod = DemodKept-trans p.left_demod q.left_demod r.left_demod h.left_demod k.left_demod;
  right_demod =
      DemodKept-trans p.right_demod q.right_demod r.right_demod h.right_demod k.right_demod;
  bl_len = k.bl_len ∙ h.bl_len;
  br_len = k.br_len ∙ h.br_len;
  buf_left =
      Beyond-trans p.bl_len q.bl_len p.buf_left q.buf_left r.buf_left h.bl_len h.buf_left
        k.buf_left;
  buf_right =
      Beyond-trans p.br_len q.br_len p.buf_right q.buf_right r.buf_right h.br_len h.buf_right
        k.buf_right;
  result =
      Beyond-trans (2 * p.bl_len) (2 * q.bl_len) p.result q.result r.result
        (ap (λ n. 2 * n) h.bl_len) h.result k.result;
}

pub StageFits-Kept : (a b : DownsampleState) → StageFits a → StageKept a b → StageFits b
StageFits-Kept a b f k = record {
  long = rw (k.len_in, k.passes) f.long;
  eighth = rw k.len_in f.eighth;
}

pub DemodFits-Kept : (a b : DemodState) → DemodFits a → DemodKept a b → DemodFits b
DemodFits-Kept a b f k = record {
  some_values = rw k.buf_len f.some_values;
  half = rw (k.buf_len, k.result_len) f.half;
}

pub Fits-Kept : (p q : Pipeline) → Fits p → Kept p q → Fits q
Fits-Kept p q f k = record {
  both = StageFits-Kept p.both q.both f.both k.both;
  left = StageFits-Kept p.left q.left f.left k.left;
  right = StageFits-Kept p.right q.right f.right k.right;
  to_left = k.both.len_out ∙ f.to_left ∙ sym k.left.len_in;
  to_right = k.both.len_out ∙ f.to_right ∙ sym k.right.len_in;
  left_demod = DemodFits-Kept p.left_demod q.left_demod f.left_demod k.left_demod;
  right_demod = DemodFits-Kept p.right_demod q.right_demod f.right_demod k.right_demod;
  left_out = k.left.len_out ∙ f.left_out ∙ sym k.left_demod.buf_len;
  right_out = k.right.len_out ∙ f.right_out ∙ sym k.right_demod.buf_len;
}
