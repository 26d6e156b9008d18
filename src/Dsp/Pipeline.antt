-- ===== src/Dsp/Pipeline.antt =====
-- A block on its way through app/src/main/jni/rtl_ais_andro.c: `rtlsdr_callback` stores it, and one
-- round of `demod_thread_fn` turns it into stereo samples. `arbitrary_upsample`, which Upsample is
-- about, is here any function of its four arguments.
pub mod Threads
pub mod Levels
pub mod Stores
pub mod Init
pub mod Reads
pub mod Receiver
pub mod Tests
use rtl_ais_android.Base.{ℕ, ◌+◌, ◌*◌, ltb, Bool, Array, update, if◌then◌else◌, List, ◌∷◌}
use rtl_ais_android.Base.Int.{ℤ, pos, ◌-ℤ◌}
use rtl_ais_android.Base.Loop.{for_loop}
use rtl_ais_android.Dsp.Rotate.{rotate_90, rotate_m90}
use rtl_ais_android.Dsp.Downsample.{DownsampleState, downsample}
use rtl_ais_android.Dsp.Demod.{DemodState, demodulate, dc_block_filter}

-- The globals of the signal path, and the sample blocks handed on so far, the newest first.
pub record Pipeline : Type 0 where
  pub both : DownsampleState
  pub left : DownsampleState
  pub right : DownsampleState
  pub left_demod : DemodState
  pub right_demod : DemodState
  pub buf_left : Array ℤ
  pub buf_right : Array ℤ
  pub result : Array ℤ
  pub bl_len : ℕ
  pub br_len : ℕ
  pub dc_filter : Bool
  pub handed : List (Array ℤ)

pub store_round : Array ℕ → ℕ → Array ℤ → Array ℤ
store_round bytes i buf = update buf i (pos (bytes i) -ℤ pos 127)

-- The samples are unsigned bytes around 127; `store_block` are the first `len` rounds of the loop.
unfoldable pub store_block : Array ℕ → ℕ → Pipeline → Pipeline
unfolding store_round for_loop
store_block bytes len p = record p {
  both = record p.both { buf = for_loop 0 1 len (store_round bytes) p.both.buf };
}

-- The whole callback; the first argument is `do_exit`.
unfoldable pub rtlsdr_callback : Bool → Array ℕ → ℕ → Pipeline → Pipeline
unfolding store_block
rtlsdr_callback do_exit bytes len p = if do_exit then p else store_block bytes len p

-- memcpy of `n` values
abbrev pub copied : ℕ → Array ℤ → Array ℤ → Array ℤ
copied n source target i = if ltb i n then source i else target i

pub interleave_round : Array ℤ → Array ℤ → ℕ → Array ℤ → Array ℤ
interleave_round left right i result = update (update result (i * 2) (left i)) (i * 2 + 1) (right i)

unfoldable pub pre_output : Pipeline → Pipeline
unfolding interleave_round for_loop
pre_output p = record p {
  result = for_loop 0 1 p.bl_len (interleave_round p.buf_left p.buf_right) p.result;
}

module _ (arbitrary_upsample : Array ℤ → Array ℤ → ℕ → ℕ → Array ℤ) where
  -- What a channel does once it is rotated: the stage, the demodulator and the upsampled values.
  pub channel :
      Bool → DownsampleState → DemodState → Array ℤ → ℕ → DownsampleState × (DemodState × Array ℤ)
  unfolding downsample demodulate dc_block_filter
  channel dc_filter stage demod out_buf out_len =
      let stage' = downsample stage in
      let filled : DemodState = record demod { buf = copied stage'.len_out stage'.buf demod.buf } in
      let turned = demodulate filled in
      let done = if dc_filter then dc_block_filter turned else turned in
      (stage', (done, arbitrary_upsample done.result out_buf done.result_len out_len))

  -- What the thread does while it holds the lock: it decimates the block and copies it out.
  unfoldable pub take_block : Pipeline → Pipeline
  unfolding downsample
  take_block p =
      let both = downsample p.both in
      record p {
        both = both;
        left = record p.left { buf = copied both.len_out both.buf p.left.buf };
        right = record p.right { buf = copied both.len_out both.buf p.right.buf };
      }

  -- The rest of the round, with the samples handed to the decoder or the file.
  unfoldable pub finish_block : Pipeline → Pipeline
  unfolding channel pre_output rotate_90 rotate_m90
  finish_block p =
      let left =
        channel p.dc_filter (record p.left { buf = rotate_90 p.left.buf p.left.len_in })
          p.left_demod p.buf_left p.bl_len in
      let right =
        channel p.dc_filter (record p.right { buf = rotate_m90 p.right.buf p.right.len_in })
          p.right_demod p.buf_right p.br_len in
      let done = pre_output (record p {
        left = left.0;
        right = right.0;
        left_demod = left.1.0;
        right_demod = right.1.0;
        buf_left = left.1.1;
        buf_right = right.1.1;
      }) in
      record done { handed = done.result ∷ done.handed }

  -- One round of the thread.
  unfoldable pub demod_round : Pipeline → Pipeline
  unfolding take_block finish_block
  demod_round p = finish_block (take_block p)
