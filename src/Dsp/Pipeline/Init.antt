-- ===== src/Dsp/Pipeline/Init.antt =====
-- `downsample_init`, `demod_init` and `stereo_init` of app/src/main/jni/rtl_ais_andro.c, as
-- `rtl_ais_main` calls them once the lengths are planned.
use rtl_ais_android.Base.{Array}
use rtl_ais_android.Base.Int.{ℤ}
use rtl_ais_android.Dsp.Downsample.{downsample_init}
use rtl_ais_android.Dsp.Demod.{DemodState}
use rtl_ais_android.Dsp.Pipeline.{Pipeline}

-- What stands in the blocks that `malloc` gives.
pub record Fresh : Type 0 where
  pub both : Array ℤ
  pub left : Array ℤ
  pub right : Array ℤ
  pub left_buf : Array ℤ
  pub left_result : Array ℤ
  pub right_buf : Array ℤ
  pub right_result : Array ℤ
  pub buf_left : Array ℤ
  pub buf_right : Array ℤ
  pub result : Array ℤ

abbrev pub demod_init : Array ℤ → Array ℤ → DemodState → DemodState
demod_init buf result ds = record ds { buf = buf; result = result }

abbrev pub stereo_init : Fresh → Pipeline → Pipeline
stereo_init f p = record p { buf_left = f.buf_left; buf_right = f.buf_right; result = f.result }

unfoldable pub init_buffers : Fresh → Pipeline → Pipeline
unfolding downsample_init
init_buffers f p = stereo_init f (record p {
  both = downsample_init f.both p.both;
  left = downsample_init f.left p.left;
  right = downsample_init f.right p.right;
  left_demod = demod_init f.left_buf f.left_result p.left_demod;
  right_demod = demod_init f.right_buf f.right_result p.right_demod;
})
