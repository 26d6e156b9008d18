-- ===== src/Dsp/Rotate/Tests.antt =====
-- A run of `rotate_90` on one group of eight values.
use rtl_ais_android.Base.{◌≡◌, refl}
use rtl_ais_android.Base.Int.{pos}
use rtl_ais_android.Dsp.Rotate.{rotate_90}

rotates : rotate_90 pos 8 3 ≡ pos 2
unfolding rotate_90
rotates = refl
