-- ===== src/Dsp/Rotate.antt =====
-- `rotate_90` and `rotate_m90` of app/src/main/jni/rtl_ais_andro.c: they shift a block of
-- interleaved I/Q samples by a quarter of the sample rate, in place.
pub mod Laws
pub mod Turns
pub mod Reads
mod Tests
use rtl_ais_android.Base.{ℕ, ◌+◌, Array, update}
use rtl_ais_android.Base.Int.{ℤ, neg, to_int16}
use rtl_ais_android.Base.Loop.{for_loop}

abbrev pub Samples : Type 0
Samples = Array ℤ

-- `-x` is computed in `int` and stored into an `int16_t`.
abbrev pub neg16 : ℤ → ℤ
neg16 x = to_int16 (neg x)

-- One round of each loop: the eight values from `i` on. A name is a state of `buf`.
pub rotate_90_body : ℕ → Samples → Samples
rotate_90_body i buf =
    let tmp = buf (i + 2) in
    let buf2 = update buf (i + 2) (neg16 (buf (i + 3))) in
    let buf3 = update buf2 (i + 3) tmp in
    let buf4 = update buf3 (i + 4) (neg16 (buf3 (i + 4))) in
    let buf5 = update buf4 (i + 5) (neg16 (buf4 (i + 5))) in
    let tmp' = buf5 (i + 6) in
    let buf6 = update buf5 (i + 6) (buf5 (i + 7)) in update buf6 (i + 7) (neg16 tmp')

pub rotate_m90_body : ℕ → Samples → Samples
rotate_m90_body i buf =
    let tmp = buf (i + 2) in
    let buf2 = update buf (i + 2) (buf (i + 3)) in
    let buf3 = update buf2 (i + 3) (neg16 tmp) in
    let buf4 = update buf3 (i + 4) (neg16 (buf3 (i + 4))) in
    let buf5 = update buf4 (i + 5) (neg16 (buf4 (i + 5))) in
    let tmp' = buf5 (i + 6) in
    let buf6 = update buf5 (i + 6) (neg16 (buf5 (i + 7))) in update buf6 (i + 7) tmp'

-- A last round that begins below `len` is made whole, also where it ends beyond `len`.
unfoldable pub rotate_90 : Samples → ℕ → Samples
unfolding rotate_90_body for_loop
rotate_90 buf len = for_loop 0 8 len rotate_90_body buf

unfoldable pub rotate_m90 : Samples → ℕ → Samples
unfolding rotate_m90_body for_loop
rotate_m90 buf len = for_loop 0 8 len rotate_m90_body buf
