-- ===== src/Dsp/Demod.antt =====
-- The FM demodulation of app/src/main/jni/rtl_ais_andro.c: `multiply`, `fast_atan2`,
-- `polar_disc_fast`, `demodulate` and `dc_block_filter`.
pub mod Angle
pub mod Blocks
pub mod Dc
pub mod Reads
use rtl_ais_android.Base.{ℕ, ◌+◌, ◌-◌, ◌*◌, ◌/◌, ◌&&◌, Array, update, if◌then◌else◌}
use rtl_ais_android.Base.Int.{
  ℤ, pos, negsuc, ◌+ℤ◌, ◌-ℤ◌, ◌*ℤ◌, neg, scale, div, quot, ltb_ℤ, is_zero, to_int16, to_int32,
}
use rtl_ais_android.Base.Loop.{for_loop}

-- The product of two complex numbers. An `int` sum or difference of products wraps once where C
-- would wrap in each step.
unfoldable pub multiply : ℤ → ℤ → ℤ → ℤ → ℤ × ℤ
multiply ar aj br bj = (to_int32 (ar *ℤ br -ℤ aj *ℤ bj), to_int32 (aj *ℤ br +ℤ ar *ℤ bj))

-- Note that the half turn is 2 ^ 14.
abbrev pub pi4 : ℕ
pi4 = 4096

abbrev pub pi34 : ℕ
pi34 = 3 * 4096

unfoldable pub fast_atan2 : ℤ → ℤ → ℤ
fast_atan2 y x =
    if is_zero x && is_zero y
    then pos 0
    else (let yabs = if ltb_ℤ y (pos 0) then to_int32 (neg y) else y in
        let angle =
          if ltb_ℤ x (pos 0)
          then pos pi34 -ℤ quot (to_int32 (scale pi4 (to_int32 (x +ℤ yabs)))) (to_int32 (yabs -ℤ x))
          else pos pi4
            -ℤ quot (to_int32 (scale pi4 (to_int32 (x -ℤ yabs)))) (to_int32 (x +ℤ yabs)) in
        if ltb_ℤ y (pos 0) then neg angle else angle)

-- The angle from the sample b to the sample a: a times the conjugate of b.
unfoldable pub polar_disc_fast : ℤ → ℤ → ℤ → ℤ → ℤ
polar_disc_fast ar aj br bj =
    let (cr, cj) = multiply ar aj br (to_int32 (neg bj)) in fast_atan2 cj cr

-- `struct demod_state`, without the fields that nothing reads.
pub record DemodState : Type 0 where
  pub buf : Array ℤ
  pub buf_len : ℕ
  pub result : Array ℤ
  pub result_len : ℕ
  pub pre_r : ℤ
  pub pre_j : ℤ
  pub dc_avg : ℤ

unfoldable pub demodulate_round : Array ℤ → ℕ → Array ℤ → Array ℤ
demodulate_round buf i result =
    let pcm = polar_disc_fast (buf i) (buf (i + 1)) (buf (i - 2)) (buf (i - 1)) in
    update result (i / 2) (to_int16 pcm)

unfoldable pub demodulate : DemodState → DemodState
unfolding demodulate_round for_loop
demodulate d =
    let pcm = polar_disc_fast (d.buf 0) (d.buf 1) d.pre_r d.pre_j in
    let first = update d.result 0 (to_int16 pcm) in
    record d {
      result = for_loop 2 2 (d.buf_len - 1) (demodulate_round d.buf) first;
      pre_r = d.buf (d.buf_len - 2);
      pre_j = d.buf (d.buf_len - 1);
    }

-- The sum is an `int64_t`, which holds any sum of a block.
unfoldable pub sum_round : Array ℤ → ℕ → ℤ → ℤ
sum_round result i sum = sum +ℤ result i

unfoldable pub subtract_round : ℤ → ℕ → Array ℤ → Array ℤ
subtract_round avg i result = update result i (to_int16 (result i -ℤ avg))

-- (avg + dc_avg * 9) / 10, where an `int` that overflows is taken to wrap.
abbrev pub smoothed : ℤ → ℤ → ℤ
smoothed avg dc_avg = div (to_int32 (avg +ℤ scale 9 dc_avg)) 10

unfoldable pub dc_block_filter : DemodState → DemodState
unfolding sum_round subtract_round for_loop
dc_block_filter d =
    let sum = for_loop 0 1 d.result_len (sum_round d.result) (pos 0) in
    let avg = smoothed (div sum d.result_len) d.dc_avg in
    record d { result = for_loop 0 1 d.result_len (subtract_round avg) d.result; dc_avg = avg }
