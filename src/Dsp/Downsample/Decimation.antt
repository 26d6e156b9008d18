-- ===== src/Dsp/Downsample/Decimation.antt =====
-- The decimation of one signal, I or Q, as a function of the signal and of what was kept of the one
-- before: no block, no place in it, and no half of it.
pub mod Calls
pub mod Passes
use rtl_ais_android.Base.{ℕ, zero, suc, ◌-◌, ◌*◌, ◌^◌, ◌≤◌, ◌<◌, ◌≡◌, Array, List, [], get_or}
use rtl_ais_android.Base.Int.{ℤ}
use rtl_ais_android.Dsp.FifthOrder.{Taps, weigh}
use rtl_ais_android.Dsp.FifthOrder.Window as Five
use rtl_ais_android.Dsp.GenericFir.{History, filtered, cic_9_tables}
use rtl_ais_android.Dsp.GenericFir.Window as Nine

-- A signal after the five last values kept of the one before, or after nine of them.
abbrev pub after_five : Taps → (ℕ → ℤ) → ℕ → ℤ
after_five hist x zero = hist.b
after_five hist x (suc zero) = hist.c
after_five hist x (suc (suc zero)) = hist.d
after_five hist x (suc (suc (suc zero))) = hist.e
after_five hist x (suc (suc (suc (suc zero)))) = hist.f
after_five hist x (suc (suc (suc (suc (suc n))))) = x n

abbrev pub after_nine : History → (ℕ → ℤ) → ℕ → ℤ
after_nine hist x zero = hist.h0
after_nine hist x (suc zero) = hist.h1
after_nine hist x (suc (suc zero)) = hist.h2
after_nine hist x (suc (suc (suc zero))) = hist.h3
after_nine hist x (suc (suc (suc (suc zero)))) = hist.h4
after_nine hist x (suc (suc (suc (suc (suc zero))))) = hist.h5
after_nine hist x (suc (suc (suc (suc (suc (suc zero)))))) = hist.h6
after_nine hist x (suc (suc (suc (suc (suc (suc (suc zero))))))) = hist.h7
after_nine hist x (suc (suc (suc (suc (suc (suc (suc (suc zero)))))))) = hist.h8
after_nine hist x (suc (suc (suc (suc (suc (suc (suc (suc (suc n))))))))) = x n

-- The signal after the first `i` passes, each with a row of its own.
unfoldable pub passed : Array Taps → (ℕ → ℤ) → ℕ → ℕ → ℤ
passed rows x zero k = x k
passed rows x (suc i) k = weigh (Five.window (after_five (rows i) (passed rows x i)) (2 * k))

-- What the stage makes of it: the passes, then the compensation of their droop.
abbrev pub decimated : ℕ → Array Taps → History → (ℕ → ℤ) → ℕ → ℤ
decimated passes rows droop x k =
    filtered (get_or cic_9_tables passes [])
      (Nine.window (after_nine droop (passed rows x passes)) k)

-- What the stage leaves of the `c * 2 ^ passes` values of a signal `x`: `y` is what it stores, `kept`
-- and `droop'` are the histories it leaves.
pub record IsDecimation (c passes : ℕ) (rows : Array Taps) (droop : History) (x y : ℕ → ℤ)
    (kept : Array Taps) (droop' : History) : Type 0 where
  pub stored : (k : ℕ) → k < c → y k ≡ decimated passes rows droop x k
  pub last_windows :
      (i : ℕ)
      → i < passes
      → kept i
        ≡ Five.window (after_five (rows i) (passed rows x i)) (2 * (c * 2 ^ (passes - suc i) - 1))
  pub other_rows : (i : ℕ) → passes ≤ i → kept i ≡ rows i
  pub last_values : droop' ≡ Nine.window (after_nine droop (passed rows x passes)) c
