-- ===== src/Dsp/Rotate/Reads.antt =====
-- What the rotations read: the groups of eight values up to the length.
use rtl_ais_android.Base.{ℕ, ◌+◌, ◌-◌, ◌%◌, ◌≡◌, arith, Array, Agree}
use rtl_ais_android.Base.Int.{ℤ}
use rtl_ais_android.Dsp.Rotate.{rotate_90, rotate_m90}
use rtl_ais_android.Dsp.Rotate.Laws.{rotate_90_lem, rotate_m90_lem}

-- Each value below the length is the turned one, which is read from its own group of eight.
pub rotate_90-Agree :
    (len : ℕ) (a b : Array ℤ)
    → len % 8 ≡ 0
    → Agree len a b
    → Agree len (rotate_90 a len) (rotate_90 b len)
rotate_90-Agree len a b eighth same x lt =
    let here = same x lt in
    let after = same (x + 1) in
    let before = same (x - 1) in
    ground (arith, rotate_90_lem a len x, rotate_90_lem b len x, here, after, before)

pub rotate_m90-Agree :
    (len : ℕ) (a b : Array ℤ)
    → len % 8 ≡ 0
    → Agree len a b
    → Agree len (rotate_m90 a len) (rotate_m90 b len)
rotate_m90-Agree len a b eighth same x lt =
    let here = same x lt in
    let after = same (x + 1) in
    let before = same (x - 1) in
    ground (arith, rotate_m90_lem a len x, rotate_m90_lem b len x, here, after, before)
