-- ===== src/Dsp/GenericFir.antt =====
-- `generic_fir` and `cic_9_tables` of app/src/main/jni/rtl_ais_andro.c: a symmetric nine-tap
-- filter over one half of an interleaved I/Q block, in place.
pub mod Window
pub mod Bounds
pub mod Reads
use rtl_ais_android.Base.{ℕ, zero, suc, ◌+◌, Array, update, List, [], ◌∷◌, get_or}
use rtl_ais_android.Base.Int.{ℤ, pos, negsuc, ◌+ℤ◌, ◌*ℤ◌, shr, to_int16, to_int32, neg}
use rtl_ais_android.Base.Loop.{for_loop}

-- The nine values of `hist`, oldest first.
pub record History : Type 0 where
  pub h0 : ℤ
  pub h1 : ℤ
  pub h2 : ℤ
  pub h3 : ℤ
  pub h4 : ℤ
  pub h5 : ℤ
  pub h6 : ℤ
  pub h7 : ℤ
  pub h8 : ℤ

-- -n
abbrev minus : ℕ → ℤ
minus zero = pos 0
minus (suc n) = negsuc n

-- A row of `cic_9_tables`: its length and the nine weights, which are symmetric.
abbrev row : ℤ → ℤ → ℤ → ℤ → ℤ → List ℤ
row a b c d e = pos 9 ∷ a ∷ b ∷ c ∷ d ∷ e ∷ d ∷ c ∷ b ∷ a ∷ []

abbrev pub cic_9_tables : List (List ℤ)
cic_9_tables =
    (pos 0 ∷ [])
    ∷ row (minus 156) (minus 97) (pos 2798) (minus 15489) (pos 61019)
    ∷ row (minus 128) (minus 568) (pos 5593) (minus 24125) (pos 74126)
    ∷ row (minus 129) (minus 639) (pos 6187) (minus 26281) (pos 77511)
    ∷ row (minus 122) (minus 612) (pos 6082) (minus 26353) (pos 77818)
    ∷ row (minus 120) (minus 602) (pos 6015) (minus 26269) (pos 77757)
    ∷ row (minus 120) (minus 582) (pos 5951) (minus 26128) (pos 77542)
    ∷ row (minus 119) (minus 580) (pos 5931) (minus 26094) (pos 77505)
    ∷ row (minus 119) (minus 578) (pos 5921) (minus 26077) (pos 77484)
    ∷ row (minus 119) (minus 577) (pos 5917) (minus 26067) (pos 77473)
    ∷ row (minus 199) (minus 362) (pos 5303) (minus 25505) (pos 77489)
    ∷ []

-- fir[n]; C fills the rest of the first row with zeros.
abbrev pub weight : List ℤ → ℕ → ℤ
weight fir n = get_or fir n (pos 0)

-- The exact sum of the round.
unfoldable pub folded_sum : List ℤ → History → ℤ
folded_sum fir h =
    (h.h0 +ℤ h.h8) *ℤ weight fir 1
    +ℤ (h.h1 +ℤ h.h7) *ℤ weight fir 2
    +ℤ (h.h2 +ℤ h.h6) *ℤ weight fir 3
    +ℤ (h.h3 +ℤ h.h5) *ℤ weight fir 4
    +ℤ h.h4 *ℤ weight fir 5

-- `sum >> 15` stored into an int16_t. `sum` is an `int`: wrapping the exact sum once is wrapping
-- after each step.
unfoldable pub filtered : List ℤ → History → ℤ
filtered fir h = to_int16 (shr 15 (to_int32 (folded_sum fir h)))

abbrev pub push : History → ℤ → History
push h temp = record {
  h0 = h.h1;
  h1 = h.h2;
  h2 = h.h3;
  h3 = h.h4;
  h4 = h.h5;
  h5 = h.h6;
  h6 = h.h7;
  h7 = h.h8;
  h8 = temp;
}

pub record Run : Type 0 where
  pub hist : History
  pub buf : Array ℤ

-- `data` is the pointer `p` into `buf`.
pub round : ℕ → List ℤ → ℕ → Run → Run
round p fir d s =
    let temp = s.buf (p + d) in
    record { buf = update s.buf (p + d) (filtered fir s.hist); hist = push s.hist temp }

unfoldable pub generic_fir : ℕ → ℕ → List ℤ → History → Array ℤ → Run
unfolding round for_loop
generic_fir p length fir hist buf =
    for_loop 0 2 length (round p fir) (record { hist = hist; buf = buf })
