-- ===== src/Dsp/Pipeline/Reads/State.antt =====
-- What a signal path carries from block to block, and what two of them have in common.
use rtl_ais_android.Base.{ℕ, ◌*◌, ◌≤◌, ◌≡◌, Array, Agree, List, [], ◌∷◌}
use rtl_ais_android.Base.Int.{ℤ}
use rtl_ais_android.Dsp.Demod.Reads.{SameCarried}
use rtl_ais_android.Dsp.Pipeline.{Pipeline}
use rtl_ais_android.Dsp.Pipeline.Stores.{Kept}
use rtl_ais_android.Dsp.Pipeline.Reads.{SameHistories}

-- The samples handed on: as many blocks, with the same values below `n`.
abbrev pub SameHanded : ℕ → List (Array ℤ) → List (Array ℤ) → Type 0
SameHanded n [] [] = Unit {0}
SameHanded n [] (y ∷ ys) = ⊥
SameHanded n (x ∷ xs) [] = ⊥
SameHanded n (x ∷ xs) (y ∷ ys) = Agree n x y × SameHanded n xs ys

-- As many blocks of bytes, with the same bytes below `n`.
abbrev pub SameBlocks : ℕ → List (Array ℕ) → List (Array ℕ) → Type 0
SameBlocks n [] [] = Unit {0}
SameBlocks n [] (y ∷ ys) = ⊥
SameBlocks n (x ∷ xs) [] = ⊥
SameBlocks n (x ∷ xs) (y ∷ ys) = Agree n x y × SameBlocks n xs ys

-- The same but for the arrays that are buffers.
pub record SameState (p q : Pipeline) : Type 0 where
  pub both : SameHistories p.both q.both
  pub left : SameHistories p.left q.left
  pub right : SameHistories p.right q.right
  pub left_demod : SameCarried p.left_demod q.left_demod
  pub right_demod : SameCarried p.right_demod q.right_demod
  pub bl_len : p.bl_len ≡ q.bl_len
  pub br_len : p.br_len ≡ q.br_len
  pub dc_filter : p.dc_filter ≡ q.dc_filter
  pub handed : SameHanded (2 * p.bl_len) p.handed q.handed

-- What is copied out of a buffer is in it, and each channel has two or more samples and as many
-- outputs or more.
pub record Sources (p : Pipeline) : Type 0 where
  pub both_out : p.both.len_out ≤ p.both.len_in
  pub left_out : p.left.len_out ≤ p.left.len_in
  pub right_out : p.right.len_out ≤ p.right.len_in
  pub left_two : 2 ≤ p.left_demod.result_len
  pub right_two : 2 ≤ p.right_demod.result_len
  pub left_more : p.left_demod.result_len ≤ p.bl_len
  pub right_more : p.right_demod.result_len ≤ p.br_len
  pub outputs : p.bl_len ≤ p.br_len

pub Sources-Kept : (p q : Pipeline) → Sources p → Kept p q → Sources q
Sources-Kept p q s k = record {
  both_out = rw (k.both.len_out, k.both.len_in) s.both_out;
  left_out = rw (k.left.len_out, k.left.len_in) s.left_out;
  right_out = rw (k.right.len_out, k.right.len_in) s.right_out;
  left_two = rw k.left_demod.result_len s.left_two;
  right_two = rw k.right_demod.result_len s.right_two;
  left_more = rw (k.left_demod.result_len, k.bl_len) s.left_more;
  right_more = rw (k.right_demod.result_len, k.br_len) s.right_more;
  outputs = rw (k.bl_len, k.br_len) s.outputs;
}
