-- ===== src/Args/Trim.antt =====
-- `strcpytrimmed`: when the copy is a proper C string, and when it is not.
use mathlib.Core.List.{reverse, reverse-append, reverse-reverse, append-nil}
use mathlib.Core.Option
use rtl_ais_android.Base.{
  ℕ, zero, suc, ◌+◌, ◌-◌, ◌<◌, ◌≡◌, ◌≢◌, refl, arith, [], ◌∷◌, ◌++◌, map, length, take, replicate,
  Option, none, some, ap, ◌∙◌, false, ltb, length-append, Bool-cases, inl, inr,
}
use rtl_ais_android.Args.{Chars, Block, skip_spaces, trim, strcpytrimmed, spaces, c_string}

-- No character of the text is the terminator.
abbrev pub NoNul : Chars → Type 0
NoNul [] = Unit {0}
NoNul (c ∷ cs) = (c ≢ 0) × NoNul cs

pub spaces-append : (xs ys : Chars) → spaces (xs ++ ys) ≡ spaces xs + spaces ys
unfolding spaces
spaces-append [] ys = omega arith
spaces-append (c ∷ xs) ys = ground (arith, spaces-append xs ys)

spaces-reverse : (xs : Chars) → spaces (reverse xs) ≡ spaces xs
spaces-reverse [] = refl
spaces-reverse (c ∷ xs) =
    ap spaces (reverse-append (c ∷ []) xs)
    ∙ spaces-append (reverse xs) (c ∷ [])
    ∙ (rw (spaces-reverse xs) (one_char c xs))
  where
    one_char : (c : ℕ) (xs : Chars) → spaces xs + spaces (c ∷ []) ≡ spaces (c ∷ xs)
    one_char c xs = unfold spaces in ground arith

skip_spaces-none : (xs : Chars) → spaces xs ≡ 0 → skip_spaces xs ≡ xs
unfolding skip_spaces spaces
skip_spaces-none [] h = refl
skip_spaces-none (c ∷ xs) h = ground arith

pub trim-none : (xs : Chars) → spaces xs ≡ 0 → trim xs ≡ xs
unfolding trim
trim-none xs h =
    rw (skip_spaces-none xs h, skip_spaces-none (reverse xs) (spaces-reverse xs ∙ h))
      (reverse-reverse xs)

c_string-text :
    (xs : Chars) (b : Block)
    → NoNul xs
    → c_string (map some xs ++ b) ≡ Option.map (λ s. xs ++ s) (c_string b)
c_string-text [] b h = map-same (c_string b)
  where
    map-same : (o : Option Chars) → o ≡ Option.map (λ s. [] ++ s) o
    map-same none = refl
    map-same (some s) = refl
c_string-text (c ∷ xs) b h = rw (c_string-text xs b h.1) (ground (arith, h.0))

length-map-some : (xs : Chars) → length (map some xs) ≡ length xs
length-map-some [] = refl
length-map-some (c ∷ xs) = ap suc (length-map-some xs)

take-all : (xs : Chars) (ys : Chars) → take (length xs) (xs ++ ys) ≡ xs
take-all [] [] = refl
take-all [] (y ∷ ys) = refl
take-all (x ∷ xs) ys = ap (λ t. x ∷ t) (take-all xs ys)

-- Where nothing is trimmed, `strcpytrimmed` makes the C string of the characters that it is asked
-- to copy, all but one for each byte of the destination.
pub strcpytrimmed-exact :
    (src rest : Chars)
    → spaces src ≡ 0
    → NoNul src
    → c_string (strcpytrimmed (src ++ rest) (length src + 1)) ≡ some src
unfolding strcpytrimmed
strcpytrimmed-exact src rest bare text =
    let size : length src + 1 - 1 ≡ length src = omega arith in
    let full : length src - length src ≡ 0 = omega arith in
    let enough : ltb (length (src ++ rest)) (length src) ≡ false =
      ground (arith, length-append src rest) in
    rw (
      size,
      enough,
      take-all src rest,
      trim-none src bare,
      full,
      c_string-text src (some 0 ∷ []) text,
      append-nil,
    )

c_string-gap :
    (n : ℕ) (xs : Chars) (b : Block)
    → 0 < n
    → NoNul xs
    → c_string (map some xs ++ (replicate n none ++ b)) ≡ none
c_string-gap zero xs b some_gap text = absurd (omega arith)
c_string-gap (suc n) xs b some_gap text = rw (c_string-text xs (replicate (suc n) none ++ b) text)

c_string-unknown : (n : ℕ) → c_string (replicate n none) ≡ none
c_string-unknown zero = refl
c_string-unknown (suc n) = refl

-- Where a space is trimmed at either end of the characters to copy, the text that is kept is not
-- terminated: a reader goes from its last character into a byte that nothing has stored.
pub strcpytrimmed-unterminated :
    (src : Chars) (size : ℕ)
    → length (trim (take (size - 1) src)) < size - 1
    → NoNul (trim (take (size - 1) src))
    → c_string (strcpytrimmed src size) ≡ none
unfolding strcpytrimmed
strcpytrimmed-unterminated src size trimmed text = elim (Bool-cases (ltb (length src) (size - 1))) [
  | inl short ↦ rw short (c_string-unknown size)
  | inr enough ↦
      rw enough (c_string-gap _ (trim (take (size - 1) src)) (some 0 ∷ []) (omega arith) text)
]
