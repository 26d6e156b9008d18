-- ===== src/Jni/Messages.antt =====
-- Which messages reach Java.
use mathlib.Core.List.{append_assoc, append-nil}
use rtl_ais_android.Base.{
  ℕ, zero, suc, ◌≤◌, ◌≡◌, refl, sym, ap, ◌∙◌, arith, ltb, ltb→lt, true, Bool-cases, inl, inr, List,
  [], ◌∷◌, ◌++◌, length, take, Option, none, some, if◌then◌else◌,
}
use rtl_ais_android.Args.{Chars}
use rtl_ais_android.Jni.{Sent, Jvm, max_chars, print}

module _ (receiver : Chars → Sent) where
  -- The messages one after the other.
  unfoldable pub print_all : List (Option Chars) → Jvm → Jvm
  print_all [] j = j
  print_all (m ∷ ms) j = print_all ms (print receiver m j)

  -- Those that are shorter than the buffer, whole.
  abbrev pub arriving : List (Option Chars) → List Sent
  arriving [] = []
  arriving (none ∷ ms) = arriving ms
  arriving (some text ∷ ms) =
      let rest = arriving ms in if ltb (length text) max_chars then receiver text ∷ rest else rest

  take_all : (n : ℕ) (xs : Chars) → length xs ≤ n → take n xs ≡ xs
  take_all zero [] le = refl
  take_all zero (x ∷ xs) le = absurd (omega arith)
  take_all (suc n) [] le = refl
  take_all (suc n) (x ∷ xs) le = ap (λ t. x ∷ t) (take_all n xs (omega (arith, le)))

  print-sent :
      (m : Option Chars) (j : Jvm)
      → j.cls ≡ true
      → (print receiver m j).sent ≡ j.sent ++ arriving (m ∷ [])
  unfolding print
  print-sent none j known = rw known (sym (append-nil j.sent))
  print-sent (some text) j known = elim (Bool-cases (ltb (length text) max_chars)) [
    | inl fits ↦
        let whole = take_all 511 text (omega (arith, ltb→lt (length text) 512 fits)) in
        rw (known, fits, whole) refl
    | inr long ↦ rw (known, long) (sym (append-nil j.sent))
  ]

  print-cls : (m : Option Chars) (j : Jvm) → (print receiver m j).cls ≡ j.cls
  unfolding print
  print-cls m j = ground arith

  arriving-cons :
      (m : Option Chars) (ms : List (Option Chars))
      → arriving (m ∷ ms) ≡ arriving (m ∷ []) ++ arriving ms
  arriving-cons none ms = refl
  arriving-cons (some text) ms = elim (Bool-cases (ltb (length text) max_chars)) [
    | inl fits ↦ rw fits refl
    | inr long ↦ rw long refl
  ]

  -- Once the class is known, exactly the messages that were formatted into less than 512 characters
  -- reach Java, whole and in the order in which they were printed.
  pub print_all-sent :
      (ms : List (Option Chars)) (j : Jvm)
      → j.cls ≡ true
      → (print_all ms j).sent ≡ j.sent ++ arriving ms
  unfolding print_all
  print_all-sent [] j known = sym (append-nil j.sent)
  print_all-sent (m ∷ ms) j known =
      print_all-sent ms (print receiver m j) (print-cls m j ∙ known)
      ∙ ap (λ t. t ++ arriving ms) (print-sent m j known)
      ∙ append_assoc j.sent (arriving (m ∷ [])) (arriving ms)
      ∙ ap (λ t. j.sent ++ t) (sym (arriving-cons m ms))
