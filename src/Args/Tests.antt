-- ===== src/Args/Tests.antt =====
-- The theorems on the argument string at short strings.
use Prim.{tt}
use rtl_ais_android.Base.{◌+◌, ◌≡◌, ◌↔◌, refl, arith, map, List, [], ◌∷◌, ◌++◌, length, none, some}
use rtl_ais_android.Args.{
  Chars, Block, c_string, split, spaces, strcpytrimmed, trim, skip_spaces,
  allocate_args_from_string, open_args, bad_free,
}
use rtl_ais_android.Args.Trim.{strcpytrimmed-unterminated}
use rtl_ais_android.Args.Split.{AreWords, join}
use rtl_ais_android.Args.Open.{IsBlank, open_args-bad_free_iff, allocate_args-join}

-- "ab", "c" and "a ".
abbrev ab : Chars
ab = 97 ∷ (98 ∷ [])

abbrev c : Chars
c = 99 ∷ []

abbrev a_space : Chars
a_space = 97 ∷ (32 ∷ [])

-- "ab  c": with two spaces the first argument is not terminated.
two_spaces : map c_string (split [] (ab ++ (32 ∷ (32 ∷ c)))) ≡ none ∷ (some c ∷ [])
unfolding split strcpytrimmed
two_spaces = refl

ab-spaces : spaces ab ≡ 0
unfolding spaces
ab-spaces = refl

c-spaces : spaces c ≡ 0
unfolding spaces
c-spaces = refl

strcpytrimmed-unterminated_example : c_string (strcpytrimmed a_space 3) ≡ none
unfolding trim skip_spaces
strcpytrimmed-unterminated_example =
    strcpytrimmed-unterminated a_space 3 (omega arith) (λ e. omega arith, tt)

words : AreWords (ab ∷ (c ∷ []))
words = (
  (λ e. cc, ab-spaces, (λ e. omega arith, (λ e. omega arith, tt))),
  ((λ e. cc, c-spaces, (λ e. omega arith, tt)), tt),
)

allocate_args-join_example :
    (blocks : List Block) × (allocate_args_from_string (join ab (c ∷ []))
      ≡ record { argc = length (ab ∷ (c ∷ [])) + 1; argv = some (none ∷ map some blocks) })
    × (map c_string blocks ≡ map some (ab ∷ (c ∷ [])))
allocate_args-join_example = allocate_args-join ab (c ∷ []) words

one_argument :
    (allocate_args_from_string c).argv ≡ some (none ∷ (some (some 99 ∷ (some 0 ∷ [])) ∷ []))
unfolding allocate_args_from_string split strcpytrimmed
one_argument = refl

open_args-bad_free_iff_example : (open_args a_space ≡ bad_free) ↔ IsBlank a_space
open_args-bad_free_iff_example = open_args-bad_free_iff a_space
