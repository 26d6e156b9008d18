-- ===== src/Args.antt =====
-- app/src/main/jni/RtlAisJava.c: how `open` cuts its argument string into an `argv`, and what it
-- frees afterwards.
pub mod Trim
pub mod Split
pub mod Open
mod Tests
use rtl_ais_android.Base.{
  ℕ, suc, ◌+◌, ◌-◌, ◌==◌, ltb, ◌&&◌, not, Bool, true, false, List, [], ◌∷◌, ◌++◌, map, length, take,
  replicate, Option, none, some, if◌then◌else◌,
}
use mathlib.Core.List.{reverse}
use mathlib.Core.Option

abbrev pub Chars : Type 0
Chars = List ℕ

abbrev pub space : ℕ
space = b' '

-- A block from `malloc`: a byte that nothing has stored is `none`.
abbrev pub Block : Type 0
Block = List (Option ℕ)

-- The first loop of `strcpytrimmed`: what is left after the leading spaces.
pub skip_spaces : Chars → Chars
skip_spaces [] = []
skip_spaces (c ∷ cs) = elim (c == space) [ true ↦ skip_spaces cs | false ↦ c ∷ cs ]

-- The second loop runs from the other end, down to the first character that is kept.
pub trim : Chars → Chars
trim cs = reverse (skip_spaces (reverse (skip_spaces cs)))

-- The block of `dest_malloced_size` bytes after the call: the trimmed characters at its start, the
-- terminator at its last byte, and between them what `malloc` left. Nothing is known of it where more
-- characters are to be copied than there are.
unfoldable pub strcpytrimmed : Chars → ℕ → Block
unfolding skip_spaces trim
strcpytrimmed src dest_malloced_size =
    let charstocopy = dest_malloced_size - 1 in
    let kept = trim (take charstocopy src) in
    if ltb (length src) charstocopy
    then replicate dest_malloced_size none
    else map some kept ++ (replicate (charstocopy - length kept) none ++ (some 0 ∷ []))

-- The spaces of the string.
pub spaces : Chars → ℕ
spaces [] = 0
spaces (c ∷ cs) = if c == space then suc (spaces cs) else spaces cs

-- The loop over `i`, at the characters from `string[i]` on; `current` are the characters from
-- `laststart` to before `i`. The last character ends the loop, and the last argument is cut off
-- behind it.
pub split : Chars → Chars → List Block
split current [] = []
split current (c ∷ []) = let all = current ++ (c ∷ []) in strcpytrimmed all (length all + 1) ∷ []
split current (c ∷ (d ∷ rest)) =
    let all = current ++ (c ∷ []) in
    elim ((c == space) && not (d == space)) [
      | true ↦ strcpytrimmed all (length all) ∷ split [] (d ∷ rest)
      | false ↦ split all (d ∷ rest)
    ]

-- What the call writes: `argc`, and the pointers of `argv` up to `argc`, where `none` is the null
-- pointer in front; `none` for `argv` means that it was not assigned.
pub record Args : Type 0 where
  pub argc : ℕ
  pub argv : Option (List (Option Block))

-- The number of pointers that `argv` has room for.
abbrev pub room : Chars → ℕ
room string = spaces string + 1 + 2

unfoldable pub allocate_args_from_string : Chars → Args
unfolding spaces split strcpytrimmed
allocate_args_from_string string =
    if spaces string + 1 == length string + 1
    then record { argc = 0; argv = none }
    else (let args = map some (split [] string) in
        record { argc = length args + 1; argv = some (none ∷ args) })

-- How `open` ends. `free` of a pointer that was never assigned is undefined.
pub data Release : Type 0 where
  released : Release
  bad_free : Release

-- `for (i = 0; i < argc; i++) free(argv[i]); free(argv);` Freeing the null pointer does nothing.
unfoldable pub release_args : Args → Release
release_args a = elim a.argv [ none ↦ bad_free | some pointers ↦ released ]

-- `open`, but for the call of `rtl_ais_main`, which does not touch `argv`.
unfoldable pub open_args : Chars → Release
unfolding allocate_args_from_string release_args
open_args string = release_args (allocate_args_from_string string)

-- The text that a C function reads from a block: up to the terminator. `none` if it meets a
-- byte that nothing has stored, or the end of the block.
abbrev pub c_string : Block → Option Chars
c_string [] = none
c_string (none ∷ b) = none
c_string (some c ∷ b) = if c == 0 then some [] else Option.map (λ s. c ∷ s) (c_string b)
