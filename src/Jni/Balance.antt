-- ===== src/Jni/Balance.antt =====
-- The references and strings that `open` takes from the virtual machine, and gives back.
use rtl_ais_android.Base.{
  ℕ, zero, suc, ◌∙◌, ◌≡◌, refl, Bool, true, false, List, [], ◌∷◌, ◌++◌, Option, none, some,
}
use rtl_ais_android.Args.{Chars, Release, released, bad_free, open_args}
use rtl_ais_android.Args.Open.{IsBlank, open_args-bad_free_iff}
use rtl_ais_android.Jni.{
  Handle, delete_class, new_class, get_args, get_path, main, release_args_chars, release_path_chars,
  free_args, java_open,
}

-- What is held: references to the class, and the two strings.
pub record Holding : Type 0 where
  pub classes : ℕ
  pub args : ℕ
  pub path : ℕ

-- One fewer, where there is one.
abbrev fewer : ℕ → Option ℕ
fewer zero = none
fewer (suc n) = some n

-- `none` is a release of what is not held, of a pointer that was never assigned among them.
abbrev pub step : Handle → Holding → Option Holding
step delete_class h = elim (fewer h.classes) [
  | none ↦ none
  | some n ↦ some (record h { classes = n })
]
step new_class h = some (record h { classes = suc h.classes })
step get_args h = some (record h { args = suc h.args })
step get_path h = some (record h { path = suc h.path })
step main h = some h
step release_args_chars h = elim (fewer h.args) [
  | none ↦ none
  | some n ↦ some (record h { args = n })
]
step release_path_chars h = elim (fewer h.path) [
  | none ↦ none
  | some n ↦ some (record h { path = n })
]
step (free_args released) h = some h
step (free_args bad_free) h = none

abbrev pub after : List Handle → Holding → Option Holding
after [] h = some h
after (e ∷ es) h = elim (step e h) [ none ↦ none | some h' ↦ after es h' ]

-- The calls of `open`, one after the other: each with whether a path is given, and its string.
abbrev pub calls : Bool → List (Bool × Chars) → List Handle
calls known [] = []
calls known ((path, string) ∷ rest) = java_open known path string ++ calls true rest

abbrev holding : Bool → Holding
holding true = record { classes = 1; args = 0; path = 0 }
holding false = record { classes = 0; args = 0; path = 0 }

-- No string is blank.
abbrev pub NoBlank : List (Bool × Chars) → Type 0
NoBlank [] = Unit {0}
NoBlank ((path, string) ∷ rest) = (IsBlank string → ⊥) × NoBlank rest

frees_args : (string : Chars) → (IsBlank string → ⊥) → open_args string ≡ released
frees_args string some_text = either (open_args string) refl
  where
    either : (r : Release) → open_args string ≡ r → open_args string ≡ released
    either released e = e
    either bad_free e = absurd (some_text ((open_args-bad_free_iff string).0 e))

one_call :
    (known path : Bool) (string : Chars) (es : List Handle)
    → open_args string ≡ released
    → after (java_open known path string ++ es) (holding known) ≡ after es (holding true)
unfolding java_open
one_call true true string es e = rw e refl
one_call true false string es e = rw e refl
one_call false true string es e = rw e refl
one_call false false string es e = rw e refl

calls_from :
    (known : Bool) (cs : List (Bool × Chars)) (path : Bool) (string : Chars)
    → NoBlank ((path, string) ∷ cs)
    → after (calls known ((path, string) ∷ cs)) (holding known) ≡ some (holding true)
calls_from known [] path string texts = one_call known path string [] (frees_args string texts.0)
calls_from known ((path', string') ∷ cs) path string texts =
    one_call known path string (calls true ((path', string') ∷ cs)) (frees_args string texts.0)
    ∙ calls_from true cs path' string' texts.1

-- However often `open` was called in a process, with a path or without, for runs that return and with
-- strings that are neither empty nor of spaces only: nothing was released that was not held, no pointer
-- was freed that was never assigned, and what is left is one reference to the class and neither of the two strings.
pub java_open_balance :
    (path : Bool) (string : Chars) (cs : List (Bool × Chars))
    → NoBlank ((path, string) ∷ cs)
    → after (calls false ((path, string) ∷ cs)) (record { classes = 0; args = 0; path = 0 })
      ≡ some (record { classes = 1; args = 0; path = 0 })
java_open_balance path string cs texts = calls_from false cs path string texts
