-- ===== src/Jni/Tests.antt =====
-- The theorems on what goes back to Java, at a few messages and calls.
use Prim.{tt}
use rtl_ais_android.Base.{arith, ◌≡◌, refl, true, false, List, [], ◌∷◌, ◌++◌, Option, none, some}
use rtl_ais_android.Args.{Chars}
use rtl_ais_android.Jni.{on_stderr, on_open, Jvm}
use rtl_ais_android.Jni.Messages.{print_all, arriving, print_all-sent}
use rtl_ais_android.Jni.Balance.{after, calls, java_open_balance}

abbrev jvm : Jvm
jvm = record { cls = true; attached = false; sent = on_open ∷ [] }

abbrev messages : List (Option Chars)
messages = some (b'h' ∷ (b'i' ∷ [])) ∷ (none ∷ (some (b'!' ∷ []) ∷ []))

print_all-sent_example :
    (print_all on_stderr messages jvm).sent ≡ (on_open ∷ []) ++ arriving on_stderr messages
print_all-sent_example = print_all-sent on_stderr messages jvm refl

java_open_balance_example :
    after
      (calls false ((true, b'x' ∷ []) ∷ ((false, b'y' ∷ []) ∷ [])))
      (record { classes = 0; args = 0; path = 0 })
    ≡ some (record { classes = 1; args = 0; path = 0 })
java_open_balance_example =
    java_open_balance true (b'x' ∷ []) ((false, b'y' ∷ []) ∷ [])
      (λ h. absurd (omega (arith, h.0)), ((λ h. absurd (omega (arith, h.0))), tt))
