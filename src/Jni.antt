-- ===== src/Jni.antt =====
-- app/src/main/jni/RtlAisJava.c: what goes back to Java. The calls of the Java virtual machine are the
-- events of the model; the formatted text is what `vsnprintf` makes of the format and its arguments.
pub mod Messages
pub mod Balance
mod Tests
use rtl_ais_android.Base.{
  ℕ, ◌-◌, ltb, not, ◌&&◌, Bool, true, false, List, [], ◌∷◌, ◌++◌, length, take, Option, none, some,
  if◌then◌else◌,
}
use rtl_ais_android.Base.Int.{ℤ}
use rtl_ais_android.Args.{Chars, Release, open_args}

-- MAX_CHARS_IN_CLI_SEND_STRF
abbrev pub max_chars : ℕ
max_chars = 512

-- The static methods that are called, with their arguments.
pub data Sent : Type 0 where
  on_close : ℤ → Sent
  on_open : Sent
  on_stderr : Chars → Sent
  on_printf : Chars → Sent
  on_sample : List ℤ → ℕ → Sent

-- `cls` says whether the class is known, `attached` whether the calling thread is attached; the
-- calls are in order.
pub record Jvm : Type 0 where
  pub cls : Bool
  pub attached : Bool
  pub sent : List Sent

-- GetEnv, and AttachCurrentThread where it is needed.
abbrev pub attach : Jvm → Jvm
attach j = record j { attached = true }

abbrev pub call_java : Sent → Jvm → Jvm
call_java s j = record j { sent = j.sent ++ (s ∷ []) }

abbrev pub thread_detach : Jvm → Jvm
thread_detach j = record j { attached = false }

unfoldable pub announce_exceptioncode : ℤ → Jvm → Jvm
announce_exceptioncode exception_code j = call_java (on_close exception_code) (attach j)

unfoldable pub announce_success : Jvm → Jvm
announce_success j = call_java on_open (attach j)

-- The first argument says whether the array could be made, the second whether the method was found.
unfoldable pub sample_ready : Bool → Bool → List ℤ → ℕ → Jvm → Jvm
sample_ready made found samples len j =
    let j' = attach j in
    if made && found then call_java (on_sample (take len samples) len) j' else j'

-- The buffer holds what fits of the text, and the size is that of the whole; `none` is an error.
unfoldable pub print : (Chars → Sent) → Option Chars → Jvm → Jvm
print receiver formatted j = if not j.cls then j else (elim formatted [
  | none ↦ attach j
  | some text ↦
      let data_chars = take (max_chars - 1) text in
      if ltb (length text) max_chars then call_java (receiver data_chars) (attach j) else attach j
])

unfoldable pub aprintf_stderr : Option Chars → Jvm → Jvm
unfolding print
aprintf_stderr formatted j = print on_stderr formatted j

unfoldable pub aprintf : Option Chars → Jvm → Jvm
unfolding print
aprintf formatted j = print on_printf formatted j

-- What `open` does with references and strings of the virtual machine.
pub data Handle : Type 0 where
  delete_class : Handle
  new_class : Handle
  get_args : Handle
  get_path : Handle
  main : Handle
  release_args_chars : Handle
  release_path_chars : Handle
  free_args : Release → Handle

-- The arguments say whether a class is known from an earlier call, and whether a path is given.
unfoldable pub java_open : Bool → Bool → Chars → List Handle
unfolding open_args
java_open known path string =
    (if known then delete_class ∷ [] else [])
    ++ ((new_class ∷ (get_args ∷ []))
        ++ ((if path then get_path ∷ [] else [])
            ++ ((main ∷ (release_args_chars ∷ []))
                ++ ((if path then release_path_chars ∷ [] else [])
                    ++ (free_args (open_args string) ∷ [])))))
