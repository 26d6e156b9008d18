-- ===== src/Args/Open.antt =====
-- The argument vector as a whole: its size, and whether `open` can free it.
use Prim.{tt}
use rtl_ais_android.Base.{
  suc, ◌+◌, ◌≤◌, ◌<◌, ◌≡◌, ◌↔◌, refl, arith, ◌==◌, false, List, [], ◌∷◌, map, length, length-append,
  Option, none, some, ap, ◌∙◌, sym,
}
use rtl_ais_android.Args.{
  Chars, space, Block, spaces, split, c_string, room, allocate_args_from_string, bad_free,
  open_args,
}
use rtl_ais_android.Args.Trim.{spaces-append}
use rtl_ais_android.Args.Split.{IsWord, AreWords, join, split-join, length-split}

length-map {ℓ κ} :
    {A : Type ℓ} {B : Type κ} (f : A → B) (xs : List A) → length (map f xs) ≡ length xs
length-map f [] = refl
length-map f (x ∷ xs) = ap suc (length-map f xs)

-- Where `argv` is assigned, it has room for the `argc` pointers and the null pointer behind them.
pub allocate_args-room :
    (string : Chars) (pointers : List (Option Block))
    → (allocate_args_from_string string).argv ≡ some pointers
    → ((allocate_args_from_string string).argc ≡ length pointers)
      × (length pointers + 1 ≤ room string)
unfolding allocate_args_from_string
allocate_args-room string pointers e =
    let size = length-map some (split [] string) in
    let most = length-split string [] in ground arith

-- Every character is a space.
abbrev pub IsBlank : Chars → Type 0
IsBlank [] = Unit {0}
IsBlank (c ∷ cs) = (c ≡ b' ') × IsBlank cs

spaces-le-length : (cs : Chars) → spaces cs ≤ length cs
unfolding spaces
spaces-le-length [] = omega arith
spaces-le-length (c ∷ cs) = ground (arith, spaces-le-length cs)

spaces-IsBlank : (cs : Chars) → spaces cs ≡ length cs → IsBlank cs
unfolding spaces
spaces-IsBlank [] e = tt
spaces-IsBlank (c ∷ cs) e =
    let few = spaces-le-length cs in
    let here : c ≡ b' ' = ground (arith, few, e) in
    (here, spaces-IsBlank cs (ground (arith, few, e)))

IsBlank-spaces : (cs : Chars) → IsBlank cs → spaces cs ≡ length cs
unfolding spaces
IsBlank-spaces [] h = refl
IsBlank-spaces (c ∷ cs) (here, h) = ground (arith, here, IsBlank-spaces cs h)

bad_free_count : (cs : Chars) → (open_args cs ≡ bad_free) ↔ (spaces cs ≡ length cs)
unfolding open_args
bad_free_count cs = ground arith

-- `open` frees a pointer that was never assigned exactly for the strings each character of which is a
-- space, the empty one among them.
pub open_args-bad_free_iff : (string : Chars) → (open_args string ≡ bad_free) ↔ IsBlank string
open_args-bad_free_iff string =
    let (counts, frees) = bad_free_count string in
    (λ e. spaces-IsBlank string (counts e), λ h. frees (IsBlank-spaces string h))

spaces-join : (w : Chars) (ws : List Chars) → IsWord w → spaces (join w ws) < length (join w ws)
spaces-join [] ws word = absurd (word.0 refl)
spaces-join (c ∷ w) [] word = omega (arith, word.1)
spaces-join (c ∷ w) (v ∷ vs) word = omega (
  arith,
  word.1,
  spaces-append (c ∷ w) (space ∷ join v vs),
  length-append {0} (c ∷ w) (space ∷ join v vs),
  spaces-le-length (space ∷ join v vs),
)

-- A string of words with one space between each two gives `argc` one more than the words, the null
-- pointer first, and then each word as a C string, in order.
pub allocate_args-join :
    (w : Chars) (ws : List Chars)
    → AreWords (w ∷ ws)
    → (blocks : List Block) × (allocate_args_from_string (join w ws)
        ≡ record { argc = length (w ∷ ws) + 1; argv = some (none ∷ map some blocks) })
      × (map c_string blocks ≡ map some (w ∷ ws))
allocate_args-join w ws words = (
  split [] (join w ws),
  unfold allocate_args_from_string in
      rw (assigned, count)
        (λ i. record {
          argc = length (w ∷ ws) + 1;
          argv = some (none ∷ map some (split [] (join w ws)));
        }),
  split-join w ws words,
)
  where
    count : length (map some (split [] (join w ws))) ≡ length (w ∷ ws)
    count =
        length-map some (split [] (join w ws))
        ∙ sym (length-map c_string (split [] (join w ws)))
        ∙ ap length (split-join w ws words)
        ∙ length-map some (w ∷ ws)

    assigned : (spaces (join w ws) + 1 == length (join w ws) + 1) ≡ false
    assigned = let less = spaces-join w ws words.0 in ground arith
