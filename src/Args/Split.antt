-- ===== src/Args/Split.antt =====
-- The cut of a string at its spaces, and how many arguments there can be.
use mathlib.Core.List.{append_assoc, append-nil}
use mathlib.Core.Path.{ap₂}
use rtl_ais_android.Base.{
  ℕ, ◌+◌, ◌≤◌, ◌≡◌, ◌≢◌, refl, arith, ◌==◌, false, List, [], ◌∷◌, ◌++◌, map, length, length-append,
  some, ap, ◌∙◌,
}
use rtl_ais_android.Args.{Chars, space, strcpytrimmed, spaces, split, c_string}
use rtl_ais_android.Args.Trim.{NoNul, strcpytrimmed-exact}

-- A word: at least one character, and no space or terminator among them.
abbrev pub IsWord : Chars → Type 0
IsWord w = (w ≢ []) × (spaces w ≡ 0) × NoNul w

abbrev pub AreWords : List Chars → Type 0
AreWords [] = Unit {0}
AreWords (w ∷ ws) = IsWord w × AreWords ws

-- The words with one space between each two.
abbrev pub join : Chars → List Chars → Chars
join w [] = w
join w (v ∷ vs) = w ++ (space ∷ join v vs)

cons-ne_nil : (c : ℕ) (w : Chars) → (c ∷ w) ≢ []
cons-ne_nil c w e = cc

split-cut :
    (current : Chars) (d : ℕ) (rest : Chars)
    → (d == space) ≡ false
    → split current (space ∷ (d ∷ rest))
      ≡ strcpytrimmed (current ++ (space ∷ [])) (length (current ++ (space ∷ [])))
        ∷ split [] (d ∷ rest)
unfolding split
split-cut current d rest next = rw (next, split)

split-on :
    (current : Chars) (c d : ℕ) (rest : Chars)
    → (c == space) ≡ false
    → split current (c ∷ (d ∷ rest)) ≡ split (current ++ (c ∷ [])) (d ∷ rest)
unfolding split
split-on current c d rest other = rw (other, split)

spaces-cons : (c : ℕ) (w : Chars) → spaces (c ∷ w) ≡ 0 → ((c == space) ≡ false) × (spaces w ≡ 0)
unfolding spaces
spaces-cons c w h = ground arith

length-snoc : (xs : Chars) (c : ℕ) → length (xs ++ (c ∷ [])) ≡ length xs + 1
length-snoc xs c = length-append xs (c ∷ [])

-- A word that a space and another word follow.
split-word :
    (w current : Chars) (d : ℕ) (rest : Chars)
    → spaces w ≡ 0
    → (d == space) ≡ false
    → split current (w ++ (space ∷ (d ∷ rest)))
      ≡ strcpytrimmed ((current ++ w) ++ (space ∷ [])) (length (current ++ w) + 1)
        ∷ split [] (d ∷ rest)
split-word [] current d rest bare next =
    split-cut current d rest next ∙ rw (append-nil, length-snoc current space)
split-word (c ∷ []) current d rest bare next =
    split-on current c space (d ∷ rest) (spaces-cons c [] bare).0
    ∙ split-cut (current ++ (c ∷ [])) d rest next
    ∙ rw (length-snoc (current ++ (c ∷ [])) space)
split-word (c ∷ (c' ∷ w)) current d rest bare next =
    split-on current c c' _ (spaces-cons c (c' ∷ w) bare).0
    ∙ split-word (c' ∷ w) (current ++ (c ∷ [])) d rest (spaces-cons c (c' ∷ w) bare).1 next
    ∙ simp append_assoc

split-last :
    (w current : Chars)
    → w ≢ []
    → spaces w ≡ 0
    → split current w ≡ strcpytrimmed (current ++ w) (length (current ++ w) + 1) ∷ []
split-last [] current some_text bare = absurd (some_text refl)
split-last (c ∷ []) current some_text bare = unfold split in refl
split-last (c ∷ (d ∷ w)) current some_text bare =
    split-on current c d w (spaces-cons c (d ∷ w) bare).0
    ∙ split-last (d ∷ w) (current ++ (c ∷ [])) (cons-ne_nil d w) (spaces-cons c (d ∷ w) bare).1
    ∙ simp append_assoc

copy_word :
    (w rest : Chars) → IsWord w → c_string (strcpytrimmed (w ++ rest) (length w + 1)) ≡ some w
copy_word w rest word = strcpytrimmed-exact w rest word.1 word.2

join-cons : (d : ℕ) (v : Chars) (vs : List Chars) → (t : Chars) × (join (d ∷ v) vs ≡ d ∷ t)
join-cons d v [] = (v, refl)
join-cons d v (u ∷ us) = (v ++ (space ∷ join u us), refl)

-- Of words with one space between each two, `split` makes one block for each word, in order, and
-- each is the C string of its word.
pub split-join :
    (w : Chars) (ws : List Chars)
    → AreWords (w ∷ ws)
    → map c_string (split [] (join w ws)) ≡ map some (w ∷ ws)
split-join w [] words =
    let (word, rest) = words in
    let copy = copy_word w [] word in
    let bare : w ++ [] ≡ w = append-nil w in
    rw (split-last w [] word.0 word.1) (ap (λ o. o ∷ []) (rw bare at copy))
split-join w ([] ∷ vs) words = absurd (words.1.0.0 refl)
split-join w ((d ∷ v) ∷ vs) words =
    let (t, e) = join-cons d v vs in
    let rest = split-join (d ∷ v) vs words.1 in
    let next = (spaces-cons d v words.1.0.1).0 in
    rw (e, split-word w [] d t words.0.1 next)
      (ap₂ ◌∷◌ (copy_word w (space ∷ []) words.0) (rw e at rest))

pub length-split : (cs current : Chars) → length (split current cs) ≤ spaces cs + 1
unfolding split spaces
length-split [] current = omega arith
length-split (c ∷ []) current = omega arith
length-split (c ∷ (d ∷ rest)) current =
    ground (arith, length-split (d ∷ rest) [], length-split (d ∷ rest) (current ++ (c ∷ [])))
