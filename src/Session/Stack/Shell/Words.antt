-- ===== src/Session/Stack/Shell/Words.antt =====
-- How a POSIX shell reads the words that `shQuote` writes.
use interviews.Base.{
  ℕ, ◌≡◌, ap, Bool, [], ◌∷◌, ◌++◌, Option, none, some, Str, codes, ◌=?◌, is_space, if◌then◌else◌,
  any, Bool-cases, sym, inl, inr, =?_iff,
}
use interviews.Session.Stack.Shell.{quote_chars, sh_quote}

abbrev add_char : ℕ → Option (Str × Str) → Option (Str × Str)
add_char c none = none
add_char c (some (w, rest)) = some (c ∷ w, rest)

-- the other characters that the shell reads by rules of their own
abbrev is_special : ℕ → Bool
is_special c = any (λ d. c =? d) (codes "|&;<>()$`\"*?[#~=%{")

pub data Quoting : Type 0 where
  plain single escaped : Quoting

-- The word at the front of a shell's line and the text behind it, as POSIX has them: between single quotes each
-- character stands for itself, behind a backslash so does the next one, and a blank ends the word. What needs
-- the other rules of the shell has no word here.
unfoldable pub read_word : Quoting → Str → Option (Str × Str)
read_word plain [] = some ([], [])
read_word single [] = none
read_word escaped [] = none
read_word plain (c ∷ s) =
    let rest = read_word plain s in
    let inside = read_word single s in
    let behind = read_word escaped s in
    if c =? 39
    then inside
    else if c =? 92
    then behind
    else if is_space c
    then some ([], c ∷ s)
    else if is_special c
    then none
    else add_char c rest
read_word single (c ∷ s) =
    let rest = read_word single s in
    let outside = read_word plain s in if c =? 39 then outside else add_char c rest
read_word escaped (c ∷ s) = add_char c (read_word plain s)

read_single :
    (s r : Str)
    → read_word plain r ≡ some ([], r)
    → read_word single (quote_chars s ++ codes "'" ++ r) ≡ some (s, r)
unfolding read_word quote_chars
read_single [] r h = h
read_single (c ∷ s) r h =
    let ih = read_single s r h in
    elim (Bool-cases (c =? 39)) [
      | inl e ↦ rw e (rw ih (ap (λ d. some (d ∷ s, r)) (sym ((=?_iff c 39).0 e))))
      | inr e ↦ rw e (rw e (rw ih))
    ]

-- A shell reads the text that `shQuote` makes as one word, the text itself, whatever is in it, when what stands
-- behind begins no more of a word.
pub read_word-sh_quote :
    (s r : Str) → read_word plain r ≡ some ([], r) → read_word plain (sh_quote s ++ r) ≡ some (s, r)
unfolding read_word sh_quote
read_word-sh_quote s r h = read_single s r h
