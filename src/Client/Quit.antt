-- ===== src/Client/Quit.antt =====
-- When a line of the prompt of src/client/main.cpp quits or is skipped, told without the trimming
-- and the capital letters that the code makes of it.
use my_redis.Prelude.{
  arith, ℕ, ◌≡◌, Option, none, some, List, [], ◌∷◌, Bool, true, false, ◌&&◌, ◌||◌, ◌==◌, nat_eq,
  is_empty, if◌then◌else◌, refl, Bool-cases, inl, inr, ◌∙◌, ap, sym,
}
use my_redis.Prelude.Text.{Text, text_eq, text_beq, text_beq_iff, codes}
use my_redis.Number.{is_space, upper, to_upper}
use my_redis.Client.Session.{is_skipped, is_trimmed, trim_front?, trim_back?, or_whole, is_quit}

-- Space, tab, newline, vertical tab, form feed and carriage return
unfoldable pub is_white : Text → Bool
is_white [] = true
is_white (c ∷ s) = (c == 32 || c == 9 || c == 10 || c == 11 || c == 12 || c == 13) && is_white s

pub is_skipped_lem : (line : Text) → is_skipped line ≡ is_white line
unfolding is_skipped is_white is_space
is_skipped_lem [] = refl
is_skipped_lem (c ∷ s) = ground (arith, is_skipped_lem s)

abbrev is_blank : ℕ → Bool
is_blank c = c == 32 || c == 9

unfoldable pub all_blank : Text → Bool
all_blank [] = true
all_blank (c ∷ s) = (c == 32 || c == 9) && all_blank s

-- A word, each letter of which may be a capital or a small one, and only spaces and tabs behind it
unfoldable pub spells : List (ℕ × ℕ) → Text → Bool
unfolding all_blank
spells [] s = all_blank s
spells ((capital, small) ∷ word) [] = false
spells ((capital, small) ∷ word) (c ∷ s) = (c == capital || c == small) && spells word s

abbrev quit_letters : List (ℕ × ℕ)
quit_letters = (b'Q', b'q') ∷ (b'U', b'u') ∷ (b'I', b'i') ∷ (b'T', b't') ∷ []

-- Spaces and tabs, the letters of QUIT, and spaces and tabs
unfoldable pub quits : Text → Bool
unfolding spells
quits [] = false
quits (c ∷ s) =
    let rest = quits s in if c == 32 || c == 9 then rest else spells quit_letters (c ∷ s)

-- The same for a text of capital letters.
unfoldable fits : Text → Text → Bool
unfolding all_blank
fits [] s = all_blank s
fits (a ∷ word) [] = false
fits (a ∷ word) (c ∷ s) = c == a && fits word s

unfoldable quits_upper : Text → Bool
unfolding fits
quits_upper [] = false
quits_upper (c ∷ s) =
    let rest = quits_upper s in if is_blank c then rest else fits (codes "QUIT") (c ∷ s)

-- What the trimmed text is, by the text that is left.
unfoldable is_word : Text → Option Text → Bool
is_word w none = is_empty w
is_word w (some u) = u == w

abbrev put_front : ℕ → Option Text → Option Text
put_front c o = elim o [
  | some t ↦ some (c ∷ t)
  | none ↦ if is_trimmed c then none else some (c ∷ [])
]

abbrev NotEmpty : Option Text → Type 0
NotEmpty none = Unit {0}
NotEmpty (some u) = is_empty u ≡ false

put_front-NotEmpty : (c : ℕ) (o : Option Text) → NotEmpty (put_front c o)
unfolding is_trimmed
put_front-NotEmpty c none = elim (Bool-cases (is_blank c)) [ inl e ↦ rw e tt | inr e ↦ rw e refl ]
put_front-NotEmpty c (some u) = refl

is_word-nothing :
    (c : ℕ) (o : Option Text)
    → NotEmpty o
    → is_word [] (put_front c o) ≡ (is_blank c && is_word [] o)
unfolding is_trimmed is_word text_beq
is_word-nothing c none h = ground arith
is_word-nothing c (some []) h = ground (arith, h)
is_word-nothing c (some (x ∷ u)) h = ground arith

is_word-letter :
    (a c : ℕ) (w : Text) (o : Option Text)
    → is_blank a ≡ false
    → is_word (a ∷ w) (put_front c o) ≡ (c == a && is_word w o)
unfolding is_trimmed is_word text_beq
is_word-letter a c [] none h = ground (arith, h)
is_word-letter a c (b ∷ w) none h = ground (arith, h)
is_word-letter a c w (some u) h = ground arith

abbrev NoBlanks : Text → Type 0
NoBlanks [] = Unit {0}
NoBlanks (a ∷ w) = (is_blank a ≡ false) × NoBlanks w

trim_back-NotEmpty : (t : Text) → NotEmpty (trim_back? t)
unfolding trim_back?
trim_back-NotEmpty [] = tt
trim_back-NotEmpty (c ∷ s) = put_front-NotEmpty c (trim_back? s)

trim_back-fits : (w t : Text) → NoBlanks w → is_word w (trim_back? t) ≡ fits w t
unfolding trim_back? fits all_blank is_word
trim_back-fits [] [] h = refl
trim_back-fits (a ∷ w) [] h = refl
trim_back-fits [] (c ∷ s) h =
    is_word-nothing c (trim_back? s) (trim_back-NotEmpty s)
    ∙ ap (λ b. is_blank c && b) (trim_back-fits [] s h)
trim_back-fits (a ∷ w) (c ∷ s) (h, hs) =
    is_word-letter a c w (trim_back? s) h ∙ ap (λ b. c == a && b) (trim_back-fits w s hs)

quit_word : NoBlanks (codes "QUIT")
quit_word = (refl, (refl, (refl, (refl, tt))))

quit_word_kept : trim_back? (codes "QUIT") ≡ some (codes "QUIT")
unfolding trim_back? is_trimmed
quit_word_kept = refl

trimmed-is_word :
    (f : Text) (o : Option Text)
    → trim_back? f ≡ o
    → (or_whole o f == codes "QUIT") ≡ is_word (codes "QUIT") o
unfolding is_word
trimmed-is_word f (some u) e = refl
trimmed-is_word f none e = elim (Bool-cases (f == codes "QUIT")) [
  | inl q ↦
      absurd (lost (sym e ∙ ap trim_back? ((text_beq_iff f (codes "QUIT")).0 q) ∙ quit_word_kept))
  | inr q ↦ q
]
  where
    lost : ¬ (none ≡ some (codes "QUIT"))
    lost p = cc

trimmed-fits : (f : Text) → (or_whole (trim_back? f) f == codes "QUIT") ≡ fits (codes "QUIT") f
trimmed-fits f = trimmed-is_word f (trim_back? f) refl ∙ trim_back-fits (codes "QUIT") f quit_word

-- Without the spaces and tabs at the front, or another text that is not the word where there is
-- nothing else.
from_start-fits :
    (t other : Text)
    → fits (codes "QUIT") other ≡ false
    → fits (codes "QUIT") (or_whole (trim_front? t) other) ≡ quits_upper t
unfolding trim_front? quits_upper is_trimmed
from_start-fits [] other h = h
from_start-fits (c ∷ s) other h = elim (Bool-cases (is_blank c)) [
  | inl e ↦ rw e (from_start-fits s other h)
  | inr e ↦ rw e refl
]

whole-fits : (t : Text) → fits (codes "QUIT") (or_whole (trim_front? t) t) ≡ quits_upper t
unfolding trim_front? quits_upper is_trimmed fits
whole-fits [] = refl
whole-fits (c ∷ s) = elim (Bool-cases (is_blank c)) [
  | inl e ↦ rw e (from_start-fits s (c ∷ s) (no_letter c s e))
  | inr e ↦ rw e refl
]
  where
    no_letter : (c : ℕ) (s : Text) → is_blank c ≡ true → fits (codes "QUIT") (c ∷ s) ≡ false
    no_letter c s e = ground (arith, e)

is_blank-to_upper : (c : ℕ) → is_blank (to_upper c) ≡ is_blank c
unfolding to_upper
is_blank-to_upper c = ground arith

all_blank-upper : (s : Text) → all_blank (upper s) ≡ all_blank s
unfolding upper to_upper all_blank
all_blank-upper [] = refl
all_blank-upper (c ∷ s) = rw (is_blank-to_upper c, all_blank-upper s) refl

-- The capital letters of a word, each with its small one.
abbrev AllLetters : List (ℕ × ℕ) → Type 0
AllLetters [] = Unit {0}
AllLetters ((capital, small) ∷ word) =
    ((c : ℕ) → (to_upper c == capital) ≡ (c == capital || c == small)) × AllLetters word

capitals : List (ℕ × ℕ) → Text
capitals [] = []
capitals ((capital, small) ∷ word) = capital ∷ capitals word

fits-upper :
    (word : List (ℕ × ℕ)) (s : Text)
    → AllLetters word
    → fits (capitals word) (upper s) ≡ spells word s
unfolding fits spells upper capitals
fits-upper [] s h = all_blank-upper s
fits-upper ((capital, small) ∷ word) [] h = refl
fits-upper ((capital, small) ∷ word) (c ∷ s) (h, hs) = rw (h c, fits-upper word s hs)

letters : AllLetters quit_letters
unfolding to_upper
letters =
    ((λ c. ground arith), ((λ c. ground arith), ((λ c. ground arith), ((λ c. ground arith), tt))))

quits-upper : (s : Text) → quits_upper (upper s) ≡ quits s
unfolding quits quits_upper upper capitals
quits-upper [] = refl
quits-upper (c ∷ s) = elim (Bool-cases (is_blank c)) [
  | inl e ↦ rw (is_blank-to_upper c, e) (quits-upper s)
  | inr e ↦ rw (is_blank-to_upper c, e) (fits-upper quit_letters (c ∷ s) letters)
]

-- A line quits exactly if it is spaces and tabs, the letters of QUIT, each a capital or a small one,
-- and spaces and tabs.
pub is_quit_lem : (line : Text) → is_quit line ≡ quits line
unfolding is_quit
is_quit_lem line =
    trimmed-fits (or_whole (trim_front? (upper line)) (upper line))
    ∙ whole-fits (upper line)
    ∙ quits-upper line
