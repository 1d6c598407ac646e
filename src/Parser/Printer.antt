-- ===== src/Parser/Printer.antt =====
-- The tokenizer of src/parser/parser.cpp on words that are written in double quotes.
use my_redis.Prelude.{
  arith, ℕ, zero, suc, ◌≤◌, ◌≡◌, ◌≢◌, List, [], ◌∷◌, ◌++◌, true, ◌||◌, ◌==◌, nat_eq, if◌then◌else◌,
  refl, ap, ◌∙◌, length, length-append, Bool-cases, inl, inr,
}
use mathlib.Core.List.{append_assoc}
use my_redis.Prelude.Text.{Text}
use my_redis.Number.{skip_space}
use my_redis.Parser.{double_quoted, escaped, next_token, tokenize_loop, tokenize, onto}

-- A quote, a backslash and a newline are escaped.
unfoldable pub escape : Text → Text
escape [] = []
escape (c ∷ s) =
    let rest = escape s in
    if c == b'"' || c == 92
    then 92 ∷ (c ∷ rest)
    else if c == 10
    then 92 ∷ (b'n' ∷ rest)
    else c ∷ rest

unfoldable pub print_word : Text → Text
unfolding escape
print_word word = b'"' ∷ (escape word ++ (b'"' ∷ []))

-- Each word behind a space.
unfoldable pub print_words : List Text → Text
unfolding print_word
print_words [] = []
print_words (w ∷ ws) = 32 ∷ (print_word w ++ print_words ws)

unfoldable pub print_line : Text → List Text → Text
unfolding print_word print_words
print_line name args = print_word name ++ print_words args

double_quoted-end : (rest : Text) → double_quoted (b'"' ∷ rest) ≡ ([], rest)
unfolding double_quoted
double_quoted-end [] = refl
double_quoted-end (c ∷ s) = refl

double_quoted-plain :
    (c : ℕ) (s back : Text)
    → c ≢ 34
    → c ≢ 92
    → double_quoted (c ∷ (s ++ (b'"' ∷ back)))
      ≡ onto (λ token. c ∷ token) (double_quoted (s ++ (b'"' ∷ back)))
unfolding double_quoted
double_quoted-plain c [] back h k = ground arith
double_quoted-plain c (d ∷ s) back h k = ground arith

abbrev prefixed : ℕ → Text × Text → Text × Text
prefixed c r = onto (λ token. c ∷ token) r

double_quoted-pair :
    (c : ℕ) (t : Text)
    → (c == b'"' || c == 92) ≡ true
    → double_quoted (92 ∷ (c ∷ t)) ≡ prefixed c (double_quoted t)
unfolding double_quoted escaped
double_quoted-pair c t h = elim (Bool-cases (c == b'"')) [
  | inl e ↦ rw e (ap (λ d. prefixed d (double_quoted t)) (ground arith))
  | inr e ↦
      let backslash : (c == 92) ≡ true = ground arith in
      rw (e, backslash) (ap (λ d. prefixed d (double_quoted t)) (ground arith))
]

double_quoted-newline : (t : Text) → double_quoted (92 ∷ (b'n' ∷ t)) ≡ prefixed 10 (double_quoted t)
unfolding double_quoted escaped
double_quoted-newline t = refl

double_quoted-escape : (s back : Text) → double_quoted (escape s ++ (b'"' ∷ back)) ≡ (s, back)
unfolding escape
double_quoted-escape [] back = double_quoted-end back
double_quoted-escape (c ∷ s) back = elim (Bool-cases (c == b'"' || c == 92)) [
  | inl e ↦ rw e (double_quoted-pair c _ e ∙ ap (λ r. prefixed c r) (double_quoted-escape s back))
  | inr e ↦
      elim (Bool-cases (c == 10))
        as (λ x. double_quoted (escape (c ∷ s) ++ (b'"' ∷ back)) ≡ (c ∷ s, back)) [
          | inl f ↦
              rw (e, f)
                (double_quoted-newline _
                  ∙ ap (λ r. prefixed 10 r) (double_quoted-escape s back)
                  ∙ ap (λ d. (d ∷ s, back)) (ground arith))
          | inr f ↦
              rw (e, f)
                (double_quoted-plain c (escape s) back (ground arith) (ground arith)
                  ∙ ap (λ r. prefixed c r) (double_quoted-escape s back))
        ]
]

next_token-print_word : (w back : Text) → next_token b'"' (escape w ++ (b'"' ∷ back)) ≡ (w, back)
unfolding next_token
next_token-print_word w back = double_quoted-escape w back

pub print_word-append : (w back : Text) → print_word w ++ back ≡ b'"' ∷ (escape w ++ (b'"' ∷ back))
unfolding print_word
print_word-append w back = ap (λ s. b'"' ∷ s) (append_assoc (escape w) (b'"' ∷ []) back)

tokenize_loop-word :
    (fuel : ℕ) (w back : Text)
    → tokenize_loop (suc fuel) (b'"' ∷ (escape w ++ (b'"' ∷ back))) ≡ w ∷ tokenize_loop fuel back
unfolding tokenize_loop skip_space
tokenize_loop-word fuel w back =
    ap (λ (r : Text × Text). r.0 ∷ tokenize_loop fuel r.1) (next_token-print_word w back)

tokenize_loop-space :
    (fuel : ℕ) (w back : Text)
    → tokenize_loop (suc fuel) (32 ∷ (b'"' ∷ (escape w ++ (b'"' ∷ back))))
      ≡ w ∷ tokenize_loop fuel back
unfolding tokenize_loop skip_space
tokenize_loop-space fuel w back =
    ap (λ (r : Text × Text). r.0 ∷ tokenize_loop fuel r.1) (next_token-print_word w back)

tokenize_loop-nil : (fuel : ℕ) → tokenize_loop fuel [] ≡ []
unfolding tokenize_loop skip_space
tokenize_loop-nil zero = refl
tokenize_loop-nil (suc fuel) = refl

tokenize_loop-print_words :
    (fuel : ℕ) (ws : List Text)
    → length (print_words ws) ≤ fuel
    → tokenize_loop fuel (print_words ws) ≡ ws
unfolding print_words
tokenize_loop-print_words fuel [] h = tokenize_loop-nil fuel
tokenize_loop-print_words zero (w ∷ ws) h = absurd (omega arith)
tokenize_loop-print_words (suc fuel) (w ∷ ws) h =
    ap (λ s. tokenize_loop (suc fuel) (32 ∷ s)) (print_word-append w (print_words ws))
    ∙ tokenize_loop-space fuel w (print_words ws)
    ∙ ap (λ rest. w ∷ rest)
        (tokenize_loop-print_words fuel ws
          (omega (arith, length-append (print_word w) (print_words ws))))

-- The tokenizer recovers any words, whatever characters they hold and empty ones included, from a
-- line that writes each in double quotes, with a space between two and their quotes, backslashes
-- and newlines escaped.
pub tokenize-print_line :
    (name : Text) (args : List Text) → tokenize (print_line name args) ≡ name ∷ args
unfolding tokenize print_line
tokenize-print_line name args =
    let behind = escape name ++ (b'"' ∷ print_words args) in
    ap tokenize (print_word-append name (print_words args))
    ∙ tokenize_loop-word (length behind) name (print_words args)
    ∙ ap (λ rest. name ∷ rest)
        (tokenize_loop-print_words (length behind) args
          (omega (arith, length-append (escape name) (b'"' ∷ print_words args))))
