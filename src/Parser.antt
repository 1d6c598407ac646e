-- ===== src/Parser.antt =====
-- The command line parser: include/parser/parser.h and src/parser/parser.cpp. A position in the
-- input is the text that is left from there.
pub mod Printer
use my_redis.Prelude.{
  ℕ, zero, suc, Option, none, some, List, [], ◌∷◌, ◌==◌, nat_eq, if◌then◌else◌, length,
}
use my_redis.Prelude.Text.{Text}
use my_redis.Number.{is_space, skip_space, upper}

pub record Command : Type 0 where
  pub name : Text
  pub args : List Text

-- `none` is `ParseResult::failure("ERR empty command")`, the one error of the parser.
abbrev pub ParseResult : Type 0
ParseResult = Option Command

-- What an escape `\c` adds to the token.
unfoldable pub escaped : ℕ → Text → Text
escaped c token =
    if c == b'"'
    then b'"' ∷ token
    else if c == 92
    then 92 ∷ token
    else if c == b'n'
    then 10 ∷ token
    else if c == b't'
    then 9 ∷ token
    else 92 ∷ (c ∷ token)

abbrev onto : (Text → Text) → Text × Text → Text × Text
onto f (token, rest) = (f token, rest)

-- From behind an opening `"`: the token, and the text behind the closing quote or the end.
unfoldable pub double_quoted : Text → Text × Text
unfolding escaped
double_quoted [] = ([], [])
double_quoted (c ∷ []) = if c == b'"' then ([], []) else (c ∷ [], [])
double_quoted (c ∷ d ∷ s) =
    let after_escape = double_quoted s in
    let next = double_quoted (d ∷ s) in
    if c == b'"'
    then ([], d ∷ s)
    else if c == 92
    then onto (escaped d) after_escape
    else onto (λ token. c ∷ token) next

unfoldable pub single_quoted : Text → Text × Text
single_quoted [] = ([], [])
single_quoted (c ∷ s) =
    let next = single_quoted s in if c == 39 then ([], s) else onto (λ token. c ∷ token) next

unfoldable pub unquoted : Text → Text × Text
unfolding is_space
unquoted [] = ([], [])
unquoted (c ∷ s) =
    let next = unquoted s in if is_space c then ([], c ∷ s) else onto (λ token. c ∷ token) next

-- One token, at a character that is no space.
unfoldable pub next_token : ℕ → Text → Text × Text
unfolding double_quoted single_quoted unquoted
next_token c s =
    if c == b'"' then double_quoted s else if c == 39 then single_quoted s else unquoted (c ∷ s)

-- The outer loop; each round takes a character at least, so the length of the input is fuel enough.
unfoldable pub tokenize_loop : ℕ → Text → List Text
unfolding skip_space next_token
tokenize_loop zero input = []
tokenize_loop (suc fuel) input = elim (skip_space input) [
  | [] ↦ []
  | c ∷ s ↦ let (token, rest) = next_token c s in token ∷ tokenize_loop fuel rest
]

unfoldable pub tokenize : Text → List Text
unfolding tokenize_loop
tokenize input = tokenize_loop (length input) input

unfoldable pub command_of : List Text → ParseResult
unfolding upper
command_of [] = none
command_of (name ∷ args) = some (record { name = upper name; args = args })

unfoldable pub parse : Text → ParseResult
unfolding tokenize command_of
parse input = command_of (tokenize input)
