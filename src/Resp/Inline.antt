-- ===== src/Resp/Inline.antt =====
-- Inline commands of `Resp::parse_command` in src/resp/resp.cpp, with the words in double quotes.
use my_redis.Prelude.{
  arith, ◌+◌, ◌≡◌, some, List, [], ◌∷◌, ◌++◌, nat_eq, refl, ap, sym, subst, ◌∙◌, take-length_append,
  length, All,
}
use my_redis.Prelude.Text.{Text}
use my_redis.Number.{upper}
use my_redis.Parser
use my_redis.Parser.{Command, command_of}
use my_redis.Parser.Printer.{
  escape, print_word, print_words, print_line, print_word-append, tokenize-print_line,
}
use my_redis.Resp.{parsed, find_crlf, trim_start, inline_line, parse_inline, parse_command}
use my_redis.Resp.Frames.{OneLine, OneLine-append, crlf_from-append}

escape-OneLine : (s : Text) → OneLine s → OneLine (escape s)
unfolding escape
escape-OneLine [] h = tt
escape-OneLine (c ∷ s) (h, hs) = ground (arith, escape-OneLine s hs)

print_word-OneLine : (w : Text) → OneLine w → OneLine (print_word w)
unfolding print_word
print_word-OneLine w h =
    (omega arith, OneLine-append (escape w) (b'"' ∷ []) (escape-OneLine w h) (omega arith, tt))

print_words-OneLine : (ws : List Text) → All OneLine ws → OneLine (print_words ws)
unfolding print_words
print_words-OneLine [] h = tt
print_words-OneLine (w ∷ ws) (h, hs) = (
  omega arith,
  OneLine-append (print_word w) (print_words ws) (print_word-OneLine w h)
      (print_words-OneLine ws hs),
)

parse_inline-line :
    (line back : Text)
    → OneLine line
    → parse_inline (line ++ (13 ∷ 10 ∷ back)) ≡ inline_line (trim_start line) (length line + 2)
unfolding parse_inline find_crlf
parse_inline-line line back h =
    let from_start : 0 + length line ≡ length line = omega arith in
    rw
      (
        parse_inline,
        crlf_from-append line back 0 h,
        from_start,
        take-length_append line (13 ∷ 10 ∷ back),
      )
      refl

-- A line that begins with a quote is not trimmed, and no array.
quoted_line :
    (tail back : Text) (cmd : Command)
    → OneLine (b'"' ∷ tail)
    → Parser.parse (b'"' ∷ tail) ≡ some cmd
    → parse_command ((b'"' ∷ tail) ++ (13 ∷ 10 ∷ back)) ≡ parsed cmd (length (b'"' ∷ tail) + 2)
unfolding parse_command trim_start inline_line
quoted_line tail back cmd h e = parse_inline-line (b'"' ∷ tail) back h ∙ rw (inline_line, e) refl

parse-print_line :
    (name : Text) (args : List Text)
    → Parser.parse (print_line name args) ≡ some (record { name = upper name; args = args })
unfolding Parser.parse command_of
parse-print_line name args = ap command_of (tokenize-print_line name args)

print_line-OneLine :
    (name : Text) (args : List Text)
    → OneLine name
    → All OneLine args
    → OneLine (print_line name args)
unfolding print_line
print_line-OneLine name args h hs =
    OneLine-append (print_word name) (print_words args) (print_word-OneLine name h)
      (print_words-OneLine args hs)

print_line-quoted :
    (name : Text) (args : List Text)
    → print_line name args ≡ b'"' ∷ (escape name ++ (b'"' ∷ print_words args))
unfolding print_line
print_line-quoted name args = print_word-append name (print_words args)

-- An inline command whose words are written in double quotes, with their quotes, backslashes and
-- newlines escaped, is parsed to its name in upper case and its arguments, whatever follows its CRLF,
-- and exactly its own bytes are consumed, where no word holds a carriage return.
pub parse_command-print_line :
    (name : Text) (args : List Text) (back : Text)
    → OneLine name
    → All OneLine args
    → parse_command (print_line name args ++ (13 ∷ 10 ∷ back))
      ≡ parsed (record { name = upper name; args = args }) (length (print_line name args) + 2)
parse_command-print_line name args back h hs =
    let cmd : Command = record { name = upper name; args = args } in
    subst
      (λ line.
        OneLine line
        → Parser.parse line ≡ some cmd
        → parse_command (line ++ (13 ∷ 10 ∷ back)) ≡ parsed cmd (length line + 2))
      (sym (print_line-quoted name args))
      (λ h e. quoted_line (escape name ++ (b'"' ∷ print_words args)) back cmd h e)
      (print_line-OneLine name args h hs) (parse-print_line name args)
