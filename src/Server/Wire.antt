-- ===== src/Server/Wire.antt =====
-- The two forms in which src/networking/server.cpp receives a command: an array of bulk strings, and
-- a line of words in double quotes.
use my_redis.Prelude.{
  arith, suc, ◌^◌, ◌≤◌, ◌<◌, ◌≡◌, List, [], ◌∷◌, ◌++◌, All, length, length-append, ◌∙◌, ap, sym,
}
use mathlib.Core.List.{append_assoc}
use my_redis.Prelude.Text.{Text}
use my_redis.Number.{upper}
use my_redis.Parser.Printer.{print_line}
use my_redis.Resp.{parsed, parse_command}
use my_redis.Resp.Frames.{OneLine}
use my_redis.Resp.Inline.{parse_command-print_line}
use my_redis.Resp.RoundTrip.{request, Fits, parse_command-request}
use my_redis.Resp.Serialize.{array}

pub data Form : Type 0 where
  as_array as_line : Form

abbrev pub written : Form → Text → List Text → Text
written as_array name args = request (name ∷ args)
written as_line name args = print_line name args ++ (13 ∷ 10 ∷ [])

-- The words of an array fit an int; those of a line hold no carriage return.
abbrev pub IsWritable : Form → Text → List Text → Type 0
IsWritable as_array name args = (length (name ∷ args) < 2 ^ 31) × All Fits (name ∷ args)
IsWritable as_line name args = OneLine name × All OneLine args

pub parse_command-written :
    (form : Form) (name : Text) (args : List Text) (back : Text)
    → IsWritable form name args
    → parse_command (written form name args ++ back)
      ≡ parsed (record { name = upper name; args = args }) (length (written form name args))
parse_command-written as_array name args back (few, fits) =
    parse_command-request name args back few fits
parse_command-written as_line name args back (plain, all) =
    ap parse_command (append_assoc (print_line name args) (13 ∷ 10 ∷ []) back)
    ∙ parse_command-print_line name args back plain all
    ∙ ap (λ n. parsed (record { name = upper name; args = args }) n)
        (sym (length-append (print_line name args) (13 ∷ 10 ∷ [])))

pub length-written :
    (form : Form) (name : Text) (args : List Text) (back : Text)
    → suc (length back) ≤ length (written form name args ++ back)
unfolding array
length-written as_array name args back = omega (arith, length-append (request (name ∷ args)) back)
length-written as_line name args back = omega (
  arith,
  length-append (print_line name args ++ (13 ∷ 10 ∷ [])) back,
  length-append (print_line name args) (13 ∷ 10 ∷ []),
)
