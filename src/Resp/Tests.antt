-- ===== src/Resp/Tests.antt =====
-- Commands that are sent and parsed, and the theorems of this part at them.
use my_redis.Parser.Printer.{print_line}
use my_redis.Resp.Frames.{no_cr, no_cr-OneLine}
use my_redis.Resp.Inline.{parse_command-print_line}
use my_redis.Prelude.{◌≡◌, List, [], ◌∷◌, ◌++◌, ◌+◌, refl, arith, length}
use my_redis.Prelude.Text.{Text, codes}
use my_redis.Number.{upper}
use my_redis.Resp.{parsed, parse_command}
use my_redis.Resp.Bounds.{IsWithin, parse_command-IsWithin}
use my_redis.Resp.RoundTrip.{request, parse_command-request}

abbrev words : List Text
words = codes "v" ∷ codes "" ∷ []

parse_command-request_example :
    parse_command (request (codes "set" ∷ words) ++ codes "*1")
    ≡ parsed
        (record { name = upper (codes "set"); args = words })
        (length (request (codes "set" ∷ words)))
parse_command-request_example =
    parse_command-request (codes "set") words (codes "*1") (omega arith)
      (omega arith, (omega arith, (omega arith, tt)))

parse_command-IsWithin_example :
    IsWithin (length (codes "PING\r\n")) (parse_command (codes "PING\r\n"))
parse_command-IsWithin_example = parse_command-IsWithin (codes "PING\r\n")

-- SET "a b" "say \"hi\""
parse_command-print_line_example :
    parse_command
      (print_line (codes "set") (codes "a b" ∷ codes "say \"hi\"" ∷ []) ++ (13 ∷ 10 ∷ codes "PING"))
    ≡ parsed
        (record { name = upper (codes "set"); args = codes "a b" ∷ codes "say \"hi\"" ∷ [] })
        (length (print_line (codes "set") (codes "a b" ∷ codes "say \"hi\"" ∷ [])) + 2)
unfolding no_cr
parse_command-print_line_example =
    parse_command-print_line (codes "set") (codes "a b" ∷ codes "say \"hi\"" ∷ []) (codes "PING")
      (no_cr-OneLine (codes "set") refl)
      (no_cr-OneLine (codes "a b") refl, (no_cr-OneLine (codes "say \"hi\"") refl, tt))
