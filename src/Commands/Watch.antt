-- ===== src/Commands/Watch.antt =====
-- The check of the watched keys in src/commands/command_handler.cpp, against the abstract value.
use my_redis.Prelude.{◌<◌, ◌^◌, Option, none, some, Bool, length}
use my_redis.Prelude.Int.{ℤ, pos, negsuc, to_int}
use my_redis.Prelude.Text.{Text, text_eq}
use my_redis.Database.{Database}
use my_redis.Database.View.{Value, string, list, string_part}
use my_redis.Commands.Transactions.{text_differs, int_differs}

-- What LLEN answers: 0 for no value and -1 for a string.
abbrev pub size : Option Value → ℤ
size none = pos 0
size (some (list l)) = to_int (length l)
size (some (string s)) = negsuc 0

-- A change is seen where a string was replaced, or where the size of a list is another.
abbrev pub differs : Option Value → Option Value → Bool
differs (some (string old)) new = text_differs (string_part new) old
differs none new = int_differs (size new) (pos 0)
differs (some (list old)) new = int_differs (size new) (pos (length old))

abbrev pub ShortValue : Option Value → Type 0
ShortValue none = Unit {0}
ShortValue (some (string s)) = Unit {0}
ShortValue (some (list l)) = length l < 2 ^ 31
