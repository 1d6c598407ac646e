-- ===== src/Commands/Reply.antt =====
-- The texts of the replies in src/commands/command_handler.cpp.
use Prim.Native.String.{String}
use my_redis.Prelude.{ℕ, ◌+◌, Option, none, some, List, [], ◌∷◌, ◌++◌, Bool, if◌then◌else◌}
use my_redis.Prelude.Int.{ℤ}
use my_redis.Prelude.Text.{Text, codes}
use my_redis.Number.{to_string, int_to_string}

abbrev pub wrong_type_err : Text
wrong_type_err = codes "WRONGTYPE Operation against a key holding the wrong kind of value"

abbrev pub wrong_number : String → Text
wrong_number command =
    codes "ERR wrong number of arguments for '" ++ (codes command ++ codes "' command")

abbrev pub not_an_integer : Text
not_an_integer = codes "ERR value is not an integer or out of range"

unfoldable pub integer_reply : ℤ → Text
integer_reply n = codes "(integer) " ++ int_to_string n

unfoldable pub bool_reply : Bool → Text
bool_reply result = codes "(integer) " ++ (if result then codes "1" else codes "0")

unfoldable pub quoted : Text → Text
quoted val = b'"' ∷ (val ++ (b'"' ∷ []))

unfoldable pub optional_reply : Option Text → Text
unfolding quoted
optional_reply none = codes "(nil)"
optional_reply (some val) = quoted val

-- `(i + 1) << ") " << item` for each item, from the i-th on, with a newline between two of them.
unfoldable pub numbered_from : ℕ → List Text → Text
numbered_from i [] = []
numbered_from i (x ∷ []) = to_string (i + 1) ++ (codes ") " ++ x)
numbered_from i (x ∷ y ∷ rest) =
    to_string (i + 1) ++ (codes ") " ++ (x ++ (10 ∷ numbered_from (i + 1) (y ∷ rest))))

unfoldable pub quote_all : List Text → List Text
unfolding quoted
quote_all [] = []
quote_all (x ∷ xs) = quoted x ∷ quote_all xs

unfoldable pub numbered : List Text → Text
unfolding quote_all numbered_from
numbered [] = codes "(empty list)"
numbered (x ∷ xs) = numbered_from 0 (quote_all (x ∷ xs))

-- The confirmations of SUBSCRIBE and UNSUBSCRIBE, one line for each channel.
unfoldable pub confirmations : Text → List (Text × ℤ) → Text
confirmations verb [] = []
confirmations verb ((channel, count) ∷ []) = verb ++ (32 ∷ (channel ++ (32 ∷ int_to_string count)))
confirmations verb ((channel, count) ∷ second ∷ rest) =
    verb
    ++ (32 ∷ (channel ++ (32 ∷ (int_to_string count ++ (10 ∷ confirmations verb (second ∷ rest))))))
