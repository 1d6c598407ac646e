-- ===== src/Resp.antt =====
-- RESP2 requests: include/resp/resp.h and the parsing half of src/resp/resp.cpp. Positions in the
-- buffer are those of the source.
pub mod Serialize
pub mod Frames
pub mod Bounds
pub mod RoundTrip
pub mod Inline
mod Tests
use my_redis.Prelude.{
  ℕ, zero, suc, ◌+◌, ◌-◌, ◌*◌, Option, none, some, List, [], ◌∷◌, ◌++◌, Bool, ◌&&◌, ◌||◌, ltb, leb,
  ◌==◌, nat_eq, if◌then◌else◌, get_elem?, take, drop, length,
}
use my_redis.Prelude.Int.{ℤ, pos, negsuc}
use my_redis.Prelude.Text.{Text}
use my_redis.Number.{stoi}
use my_redis.Parser.{Command, command_of}
use my_redis.Parser

-- The struct's flags: exactly one of them is set in each result. The number is `bytes_consumed`.
pub data RespParseResult : Type 0 where
  parsed : Command → ℕ → RespParseResult
  need_more : ℕ → RespParseResult
  protocol_error : ℕ → RespParseResult

-- `buffer.substr(pos, n)`
abbrev pub substr : Text → ℕ → ℕ → Text
substr buffer at n = take n (drop at buffer)

unfoldable pub crlf_from : Text → ℕ → Option ℕ
crlf_from [] i = none
crlf_from (c ∷ []) i = none
crlf_from (c ∷ d ∷ s) i =
    let next = crlf_from (d ∷ s) (i + 1) in if c == 13 && d == 10 then some i else next

unfoldable pub find_crlf : Text → ℕ → Option ℕ
unfolding crlf_from
find_crlf buffer start = crlf_from (drop start buffer) start

-- One round of the loop over the elements: the part that it pushes, and the next position.
pub data Element : Type 0 where
  part_at : Text → ℕ → Element
  incomplete : Element
  malformed : Element

-- The data of a bulk string that begins at `data_start`, and its trailing CRLF.
unfoldable pub bulk_data : Text → ℕ → ℕ → Element
bulk_data buffer data_start len =
    if ltb (length buffer) (data_start + len + 2)
    then incomplete
    else elim (get_elem? buffer (data_start + len)) [
      | none ↦ incomplete
      | some c ↦ elim (get_elem? buffer (data_start + len + 1)) [
        | none ↦ incomplete
        | some d ↦
            if c == 13 && d == 10
            then part_at (substr buffer data_start len) (data_start + len + 2)
            else malformed
      ]
    ]

unfoldable pub bulk_of_length : Text → ℕ → Option ℤ → Element
unfolding bulk_data
bulk_of_length buffer crlf none = malformed
bulk_of_length buffer crlf (some (negsuc n)) = part_at [] (crlf + 2)
bulk_of_length buffer crlf (some (pos len)) = bulk_data buffer (crlf + 2) len

unfoldable pub element_at : Text → ℕ → Element
unfolding find_crlf bulk_of_length
element_at buffer at = elim (get_elem? buffer at) [
  | none ↦ incomplete
  | some c ↦
      if c == b'$'
      then elim (find_crlf buffer at) [
        | none ↦ incomplete
        | some crlf ↦ bulk_of_length buffer crlf (stoi (substr buffer (at + 1) (crlf - at - 1)))
      ]
      else malformed
]

-- The count is positive, so `parts` is not empty where the command is built.
unfoldable pub parse_elements : ℕ → Text → ℕ → List Text → RespParseResult
unfolding element_at command_of
parse_elements zero buffer at parts = elim (command_of parts) [
  | none ↦ protocol_error 0
  | some cmd ↦ parsed cmd at
]
parse_elements (suc n) buffer at parts = elim (element_at buffer at) [
  | incomplete ↦ need_more 0
  | malformed ↦ protocol_error 0
  | part_at part next ↦ parse_elements n buffer next (parts ++ (part ∷ []))
]

unfoldable pub array_of_count : Text → ℕ → Option ℤ → RespParseResult
unfolding parse_elements
array_of_count buffer crlf none = protocol_error 0
array_of_count buffer crlf (some (negsuc n)) = protocol_error 0
array_of_count buffer crlf (some (pos zero)) = protocol_error 0
array_of_count buffer crlf (some (pos (suc n))) = parse_elements (suc n) buffer (crlf + 2) []

unfoldable pub parse_resp_array : Text → RespParseResult
unfolding find_crlf array_of_count
parse_resp_array buffer = elim (find_crlf buffer 0) [
  | none ↦ need_more 0
  | some crlf ↦ array_of_count buffer crlf (stoi (substr buffer 1 (crlf - 1)))
]

-- `buffer.find(byte)`
unfoldable pub find_byte : ℕ → Text → ℕ → Option ℕ
find_byte byte [] i = none
find_byte byte (c ∷ s) i = let next = find_byte byte s (i + 1) in if c == byte then some i else next

-- `line.substr(line.find_first_not_of(" \t\r"))`, and nothing where there is no such character.
unfoldable pub trim_start : Text → Text
trim_start [] = []
trim_start (c ∷ s) = let rest = trim_start s in if c == 32 || c == 9 || c == 13 then rest else c ∷ s

unfoldable pub inline_line : Text → ℕ → RespParseResult
inline_line [] consume = need_more consume
inline_line (c ∷ s) consume = elim (Parser.parse (c ∷ s)) [
  | none ↦ protocol_error consume
  | some cmd ↦ parsed cmd consume
]

abbrev pub max_inline : ℕ
max_inline = 64 * 1024

unfoldable pub parse_inline : Text → RespParseResult
unfolding find_crlf find_byte trim_start inline_line
parse_inline buffer = elim (find_crlf buffer 0) [
  | some crlf ↦ inline_line (trim_start (take crlf buffer)) (crlf + 2)
  | none ↦ elim (find_byte 10 buffer 0) [
    | some newline ↦ inline_line (trim_start (take newline buffer)) (newline + 1)
    | none ↦ if ltb max_inline (length buffer) then protocol_error 0 else need_more 0
  ]
]

unfoldable pub parse_command : Text → RespParseResult
unfolding parse_resp_array parse_inline
parse_command [] = need_more 0
parse_command (c ∷ s) = if c == b'*' then parse_resp_array (c ∷ s) else parse_inline (c ∷ s)
