-- ===== src/Client.antt =====
-- The client's reading of responses: src/networking/client.cpp. The text is what the client shows.
pub mod Bulk
pub mod Lines
pub mod Replies
pub mod Session
pub mod Exchange
pub mod Quit
pub mod Prompt
mod Tests
use my_redis.Prelude.{
  ℕ, zero, suc, ◌+◌, ◌-◌, Option, none, some, List, [], ◌∷◌, ◌++◌, Bool, true, false, ltb, ◌==◌,
  nat_eq, is_empty, if◌then◌else◌, take, drop, length,
}
use my_redis.Prelude.Int.{ℤ, pos, negsuc}
use my_redis.Prelude.Text.{Text, text_eq, codes}
use my_redis.Number.{stoi}
use my_redis.Resp.{crlf_from, substr}
use my_redis.Commands.Reply.{quoted, numbered_from}
use my_redis.Socket.{SocketWrite, write_exact}

-- The value to show and the bytes consumed; `none` is a value that is not complete.
abbrev pub Shown : Type 0
Shown = Option (Text × ℕ)

-- `find_crlf(read_buffer_, 0)`, the file's own copy
unfoldable pub find_crlf : Text → Option ℕ
find_crlf buffer = crlf_from buffer 0

unfoldable pub bulk_value : Text → ℕ → Option ℤ → Shown
bulk_value buffer crlf none = some (codes "(error) invalid bulk string length", crlf + 2)
bulk_value buffer crlf (some (negsuc n)) = some (codes "(nil)", crlf + 2)
bulk_value buffer crlf (some (pos len)) =
    let data_start = crlf + 2 in
    if ltb (length buffer) (data_start + len + 2)
    then none
    else some (quoted (substr buffer data_start len), data_start + len + 2)

-- The loop over the elements of an array, from `at` on: the texts and the end of the last one.
unfoldable pub parse_items : (Text → Shown) → ℕ → Text → ℕ → Option (List Text × ℕ)
parse_items parse zero saved at = some ([], at)
parse_items parse (suc n) saved at = elim (parse (drop at saved)) [
  | none ↦ none
  | some (elem, sub_consumed) ↦ elim (parse_items parse n saved (at + sub_consumed)) [
    | none ↦ none
    | some (elems, end) ↦ some (elem ∷ elems, end)
  ]
]

unfoldable pub array_value : (Text → Shown) → Text → ℕ → Option ℤ → Shown
unfolding parse_items numbered_from
array_value parse buffer crlf none = some (codes "(error) invalid array count", crlf + 2)
array_value parse buffer crlf (some (negsuc n)) = some (codes "(nil)", crlf + 2)
array_value parse buffer crlf (some (pos zero)) = some (codes "(empty array)", crlf + 2)
array_value parse buffer crlf (some (pos (suc n))) =
    elim (parse_items parse (suc n) buffer (crlf + 2)) [
      | none ↦ none
      | some (elems, end) ↦ some (numbered_from 0 elems, end)
    ]

-- The switch on the type byte, with the line up to its CRLF found.
unfoldable pub typed_value : (Text → Shown) → ℕ → Text → ℕ → Shown
unfolding bulk_value array_value
typed_value parse type buffer crlf =
    let line = substr buffer 1 (crlf - 1) in
    if type == b'+'
    then some (line, crlf + 2)
    else if type == b'-'
    then some (line, crlf + 2)
    else if type == b':'
    then some (codes "(integer) " ++ line, crlf + 2)
    else if type == b'$'
    then bulk_value buffer crlf (stoi line)
    else if type == b'*'
    then array_value parse buffer crlf (stoi line)
    else some (take crlf buffer, crlf + 2)

-- `parse_resp_value` on nested arrays recurs; an element is shorter than its array, so the length
-- of the buffer is fuel enough.
unfoldable pub parse_value : ℕ → Text → Shown
unfolding find_crlf typed_value
parse_value zero buffer = none
parse_value (suc fuel) [] = none
parse_value (suc fuel) (type ∷ s) = elim (find_crlf (type ∷ s)) [
  | none ↦ none
  | some crlf ↦ typed_value (parse_value fuel) type (type ∷ s) crlf
]

unfoldable pub parse_resp_value : Text → Shown
unfolding parse_value
parse_resp_value buffer = parse_value (suc (length buffer)) buffer

-- `read_resp_response` with the buffer in hand: what can be shown, and the buffer behind it.
abbrev pub in_hand : Text → Shown → Option (Text × Text) → Option (Text × Text)
in_hand buffer (some (result, consumed)) more = some (result, drop consumed buffer)
in_hand buffer none more = more

-- The loop over what the reads of the socket yield, until one of them yields nothing.
unfoldable pub read_resp_response : List Text → Text → Option (Text × Text)
unfolding parse_resp_value
read_resp_response [] buffer = in_hand buffer (parse_resp_value buffer) none
read_resp_response (bytes ∷ reads) buffer =
    let more = read_resp_response reads (buffer ++ bytes) in
    in_hand buffer (parse_resp_value buffer) (if is_empty bytes then none else more)

-- The command goes out as an inline command; a failure disconnects and clears the buffer.
unfoldable pub send_command : SocketWrite → List Text → Text → Text → Text × Bool × Text
unfolding read_resp_response
send_command socket_write reads command buffer =
    let (written, taken) = write_exact socket_write (command ++ (13 ∷ 10 ∷ [])) in
    if written
    then elim (read_resp_response reads buffer) [
      | none ↦ (codes "Error: Failed to read response", false, [])
      | some (response, buffer') ↦ (response, true, buffer')
    ]
    else (codes "Error: Failed to send command", false, [])
