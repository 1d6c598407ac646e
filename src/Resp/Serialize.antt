-- ===== src/Resp/Serialize.antt =====
-- RESP2 responses: the serializing half of src/resp/resp.cpp.
use my_redis.Prelude.{
  ℕ, zero, suc, Option, none, some, List, [], ◌∷◌, ◌++◌, Bool, false, ◌&&◌, ◌||◌, ltb, leb, ◌==◌,
  nat_eq, if◌then◌else◌, is_empty, drop, length,
}
use my_redis.Prelude.Int.{ℤ}
use my_redis.Prelude.Text.{Text, text_eq, codes, starts_with}
use my_redis.Number.{to_string, int_to_string, stoll, skip_space}
use my_redis.Parser.{unquoted}

abbrev pub crlf : Text
crlf = 13 ∷ 10 ∷ []

unfoldable pub simple_string : Text → Text
simple_string str = b'+' ∷ (str ++ crlf)

unfoldable pub error : Text → Text
error msg = b'-' ∷ (msg ++ crlf)

unfoldable pub integer : ℤ → Text
integer val = b':' ∷ (int_to_string val ++ crlf)

unfoldable pub bulk_string : Text → Text
bulk_string str = b'$' ∷ (to_string (length str) ++ (crlf ++ (str ++ crlf)))

abbrev pub null_bulk_string : Text
null_bulk_string = codes "$-1" ++ crlf

abbrev pub null_array : Text
null_array = codes "*-1" ++ crlf

abbrev pub empty_array : Text
empty_array = codes "*0" ++ crlf

unfoldable pub concat : List Text → Text
concat [] = []
concat (x ∷ xs) = x ++ concat xs

unfoldable pub array : List Text → Text
unfolding concat
array elements = b'*' ∷ (to_string (length elements) ++ (crlf ++ concat elements))

-- The lines that repeated `getline` yields: a newline at the end starts no further line.
unfoldable pub cons_line : ℕ → List Text → List Text
cons_line c [] = (c ∷ []) ∷ []
cons_line c (l ∷ ls) = (c ∷ l) ∷ ls

unfoldable pub lines : Text → List Text
unfolding cons_line
lines [] = []
lines (c ∷ s) = let rest = lines s in if c == 10 then [] ∷ rest else cons_line c rest

-- `s.substr(0, s.size() - 1)` and `s.back()` of a text that is not empty
unfoldable pub split_back : ℕ → Text → Text × ℕ
split_back c [] = ([], c)
split_back c (d ∷ s) = let (init, back) = split_back d s in (c ∷ init, back)

-- The inside of a text that begins and ends with a quote and has two characters at least.
unfoldable pub quoted_inner : Text → Option Text
unfolding split_back
quoted_inner [] = none
quoted_inner (c ∷ []) = none
quoted_inner (c ∷ d ∷ s) =
    let (inner, back) = split_back d s in if c == b'"' && back == b'"' then some inner else none

-- `line.substr(line.find(") ") + 2)`
unfoldable pub after_paren : Text → Option Text
after_paren [] = none
after_paren (c ∷ []) = none
after_paren (c ∷ d ∷ s) =
    let next = after_paren (d ∷ s) in if c == b')' && d == 32 then some s else next

unfoldable pub is_error : Text → Bool
is_error r =
    starts_with r (codes "ERR")
    || starts_with r (codes "WRONGTYPE ")
    || starts_with r (codes "NOAUTH ")

-- `response[0]` is '1' to '9' and `response[1]` is ')', in a text of three characters at least.
unfoldable pub is_array : Text → Bool
is_array (c ∷ d ∷ e ∷ s) = leb b'1' c && leb c b'9' && d == b')'
is_array _ = false

unfoldable pub is_push : Text → Bool
is_push r =
    starts_with r (codes "subscribe ")
    || starts_with r (codes "unsubscribe ")
    || starts_with r (codes "message ")

-- One line of a pub/sub confirmation, as a RESP array.
unfoldable pub push_line : Text → Text
unfolding skip_space unquoted array
push_line l =
    let (type, l1) = unquoted (skip_space l) in
    let (channel, l2) = unquoted (skip_space l1) in
    let third = skip_space l2 in
    let tail : Text = elim (stoll third) [
      | none ↦ bulk_string third
      | some count ↦ integer count
    ] in
    array (
      bulk_string type
      ∷ bulk_string channel
      ∷ (if type == codes "message" then bulk_string third else tail)
      ∷ [])

unfoldable pub push_lines : List Text → Text
unfolding push_line
push_lines [] = []
push_lines (l ∷ ls) = push_line l ++ push_lines ls

-- The status replies, and none for any other response.
unfoldable pub status_reply : Text → Option Text
unfolding simple_string
status_reply r =
    if is_empty r
    then some null_bulk_string
    else if r == codes "OK" || r == codes "PONG" || r == codes "QUEUED"
    then some (simple_string r)
    else if r == codes "(nil)"
    then some null_bulk_string
    else if r == codes "(empty list)"
    then some empty_array
    else none

-- An "(integer) N" whose N can be read.
unfoldable pub integer_reply : Text → Option ℤ
integer_reply r =
    if ltb 10 (length r) && starts_with r (codes "(integer) ") then stoll (drop 10 r) else none

-- What becomes of one line of an array response; `again` serializes what stands behind the ") ".
unfoldable pub array_element : (Text → Text) → Text → Text
unfolding quoted_inner after_paren bulk_string
array_element again line = elim (after_paren line) [
  | none ↦ bulk_string line
  | some content ↦ elim (quoted_inner content) [
    | some inner ↦ bulk_string inner
    | none ↦ again content
  ]
]

unfoldable pub array_elements : (Text → Text) → List Text → List Text
unfolding array_element
array_elements again [] = []
array_elements again (l ∷ ls) = array_element again l ∷ array_elements again ls

-- The cases after those of `status_reply`, in the order of the source.
unfoldable pub serialize_other : (Text → Text) → Text → Text
unfolding is_error integer_reply quoted_inner is_array lines array_elements is_push push_lines
serialize_other again r = if is_error r then error r else elim (integer_reply r) [
  | some val ↦ integer val
  | none ↦ elim (quoted_inner r) [
    | some inner ↦ bulk_string inner
    | none ↦
        if is_array r
        then array (array_elements again (lines r))
        else if is_push r
        then push_lines (lines r)
        else bulk_string r
  ]
]

unfoldable pub serialize_loop : ℕ → Text → Text
unfolding status_reply serialize_other
serialize_loop zero r = []
serialize_loop (suc fuel) r = elim (status_reply r) [
  | some reply ↦ reply
  | none ↦ serialize_other (serialize_loop fuel) r
]

-- The content of an array's line is shorter than the response, so its length is fuel enough.
unfoldable pub serialize_response : Text → Text
unfolding serialize_loop
serialize_response r = serialize_loop (suc (length r)) r
