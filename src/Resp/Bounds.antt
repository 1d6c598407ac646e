-- ===== src/Resp/Bounds.antt =====
-- How much of the buffer a parse consumes.
use my_redis.Prelude.{
  ℕ, zero, suc, ◌+◌, ◌-◌, ◌≤◌, ◌<◌, ◌≡◌, Option, none, some, List, [], ◌∷◌, ◌++◌, ltb, ◌==◌, nat_eq,
  arith, refl, get_elem?, take, drop, length, Option-cases, Bool-cases, inl, inr,
}
use my_redis.Prelude.Int.{ℤ, pos, negsuc}
use my_redis.Prelude.Text.{Text}
use my_redis.Number.{stoi}
use my_redis.Parser
use my_redis.Parser.{Command, command_of}
use my_redis.Resp.{
  RespParseResult, parsed, need_more, protocol_error, Element, part_at, incomplete, malformed,
  substr, crlf_from, find_crlf, find_byte, bulk_data, bulk_of_length, element_at, parse_elements,
  array_of_count, parse_resp_array, trim_start, inline_line, parse_inline, parse_command,
  max_inline,
}

pub length-drop : (n : ℕ) (xs : Text) → length (drop n xs) ≡ length xs - n
length-drop zero xs = omega arith
length-drop (suc n) [] = omega arith
length-drop (suc n) (x ∷ xs) = omega (arith, length-drop n xs)

crlf_from_bounds : (s : Text) (i j : ℕ) → crlf_from s i ≡ some j → (i ≤ j) × (j + 2 ≤ i + length s)
unfolding crlf_from
crlf_from_bounds [] i j e = cc
crlf_from_bounds (c ∷ []) i j e = cc
crlf_from_bounds (c ∷ d ∷ s) i j e = ground (arith, crlf_from_bounds (d ∷ s) (i + 1) j)

find_crlf_bounds :
    (buffer : Text) (start j : ℕ)
    → find_crlf buffer start ≡ some j
    → start ≤ length buffer
    → (start ≤ j) × (j + 2 ≤ length buffer)
unfolding find_crlf
find_crlf_bounds buffer start j e h =
    omega (arith, crlf_from_bounds (drop start buffer) start j e, length-drop start buffer)

get_elem?_bounds : (s : Text) (i c : ℕ) → get_elem? s i ≡ some c → i < length s
get_elem?_bounds [] i c e = cc
get_elem?_bounds (x ∷ s) zero c e = omega arith
get_elem?_bounds (x ∷ s) (suc i) c e = omega (arith, get_elem?_bounds s i c e)

find_byte_bounds :
    (b : ℕ) (s : Text) (i j : ℕ) → find_byte b s i ≡ some j → (i ≤ j) × (j + 1 ≤ i + length s)
unfolding find_byte
find_byte_bounds b [] i j e = cc
find_byte_bounds b (c ∷ s) i j e = ground (arith, find_byte_bounds b s (i + 1) j)

bulk_of_length_bounds :
    (buffer : Text) (crlf : ℕ) (len : Option ℤ) (p : Text) (n : ℕ)
    → crlf + 2 ≤ length buffer
    → bulk_of_length buffer crlf len ≡ part_at p n
    → (crlf < n) × (n ≤ length buffer)
unfolding bulk_of_length
bulk_of_length_bounds buffer crlf none p n h e = cc
bulk_of_length_bounds buffer crlf (some (negsuc k)) p n h e = ground arith
bulk_of_length_bounds buffer crlf (some (pos k)) p n h e = unfold bulk_data in ground arith

element_at_bounds :
    (buffer : Text) (at : ℕ) (p : Text) (n : ℕ)
    → element_at buffer at ≡ part_at p n
    → (at < n) × (n ≤ length buffer)
unfolding element_at
element_at_bounds buffer at p n e = split (get_elem? buffer at) (find_crlf buffer at) refl refl
  where
    split :
        (c : Option ℕ) (j : Option ℕ)
        → get_elem? buffer at ≡ c
        → find_crlf buffer at ≡ j
        → (at < n) × (n ≤ length buffer)
    split none j ec ej = ground arith
    split (some c) none ec ej = ground arith
    split (some c) (some j) ec ej =
        let inside : at ≤ length buffer = omega (arith, get_elem?_bounds buffer at c ec) in
        ground (
          arith,
          find_crlf_bounds buffer at j ej inside,
          bulk_of_length_bounds buffer j (stoi (substr buffer (at + 1) (j - at - 1))) p n,
        )

-- A parsed command takes a byte at least, and no result takes more than there is.
abbrev pub IsWithin : ℕ → RespParseResult → Type 0
IsWithin len (parsed cmd n) = (0 < n) × (n ≤ len)
IsWithin len (need_more n) = n ≤ len
IsWithin len (protocol_error n) = n ≤ len

elements-IsWithin :
    (n : ℕ) (buffer : Text) (at : ℕ) (parts : List Text)
    → 0 < at
    → at ≤ length buffer
    → IsWithin (length buffer) (parse_elements n buffer at parts)
unfolding parse_elements
elements-IsWithin zero buffer at parts p h = done (command_of parts)
  where
    done :
        (r : Option Command)
        → IsWithin (length buffer) (elim r [ none ↦ protocol_error 0 | some cmd ↦ parsed cmd at ])
    done none = omega arith
    done (some cmd) = (p, h)
elements-IsWithin (suc n) buffer at parts p h =
    next (element_at buffer at) refl (λ q b. elements-IsWithin n buffer b (parts ++ (q ∷ [])))
  where
    next :
        (r : Element)
        → element_at buffer at ≡ r
        → ((q : Text)
            → (b : ℕ) → (0 < b)
            → b ≤ length buffer
            → IsWithin (length buffer) (parse_elements n buffer b (parts ++ (q ∷ []))))
        → IsWithin (length buffer) (elim r [
          | incomplete ↦ need_more 0
          | malformed ↦ protocol_error 0
          | part_at part next ↦ parse_elements n buffer next (parts ++ (part ∷ []))
        ])
    next incomplete e ih = omega arith
    next malformed e ih = omega arith
    next (part_at q b) e ih =
        let (lo, hi) = element_at_bounds buffer at q b e in ih q b (omega arith) hi

count-IsWithin :
    (buffer : Text) (crlf : ℕ) (count : Option ℤ)
    → crlf + 2 ≤ length buffer
    → IsWithin (length buffer) (array_of_count buffer crlf count)
unfolding array_of_count
count-IsWithin buffer crlf none h = omega arith
count-IsWithin buffer crlf (some (negsuc n)) h = omega arith
count-IsWithin buffer crlf (some (pos zero)) h = omega arith
count-IsWithin buffer crlf (some (pos (suc n))) h =
    elements-IsWithin (suc n) buffer (crlf + 2) [] (omega arith) h

array-IsWithin : (buffer : Text) → IsWithin (length buffer) (parse_resp_array buffer)
unfolding parse_resp_array
array-IsWithin buffer = elim (Option-cases (find_crlf buffer 0)) [
  | inl e ↦ rw (parse_resp_array, e) (omega arith)
  | inr (crlf, e) ↦
      rw (parse_resp_array, e)
        (count-IsWithin buffer crlf (stoi (substr buffer 1 (crlf - 1)))
          (find_crlf_bounds buffer 0 crlf e (omega arith)).1)
]

line-IsWithin :
    (len : ℕ) (line : Text) (consume : ℕ)
    → 0 < consume
    → consume ≤ len
    → IsWithin len (inline_line line consume)
unfolding inline_line
line-IsWithin len [] consume p h = h
line-IsWithin len (c ∷ s) consume p h = elim (Option-cases (Parser.parse (c ∷ s))) [
  | inl e ↦ rw (inline_line, e) h
  | inr (cmd, e) ↦ rw (inline_line, e) (p, h)
]

inline-IsWithin : (buffer : Text) → IsWithin (length buffer) (parse_inline buffer)
unfolding parse_inline
inline-IsWithin buffer = elim (Option-cases (find_crlf buffer 0)) [
  | inr (crlf, e) ↦
      rw (parse_inline, e)
        (line-IsWithin (length buffer) (trim_start (take crlf buffer)) (crlf + 2) (omega arith)
          (find_crlf_bounds buffer 0 crlf e (omega arith)).1)
  | inl e ↦ elim (Option-cases (find_byte 10 buffer 0)) [
    | inr (newline, b) ↦
        rw (parse_inline, e, b)
          (line-IsWithin (length buffer) (trim_start (take newline buffer)) (newline + 1)
            (omega arith) (omega (arith, find_byte_bounds 10 buffer 0 newline b)))
    | inl b ↦ elim (Bool-cases (ltb max_inline (length buffer))) [
      | inl l ↦ rw (parse_inline, e, b, l) (omega arith)
      | inr l ↦ rw (parse_inline, e, b, l) (omega arith)
    ]
  ]
]

-- Whatever the buffer holds, a parsed command takes one byte of it at least, and no result takes
-- more bytes than it holds.
pub parse_command-IsWithin : (buffer : Text) → IsWithin (length buffer) (parse_command buffer)
unfolding parse_command
parse_command-IsWithin [] = omega arith
parse_command-IsWithin (c ∷ s) = elim (Bool-cases (c == b'*')) [
  | inl e ↦ rw e (array-IsWithin (c ∷ s))
  | inr e ↦ rw e (inline-IsWithin (c ∷ s))
]
