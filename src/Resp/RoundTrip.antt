-- ===== src/Resp/RoundTrip.antt =====
-- A command as a RESP array of bulk strings, against the parser of src/resp/resp.cpp.
use my_redis.Prelude.{
  ℕ, suc, ◌+◌, ◌-◌, ◌^◌, ◌<◌, ◌≡◌, some, List, [], ◌∷◌, ◌++◌, map, nat_eq, arith, refl, All, length,
  length-append, take-length_append, ◌∙◌, sym, ap,
}
use mathlib.Core.List.{append_assoc, append-nil}
use my_redis.Prelude.Text.{Text}
use my_redis.Number.{to_string, upper}
use my_redis.Number.RoundTrip.{stoi-to_string}
use my_redis.Parser.{Command, command_of}
use my_redis.Resp.{parsed, substr, find_crlf, parse_elements, parse_resp_array, parse_command}
use my_redis.Resp.Frames.{crlf_from-append, to_string_no_cr, element_at-bulk}
use my_redis.Resp.Serialize.{bulk_string, array, concat}

-- A request: the array of the bulk strings of the command's words.
abbrev pub request : List Text → Text
request parts = array (map bulk_string parts)

abbrev pub Fits : Text → Type 0
Fits part = length part < 2 ^ 31

abbrev bulks : List Text → Text
bulks parts = concat (map bulk_string parts)

parsed_eq : (cmd : Command) (m n : ℕ) → m ≡ n → parsed cmd m ≡ parsed cmd n
parsed_eq cmd m n e = ap (parsed cmd) e

parse_elements-bulks :
    (todo done : List Text) (name : Text) (args : List Text) (buffer front back : Text)
    → All Fits todo
    → done ++ todo ≡ name ∷ args
    → buffer ≡ front ++ (bulks todo ++ back)
    → parse_elements (length todo) buffer (length front) done
      ≡ parsed (record { name = upper name; args = args }) (length front + length (bulks todo))
unfolding parse_elements concat
parse_elements-bulks [] done name args buffer front back fits all whole =
    rw (parse_elements, sym (append-nil done) ∙ all, command_of) (parsed_eq _ _ _ (omega arith))
parse_elements-bulks (x ∷ todo) done name args buffer front back (f, fits) all whole =
    rw (parse_elements, element_at-bulk buffer front x (bulks todo ++ back) f cut)
      (rw (length-append front (bulk_string x)) at (
          parse_elements-bulks todo (done ++ (x ∷ [])) name args buffer (front ++ bulk_string x)
            back fits all' (cut ∙ simp append_assoc))
        ∙ parsed_eq _ _ _ (
            omega (
              arith,
              length-append front (bulk_string x),
              length-append (bulk_string x) (bulks todo),
            )))
  where
    cut : buffer ≡ front ++ (bulk_string x ++ (bulks todo ++ back))
    cut = whole ∙ simp append_assoc

    all' : (done ++ (x ∷ [])) ++ todo ≡ name ∷ args
    all' = append_assoc done (x ∷ []) todo ∙ all

-- The count line, and what follows it.
abbrev count_digits : List Text → Text
count_digits parts = to_string (length (map bulk_string parts))

length-map : (parts : List Text) → length (map bulk_string parts) ≡ length parts
length-map [] = refl
length-map (x ∷ parts) = ap suc (length-map parts)

starred :
    (name : Text) (args : List Text) (back : Text)
    → parse_command (request (name ∷ args) ++ back)
      ≡ parse_resp_array (request (name ∷ args) ++ back)
unfolding parse_command array
starred name args back = refl

module _ (name : Text) (args : List Text) (back : Text) (few : length (name ∷ args) < 2 ^ 31)
    (fits : All Fits (name ∷ args)) where
  abbrev parts : List Text
  parts = name ∷ args

  abbrev buffer : Text
  buffer = request parts ++ back

  cut_count : buffer ≡ b'*' ∷ (count_digits parts ++ (13 ∷ 10 ∷ (bulks parts ++ back)))
  unfolding array
  cut_count = simp append_assoc

  abbrev front : Text
  front = b'*' ∷ (count_digits parts ++ (13 ∷ 10 ∷ []))

  cut_parts : buffer ≡ front ++ (bulks parts ++ back)
  cut_parts = cut_count ∙ simp append_assoc

  find_crlf-count : find_crlf buffer 0 ≡ some (suc (length (count_digits parts)))
  unfolding find_crlf
  find_crlf-count = rw cut_count (
      crlf_from-append (b'*' ∷ count_digits parts) (bulks parts ++ back) 0
        (omega arith, to_string_no_cr (length (map bulk_string parts)))
      ∙ ap some (omega arith))

  count_here : substr buffer 1 (suc (length (count_digits parts)) - 1) ≡ count_digits parts
  count_here =
      rw (cut_count, one_less)
        (take-length_append (count_digits parts) (13 ∷ 10 ∷ (bulks parts ++ back)))
    where
      one_less : suc (length (count_digits parts)) - 1 ≡ length (count_digits parts)
      one_less = omega arith

  length-front : suc (length (count_digits parts)) + 2 ≡ length front
  length-front = omega (arith, length-append (count_digits parts) (13 ∷ 10 ∷ []))

  length-request : length (request parts) ≡ length front + length (bulks parts)
  unfolding array
  length-request =
      omega (arith, length-front, length-append (count_digits parts) (13 ∷ 10 ∷ bulks parts))

  array_lem :
      parse_resp_array buffer
      ≡ parsed (record { name = upper name; args = args }) (length (request parts))
  unfolding parse_resp_array
  array_lem =
      rw
        (
          parse_resp_array,
          find_crlf-count,
          count_here,
          length-map parts,
          stoi-to_string (length parts) few,
        )
        (rw position (
          parse_elements-bulks parts [] name args buffer front back fits refl cut_parts
          ∙ parsed_eq _ _ _ (omega (arith, length-request))))
    where
      position : suc (length (to_string (length parts))) + 2 ≡ length front
      position = ap (λ k. suc (length (to_string k)) + 2) (sym (length-map parts)) ∙ length-front

-- A command sent as an array of bulk strings, followed by any bytes, is parsed to the command with
-- its name in upper case and its arguments, and exactly its own bytes are consumed, where the
-- number of words and their lengths fit an int.
pub parse_command-request :
    (name : Text) (args : List Text) (back : Text)
    → length (name ∷ args) < 2 ^ 31
    → All Fits (name ∷ args)
    → parse_command (request (name ∷ args) ++ back)
      ≡ parsed (record { name = upper name; args = args }) (length (request (name ∷ args)))
parse_command-request name args back few fits =
    starred name args back ∙ array_lem name args back few fits
