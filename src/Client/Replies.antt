-- ===== src/Client/Replies.antt =====
-- A response's way from `Resp::serialize_response` of src/resp/resp.cpp to what
-- `Client::parse_resp_value` of src/networking/client.cpp shows.
use my_redis.Prelude.{
  arith, ℕ, suc, ◌+◌, ◌^◌, ◌<◌, ◌≤◌, ◌≡◌, none, some, [], ◌∷◌, ◌++◌, refl, length, ◌∙◌, ap, ltb,
  true, false, nat_eq,
}
use my_redis.Prelude.Int.{ℤ}
use my_redis.Prelude.Text.{Text, text_eq, text_beq, codes}
use my_redis.Number.{
  stoi, skip_space, is_space, signed_value, unsigned_value, digits_value, is_digit, in_range,
  int_to_string,
}
use my_redis.Number.RoundTrip.{IsInt64, int_to_string_some, stoll-int_to_string}
use my_redis.Resp.Serialize.{
  simple_string, error, integer, bulk_string, null_bulk_string, split_back, quoted_inner, is_error,
  status_reply, integer_reply, serialize_other, serialize_loop, serialize_response,
}
use my_redis.Resp.{crlf_from}
use my_redis.Commands.Reply.{quoted}
use my_redis.Client.{find_crlf, bulk_value, typed_value, parse_value, parse_resp_value}
use my_redis.Client.Bulk.{parse_resp_value-bulk_string}
use my_redis.Resp.Frames.{OneLine, no_cr, no_cr-OneLine, OneLine-append}
use my_redis.Client.Lines.{
  parse_resp_value-simple_string, parse_resp_value-error, parse_resp_value-integer,
}

-- A status, an error, a number, a value in quotes, or nil.
pub data Reply : Type 0 where
  ok pong queued nil : Reply
  err wrong_type no_auth : Text → Reply
  number : ℤ → Reply
  value : Text → Reply

abbrev pub text_of : Reply → Text
text_of ok = codes "OK"
text_of pong = codes "PONG"
text_of queued = codes "QUEUED"
text_of nil = codes "(nil)"
text_of (err message) = codes "ERR" ++ message
text_of (wrong_type message) = codes "WRONGTYPE " ++ message
text_of (no_auth message) = codes "NOAUTH " ++ message
text_of (number n) = codes "(integer) " ++ int_to_string n
text_of (value s) = quoted s

-- An error is one line, a number an int64_t, and a value has fewer than 2^31 bytes.
abbrev pub IsReply : Reply → Type 0
IsReply (err message) = OneLine message
IsReply (wrong_type message) = OneLine message
IsReply (no_auth message) = OneLine message
IsReply (number n) = IsInt64 n
IsReply (value s) = length s < 2 ^ 31
IsReply _ = Unit {0}

abbrev pub wire : Reply → Text
wire ok = simple_string (codes "OK")
wire pong = simple_string (codes "PONG")
wire queued = simple_string (codes "QUEUED")
wire nil = null_bulk_string
wire (err message) = error (codes "ERR" ++ message)
wire (wrong_type message) = error (codes "WRONGTYPE " ++ message)
wire (no_auth message) = error (codes "NOAUTH " ++ message)
wire (number n) = integer n
wire (value s) = bulk_string s

split_back-append : (x c : ℕ) (s : Text) → split_back x (s ++ (c ∷ [])) ≡ (x ∷ s, c)
unfolding split_back
split_back-append x c [] = refl
split_back-append x c (y ∷ s) = ap (λ (p : Text × ℕ). (x ∷ p.0, p.1)) (split_back-append y c s)

quoted_inner-quoted : (s : Text) → quoted_inner (quoted s) ≡ some s
unfolding quoted_inner quoted split_back
quoted_inner-quoted [] = refl
quoted_inner-quoted (x ∷ s) = rw (split_back-append x 34 s) refl

long_enough : (n : ℕ) → 1 ≤ n → ltb 10 (10 + n) ≡ true
long_enough n h = ground arith

integer_reply-number :
    (n : ℤ) → IsInt64 n → integer_reply (codes "(integer) " ++ int_to_string n) ≡ some n
unfolding integer_reply text_beq
integer_reply-number n h =
    let long : ltb 10 (length (codes "(integer) " ++ int_to_string n)) ≡ true =
      ground (arith, int_to_string_some n h) in
    rw (integer_reply, long) (stoll-int_to_string n h)

-- The two steps of the serializer that do not compute at these texts.
serialize_loop-other :
    (fuel : ℕ) (r : Text)
    → status_reply r ≡ none
    → serialize_loop (suc fuel) r ≡ serialize_other (serialize_loop fuel) r
unfolding serialize_loop
serialize_loop-other fuel r e = rw (serialize_loop, e) refl

serialize_other-number :
    (again : Text → Text) (r : Text) (n : ℤ)
    → is_error r ≡ false
    → integer_reply r ≡ some n
    → serialize_other again r ≡ integer n
unfolding serialize_other
serialize_other-number again r n e i = rw (serialize_other, e, i) refl

serialize_other-value :
    (again : Text → Text) (r s : Text)
    → is_error r ≡ false
    → integer_reply r ≡ none
    → quoted_inner r ≡ some s
    → serialize_other again r ≡ bulk_string s
unfolding serialize_other
serialize_other-value again r s e i q = rw (serialize_other, e, i, q) refl

integer_reply-quoted : (s : Text) → integer_reply (quoted s) ≡ none
unfolding integer_reply quoted text_beq
integer_reply-quoted s = ground arith

is_error-quoted : (s : Text) → is_error (quoted s) ≡ false
unfolding is_error quoted text_beq
is_error-quoted s = refl

status_reply-quoted : (s : Text) → status_reply (quoted s) ≡ none
unfolding status_reply quoted text_beq
status_reply-quoted s = refl

is_error-number : (t : Text) → is_error (codes "(integer) " ++ t) ≡ false
unfolding is_error text_beq
is_error-number t = refl

status_reply-number : (t : Text) → status_reply (codes "(integer) " ++ t) ≡ none
unfolding status_reply text_beq
status_reply-number t = refl

pub serialize_response-wire : (r : Reply) → IsReply r → serialize_response (text_of r) ≡ wire r
unfolding serialize_response serialize_loop status_reply serialize_other is_error text_beq
serialize_response-wire ok h = refl
serialize_response-wire pong h = refl
serialize_response-wire queued h = refl
serialize_response-wire nil h = refl
serialize_response-wire (err message) h = refl
serialize_response-wire (wrong_type message) h = refl
serialize_response-wire (no_auth message) h = refl
serialize_response-wire (number n) h =
    serialize_loop-other (length (text_of (number n))) (text_of (number n))
      (status_reply-number (int_to_string n))
    ∙ serialize_other-number (serialize_loop (length (text_of (number n)))) (text_of (number n)) n
        (is_error-number (int_to_string n)) (integer_reply-number n h)
serialize_response-wire (value s) h =
    serialize_loop-other (length (quoted s)) (quoted s) (status_reply-quoted s)
    ∙ serialize_other-value (serialize_loop (length (quoted s))) (quoted s) s (is_error-quoted s)
        (integer_reply-quoted s) (quoted_inner-quoted s)

parse_resp_value-nil :
    (back : Text)
    → parse_resp_value (null_bulk_string ++ back) ≡ some (codes "(nil)", length null_bulk_string)
unfolding parse_resp_value parse_value find_crlf crlf_from typed_value bulk_value stoi skip_space
    is_space signed_value unsigned_value digits_value is_digit in_range
parse_resp_value-nil back = refl

parse_resp_value-wire :
    (r : Reply) (back : Text)
    → IsReply r
    → parse_resp_value (wire r ++ back) ≡ some (text_of r, length (wire r))
unfolding no_cr
parse_resp_value-wire ok back h =
    parse_resp_value-simple_string (codes "OK") back (no_cr-OneLine (codes "OK") refl)
parse_resp_value-wire pong back h =
    parse_resp_value-simple_string (codes "PONG") back (no_cr-OneLine (codes "PONG") refl)
parse_resp_value-wire queued back h =
    parse_resp_value-simple_string (codes "QUEUED") back (no_cr-OneLine (codes "QUEUED") refl)
parse_resp_value-wire nil back h = parse_resp_value-nil back
parse_resp_value-wire (err message) back h =
    parse_resp_value-error (codes "ERR" ++ message) back
      (OneLine-append (codes "ERR") message (no_cr-OneLine (codes "ERR") refl) h)
parse_resp_value-wire (wrong_type message) back h =
    parse_resp_value-error (codes "WRONGTYPE " ++ message) back
      (OneLine-append (codes "WRONGTYPE ") message (no_cr-OneLine (codes "WRONGTYPE ") refl) h)
parse_resp_value-wire (no_auth message) back h =
    parse_resp_value-error (codes "NOAUTH " ++ message) back
      (OneLine-append (codes "NOAUTH ") message (no_cr-OneLine (codes "NOAUTH ") refl) h)
parse_resp_value-wire (number n) back h = parse_resp_value-integer n back
parse_resp_value-wire (value s) back h = parse_resp_value-bulk_string s back h

-- The client shows the statuses OK, PONG and QUEUED, an error of one line, an int64_t, nil, and a
-- value in quotes with fewer than 2^31 bytes as the handler wrote them, whatever bytes follow, and
-- consumes exactly what the server has sent for them. A response in another form, such as that of
-- PING with an argument or of INFO, is not meant.
pub parse_resp_value-serialize_response :
    (r : Reply) (back : Text)
    → IsReply r
    → parse_resp_value (serialize_response (text_of r) ++ back)
      ≡ some (text_of r, length (serialize_response (text_of r)))
parse_resp_value-serialize_response r back h =
    rw (serialize_response-wire r h) (parse_resp_value-wire r back h)
