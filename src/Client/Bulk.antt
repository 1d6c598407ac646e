-- ===== src/Client/Bulk.antt =====
-- Bulk strings in `Client::parse_resp_value` of src/networking/client.cpp.
use my_redis.Prelude.{
  arith, ℕ, suc, ◌+◌, ◌-◌, ◌^◌, ◌≤◌, ◌<◌, ◌≡◌, some, [], ◌∷◌, ◌++◌, refl, length, drop, ◌∙◌, ap,
}
use my_redis.Prelude.Int.{pos}
use my_redis.Prelude.Text.{Text}
use my_redis.Number.{stoi, to_string}
use my_redis.Number.RoundTrip.{stoi-to_string}
use my_redis.Resp
use my_redis.Resp.{substr}
use my_redis.Resp.Frames.{
  crlf_pos, find_crlf-here, length_here, data_here, long_enough, length-bulk_string,
}
use my_redis.Resp.Serialize.{bulk_string}
use my_redis.Commands.Reply.{quoted}
use my_redis.Client.{find_crlf, bulk_value, typed_value, parse_value, parse_resp_value}

same_find_crlf : (buffer : Text) → find_crlf buffer ≡ Resp.find_crlf buffer 0
unfolding find_crlf Resp.find_crlf
same_find_crlf buffer = refl

parse_value-bulk :
    (fuel crlf n : ℕ) (s : Text)
    → find_crlf (b'$' ∷ s) ≡ some crlf
    → stoi (substr (b'$' ∷ s) 1 (crlf - 1)) ≡ some (pos n)
    → parse_value (suc fuel) (b'$' ∷ s) ≡ bulk_value (b'$' ∷ s) crlf (some (pos n))
unfolding parse_value typed_value
parse_value-bulk fuel crlf n s e d = rw (parse_value, e, d) refl

bulk_value-whole :
    (buffer x : Text) (crlf : ℕ)
    → crlf + 2 + length x + 2 ≤ length buffer
    → substr buffer (crlf + 2) (length x) ≡ x
    → bulk_value buffer crlf (some (pos (length x))) ≡ some (quoted x, crlf + 2 + length x + 2)
unfolding bulk_value
bulk_value-whole buffer x crlf h e = ground (arith, e)

-- A bulk string of fewer than 2^31 bytes, followed by any bytes, is shown in quotes, and exactly
-- its own bytes are consumed.
pub parse_resp_value-bulk_string :
    (x back : Text)
    → length x < 2 ^ 31
    → parse_resp_value (bulk_string x ++ back) ≡ some (quoted x, length (bulk_string x))
unfolding parse_resp_value bulk_string
parse_resp_value-bulk_string x back fits =
    parse_value-bulk (length buffer) crlf (length x) (tail_of buffer) crlf_here
      (ap (λ s. stoi s) digits_here ∙ stoi-to_string (length x) fits)
    ∙ bulk_value-whole buffer x crlf (long_enough buffer [] x back fits refl)
        (data_here buffer [] x back fits refl)
    ∙ ap (λ n. some (quoted x, n)) (omega (arith, length-bulk_string buffer [] x back fits refl))
  where
    buffer : Text
    buffer = bulk_string x ++ back

    tail_of : Text → Text
    tail_of s = drop 1 s

    crlf : ℕ
    crlf = crlf_pos buffer [] x back fits refl

    crlf_here : find_crlf buffer ≡ some crlf
    crlf_here = same_find_crlf buffer ∙ find_crlf-here buffer [] x back fits refl

    less_one : crlf - 1 ≡ crlf - 0 - 1
    less_one = omega arith

    digits_here : substr buffer 1 (crlf - 1) ≡ to_string (length x)
    digits_here = ap (λ n. substr buffer 1 n) less_one ∙ length_here buffer [] x back fits refl
