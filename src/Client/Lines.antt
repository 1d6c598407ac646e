-- ===== src/Client/Lines.antt =====
-- Responses of one line in `Client::parse_resp_value` of src/networking/client.cpp, and the texts
-- that `Resp::serialize_response` of src/resp/resp.cpp takes for each kind.
use my_redis.Prelude.{
  arith, ℕ, suc, ◌+◌, ◌-◌, ◌≡◌, some, ◌∷◌, ◌++◌, refl, length, length-append, take,
  take-length_append, ◌∙◌, ap, sym, nat_eq,
}
use mathlib.Core.List.{append_assoc}
use my_redis.Prelude.Int.{ℤ, pos, negsuc}
use my_redis.Prelude.Text.{Text, text_eq, codes}
use my_redis.Number.{int_to_string}
use my_redis.Resp.{substr, crlf_from}
use my_redis.Resp.Frames.{OneLine, crlf_from-append, to_string_no_cr}
use my_redis.Resp.Serialize.{crlf, simple_string, error, integer}
use my_redis.Client.{Shown, find_crlf, typed_value, parse_value, parse_resp_value}

-- A type byte and a line, in front of other bytes.
module _ (type : ℕ) (body back : Text) (plain : OneLine (type ∷ body)) where
  abbrev frame : Text
  frame = type ∷ (body ++ crlf)

  split_frame : frame ++ back ≡ (type ∷ body) ++ (13 ∷ 10 ∷ back)
  split_frame = ap (λ s. type ∷ s) (append_assoc body crlf back)

  length-frame : length frame ≡ length (type ∷ body) + 2
  length-frame = omega (arith, length-append body crlf)

  crlf_found : find_crlf (frame ++ back) ≡ some (length (type ∷ body))
  unfolding find_crlf
  crlf_found =
      ap (λ s. crlf_from s 0) split_frame
      ∙ crlf_from-append (type ∷ body) back 0 plain
      ∙ ap some (omega arith)

  line_found : substr (frame ++ back) 1 (length (type ∷ body) - 1) ≡ body
  line_found =
      ap (λ s. substr s 1 (length (type ∷ body) - 1)) split_frame
      ∙ ap (λ n. take n (body ++ (13 ∷ 10 ∷ back))) (less_one (length body))
      ∙ take-length_append body (13 ∷ 10 ∷ back)
    where
      less_one : (n : ℕ) → suc n - 1 ≡ n
      less_one n = omega arith

  pub parse_resp_value-frame :
      parse_resp_value (frame ++ back)
      ≡ typed_value
          (parse_value (length (frame ++ back)))
          type
          (frame ++ back)
          (length (type ∷ body))
  unfolding parse_resp_value parse_value
  parse_resp_value-frame = rw (parse_value, crlf_found) refl

  -- `f` is what is shown of the line.
  pub line_shown :
      (f : Text → Text)
      → ◌≡◌ {A = Shown}
          (some (f (substr (frame ++ back) 1 (length (type ∷ body) - 1)), length (type ∷ body) + 2))
          (some (f body, length frame))
  line_shown f =
      ap {B = Shown} (λ line. some (f line, length (type ∷ body) + 2)) line_found
      ∙ ap {B = Shown} (λ n. some (f body, n)) (sym length-frame)

-- What the client shows of a line, by its type byte.
module _ (body back : Text) (plain : OneLine body) where
  pub parse_resp_value-simple_string :
      parse_resp_value (simple_string body ++ back) ≡ some (body, length (simple_string body))
  unfolding simple_string typed_value
  parse_resp_value-simple_string =
      parse_resp_value-frame b'+' body back (omega arith, plain)
      ∙ line_shown b'+' body back (omega arith, plain) (λ line. line)

  pub parse_resp_value-error :
      parse_resp_value (error body ++ back) ≡ some (body, length (error body))
  unfolding error typed_value
  parse_resp_value-error =
      parse_resp_value-frame b'-' body back (omega arith, plain)
      ∙ line_shown b'-' body back (omega arith, plain) (λ line. line)

int_to_string_no_cr : (z : ℤ) → OneLine (int_to_string z)
unfolding int_to_string
int_to_string_no_cr (pos n) = to_string_no_cr n
int_to_string_no_cr (negsuc n) = (omega arith, to_string_no_cr (suc n))

pub parse_resp_value-integer :
    (z : ℤ) (back : Text)
    → parse_resp_value (integer z ++ back)
      ≡ some (codes "(integer) " ++ int_to_string z, length (integer z))
unfolding integer typed_value
parse_resp_value-integer z back =
    parse_resp_value-frame b':' (int_to_string z) back (omega arith, int_to_string_no_cr z)
    ∙ line_shown b':' (int_to_string z) back (omega arith, int_to_string_no_cr z)
        (λ line. codes "(integer) " ++ line)
