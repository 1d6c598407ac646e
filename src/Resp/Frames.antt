-- ===== src/Resp/Frames.antt =====
-- Where the parser finds the parts of a buffer, given the buffer in pieces.
use my_redis.Prelude.{
  ℕ, ◌+◌, ◌-◌, ◌^◌, ◌≤◌, ◌<◌, ◌≡◌, ◌≢◌, some, [], ◌∷◌, ◌++◌, nat_eq, arith, Bool, true, false, ◌==◌,
  if◌then◌else◌, refl, All, get_elem?, drop, length, length-append, take-length_append,
  drop-length_append, ◌∙◌, ap,
}
use mathlib.Core.List.{append_assoc}
use my_redis.Prelude.Text.{Text}
use my_redis.Number.{to_string, decimal}
use my_redis.Number.RoundTrip.{IsDigit, decimal-IsDigit, stoi-to_string}
use my_redis.Resp.{part_at, substr, crlf_from, find_crlf, bulk_data, element_at}
use my_redis.Resp.Serialize.{bulk_string}

get_elem?-length : (xs ys : Text) (c : ℕ) → get_elem? (xs ++ (c ∷ ys)) (length xs) ≡ some c
get_elem?-length [] ys c = refl
get_elem?-length (x ∷ xs) ys c = get_elem?-length xs ys c

pub drop_at :
    (buffer front back : Text) (n : ℕ)
    → buffer ≡ front ++ back
    → n ≡ length front
    → drop n buffer ≡ back
drop_at buffer front back n e p = rw (e, p) (drop-length_append front back)

pub get_elem?_at :
    (buffer front back : Text) (c n : ℕ)
    → buffer ≡ front ++ (c ∷ back)
    → n ≡ length front
    → get_elem? buffer n ≡ some c
get_elem?_at buffer front back c n e p = rw (e, p) (get_elem?-length front back c)

abbrev pub OneLine : Text → Type 0
OneLine s = All (λ c. c ≢ 13) s

unfoldable pub no_cr : Text → Bool
no_cr [] = true
no_cr (c ∷ s) = let rest = no_cr s in if c == 13 then false else rest

pub no_cr-OneLine : (s : Text) → no_cr s ≡ true → OneLine s
unfolding no_cr
no_cr-OneLine [] h = tt
no_cr-OneLine (c ∷ s) h = ground (arith, no_cr-OneLine s)

pub OneLine-append : (xs ys : Text) → OneLine xs → OneLine ys → OneLine (xs ++ ys)
OneLine-append [] ys h k = k
OneLine-append (x ∷ xs) ys (h, hs) k = (h, OneLine-append xs ys hs k)

-- A CRLF behind text without a carriage return is the first one.
pub crlf_from-append :
    (xs back : Text) (i : ℕ)
    → OneLine xs
    → crlf_from (xs ++ (13 ∷ 10 ∷ back)) i ≡ some (i + length xs)
unfolding crlf_from
crlf_from-append [] back i h = ground arith
crlf_from-append (x ∷ []) back i (h, hs) = ground arith
crlf_from-append (x ∷ y ∷ xs) back i (h, hs) =
    ground (arith, crlf_from-append (y ∷ xs) back (i + 1) hs)

digits_no_cr : (xs : Text) → All IsDigit xs → OneLine xs
digits_no_cr [] h = tt
digits_no_cr (x ∷ xs) (h, hs) = (omega arith, digits_no_cr xs hs)

pub to_string_no_cr : (n : ℕ) → OneLine (to_string n)
unfolding to_string
to_string_no_cr n = digits_no_cr (decimal 20 n []) (decimal-IsDigit 20 n)

-- The bulk string that stands at the end of `front` is read whole.
module _ (buffer front x back : Text) (fits : length x < 2 ^ 31)
    (whole : buffer ≡ front ++ (bulk_string x ++ back)) where
  abbrev pub digits : Text
  digits = to_string (length x)

  -- the buffer in pieces: up to the digits, and up to the data
  cut_digits : buffer ≡ (front ++ (b'$' ∷ [])) ++ (digits ++ (13 ∷ 10 ∷ (x ++ (13 ∷ 10 ∷ back))))
  unfolding bulk_string
  cut_digits = whole ∙ simp append_assoc

  abbrev data_front : Text
  data_front = (front ++ (b'$' ∷ digits)) ++ (13 ∷ 10 ∷ [])

  cut_data : buffer ≡ data_front ++ (x ++ (13 ∷ 10 ∷ back))
  cut_data = cut_digits ∙ simp append_assoc

  cut_cr : buffer ≡ (data_front ++ x) ++ (13 ∷ 10 ∷ back)
  cut_cr = cut_data ∙ simp append_assoc

  cut_lf : buffer ≡ ((data_front ++ x) ++ (13 ∷ [])) ++ (10 ∷ back)
  cut_lf = cut_cr ∙ simp append_assoc

  cut_start : buffer ≡ front ++ (b'$' ∷ (digits ++ (13 ∷ 10 ∷ (x ++ (13 ∷ 10 ∷ back)))))
  cut_start = cut_digits ∙ simp append_assoc

  abbrev pub crlf_pos : ℕ
  crlf_pos = length front + length (b'$' ∷ digits)

  pub find_crlf-here : find_crlf buffer (length front) ≡ some crlf_pos
  unfolding find_crlf
  find_crlf-here = rw (drop_at buffer front _ (length front) cut_start refl) (
      crlf_from-append (b'$' ∷ digits) (x ++ (13 ∷ 10 ∷ back)) (length front)
        (omega arith, to_string_no_cr (length x)))

  -- the digits, read from behind the dollar sign
  pub length_here : substr buffer (length front + 1) (crlf_pos - length front - 1) ≡ digits
  length_here =
      rw
        (
          drop_at buffer (front ++ (b'$' ∷ [])) _ (length front + 1) cut_digits (rw length-append),
          sub_all,
        )
        (take-length_append digits (13 ∷ 10 ∷ (x ++ (13 ∷ 10 ∷ back))))
    where
      sub_all : crlf_pos - length front - 1 ≡ length digits
      sub_all = omega arith

  data_start_lem : crlf_pos + 2 ≡ length data_front
  data_start_lem = rw (length-append, length-append) (omega arith)

  data_end_lem : crlf_pos + 2 + length x ≡ length (data_front ++ x)
  data_end_lem = omega (arith, data_start_lem, length-append data_front x)

  pub data_here : substr buffer (crlf_pos + 2) (length x) ≡ x
  data_here =
      rw (drop_at buffer data_front _ (crlf_pos + 2) cut_data data_start_lem)
        (take-length_append x (13 ∷ 10 ∷ back))

  pub long_enough : crlf_pos + 2 + length x + 2 ≤ length buffer
  long_enough = omega (
    arith,
    ap (λ (b : Text). length b) cut_cr,
    length-append (data_front ++ x) (13 ∷ 10 ∷ back),
    data_end_lem,
  )

  bulk_data-here :
      bulk_data buffer (crlf_pos + 2) (length x) ≡ part_at x (crlf_pos + 2 + length x + 2)
  unfolding bulk_data
  bulk_data-here = ground (
    arith,
    get_elem?_at buffer (data_front ++ x) (10 ∷ back) 13 (crlf_pos + 2 + length x) cut_cr
        data_end_lem,
    get_elem?_at buffer ((data_front ++ x) ++ (13 ∷ [])) back 10 (crlf_pos + 2 + length x + 1)
        cut_lf (omega (arith, data_end_lem, length-append (data_front ++ x) (13 ∷ []))),
    data_here,
    long_enough,
  )

  pub length-bulk_string : length (bulk_string x) ≡ length digits + length x + 5
  unfolding bulk_string
  length-bulk_string = omega (
    arith,
    length-append digits (13 ∷ 10 ∷ (x ++ (13 ∷ 10 ∷ []))),
    length-append x (13 ∷ 10 ∷ []),
  )

  pub element_at-bulk :
      element_at buffer (length front) ≡ part_at x (length front + length (bulk_string x))
  unfolding element_at
  element_at-bulk =
      rw
        (
          element_at,
          get_elem?_at buffer front _ b'$' (length front) cut_start refl,
          find_crlf-here,
          length_here,
          stoi-to_string (length x) fits,
        )
        (bulk_data-here ∙ ap (part_at x) (omega (arith, length-bulk_string)))
