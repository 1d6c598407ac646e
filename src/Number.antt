-- ===== src/Number.antt =====
-- Numbers as text: what the source uses of the standard library (`isspace`, `toupper`, `stoi`,
-- `stoll`, `to_string`, `std::transform` with `toupper`), in the "C" locale.
pub mod RoundTrip
mod Tests
use my_redis.Prelude.{
  ℕ, zero, suc, ◌+◌, ◌-◌, ◌*◌, ◌/◌, ◌%◌, ◌^◌, Option, none, some, List, [], ◌∷◌, ◌++◌, Bool, true,
  false, ◌&&◌, ◌||◌, map, ltb, leb, ◌==◌, nat_eq, if◌then◌else◌,
}
use my_redis.Prelude.Int.{ℤ, pos, negsuc, pos_part, neg_part}
use my_redis.Prelude.Text.{Text, codes}

unfoldable pub is_space : ℕ → Bool
is_space c = c == 32 || (leb 9 c && leb c 13)

unfoldable pub is_digit : ℕ → Bool
is_digit c = leb 48 c && leb c 57

unfoldable pub to_upper : ℕ → ℕ
to_upper c = if leb 97 c && leb c 122 then c - 32 else c

-- `std::transform(s.begin(), s.end(), s.begin(), toupper)`
unfoldable pub upper : Text → Text
unfolding to_upper
upper = map to_upper

unfoldable pub skip_space : Text → Text
unfolding is_space
skip_space [] = []
skip_space (c ∷ s) = let rest = skip_space s in if is_space c then rest else c ∷ s

-- The value of the digits at the front of a text; what follows them is not read.
unfoldable pub digits_value : ℕ → Text → ℕ
unfolding is_digit
digits_value n [] = n
digits_value n (c ∷ s) =
    let rest = digits_value (n * 10 + (c - 48)) s in if is_digit c then rest else n

unfoldable pub unsigned_value : Text → Option ℕ
unfolding digits_value
unsigned_value [] = none
unsigned_value (c ∷ s) = if is_digit c then some (digits_value 0 (c ∷ s)) else none

-- `bound` is 2 ^ 31 for an int and 2 ^ 63 for a long long; none is an exception.
unfoldable pub in_range : ℕ → Bool → Option ℕ → Option ℤ
in_range bound negative none = none
in_range bound true (some zero) = some (pos 0)
in_range bound true (some (suc n)) = if ltb n bound then some (negsuc n) else none
in_range bound false (some n) = if ltb n bound then some (pos n) else none

unfoldable pub signed_value : ℕ → Text → Option ℤ
unfolding unsigned_value in_range
signed_value bound [] = none
signed_value bound (c ∷ s) =
    if c == 45
    then in_range bound true (unsigned_value s)
    else if c == 43
    then in_range bound false (unsigned_value s)
    else in_range bound false (unsigned_value (c ∷ s))

unfoldable pub stoi : Text → Option ℤ
unfolding skip_space signed_value
stoi s = signed_value (2 ^ 31) (skip_space s)

unfoldable pub stoll : Text → Option ℤ
unfolding skip_space signed_value
stoll s = signed_value (2 ^ 63) (skip_space s)

-- The decimal digits of n in front of `rest`; a number below 10 ^ fuel is written in full.
unfoldable pub decimal : ℕ → ℕ → Text → Text
decimal zero n rest = rest
decimal (suc fuel) n rest =
    let front = decimal fuel (n / 10) ((48 + n % 10) ∷ rest) in
    if ltb n 10 then (48 + n) ∷ rest else front

-- Twenty digits are enough for any 64-bit number.
unfoldable pub to_string : ℕ → Text
unfolding decimal
to_string n = decimal 20 n []

unfoldable pub int_to_string : ℤ → Text
unfolding to_string
int_to_string (pos n) = to_string n
int_to_string (negsuc n) = 45 ∷ to_string (suc n)
