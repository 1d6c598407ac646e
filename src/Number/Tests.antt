-- ===== src/Number/Tests.antt =====
-- `std::to_string`, `std::stoi` and `std::atoi` at small inputs.
use my_redis.Prelude.{◌≡◌, none, some, refl}
use my_redis.Prelude.Int.{negsuc}
use my_redis.Prelude.Text.{codes}
use my_redis.Number.{
  stoi, to_string, decimal, skip_space, is_space, signed_value, unsigned_value, digits_value,
  is_digit, in_range,
}

printed : to_string 205 ≡ codes "205"
unfolding to_string decimal
printed = refl

trailing_text : stoi (codes " -42x") ≡ some (negsuc 41)
unfolding stoi skip_space is_space signed_value unsigned_value digits_value is_digit in_range
trailing_text = refl

too_large : stoi (codes "2147483648") ≡ none
unfolding stoi skip_space is_space signed_value unsigned_value digits_value is_digit in_range
too_large = refl
