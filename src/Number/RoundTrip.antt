-- ===== src/Number/RoundTrip.antt =====
-- `std::to_string` and `std::stoi` together, as src/resp/resp.cpp uses them for lengths and counts.
use my_redis.Prelude.{
  ℕ, zero, suc, ◌+◌, ◌/◌, ◌%◌, ◌^◌, ◌≤◌, ◌<◌, ◌≡◌, some, [], ◌∷◌, ◌++◌, ltb, length, arith, refl,
  All, Bool-cases, inl, inr, ◌∙◌, sym, ap,
}
use mathlib.Core.List.{append_assoc}
use my_redis.Prelude.Int.{ℤ, pos, negsuc}
use my_redis.Prelude.Text.{Text}
use my_redis.Number.{
  skip_space, digits_value, signed_value, stoi, stoll, int_to_string, decimal, to_string,
}

pub decimal-append : (fuel n : ℕ) (rest : Text) → decimal fuel n rest ≡ decimal fuel n [] ++ rest
unfolding decimal
decimal-append zero n rest = refl
decimal-append (suc fuel) n rest = elim (Bool-cases (ltb n 10)) [
  | inl e ↦ rw e
  | inr e ↦ rw e (
      decimal-append fuel (n / 10) ((48 + n % 10) ∷ rest)
      ∙ split (decimal fuel (n / 10) []) ((48 + n % 10) ∷ []) rest
      ∙ ap (λ t. t ++ rest) (sym (decimal-append fuel (n / 10) ((48 + n % 10) ∷ []))))
]
  where
    split : (xs ys zs : Text) → xs ++ (ys ++ zs) ≡ (xs ++ ys) ++ zs
    split xs ys zs = sym (append_assoc xs ys zs)

abbrev pub IsDigit : ℕ → Type 0
IsDigit c = (48 ≤ c) × (c ≤ 57)

All-append : (xs ys : Text) → All IsDigit xs → All IsDigit ys → All IsDigit (xs ++ ys)
All-append [] ys p q = q
All-append (x ∷ xs) ys (p, ps) q = (p, All-append xs ys ps q)

pub decimal-IsDigit : (fuel n : ℕ) → All IsDigit (decimal fuel n [])
unfolding decimal
decimal-IsDigit zero n = tt
decimal-IsDigit (suc fuel) n = elim (Bool-cases (ltb n 10)) [
  | inl e ↦ rw e ((omega arith, ground arith), tt)
  | inr e ↦
      rw (e, decimal-append fuel (n / 10) ((48 + n % 10) ∷ []))
        (All-append (decimal fuel (n / 10) []) ((48 + n % 10) ∷ []) (decimal-IsDigit fuel (n / 10))
          ((omega arith, omega arith), tt))
]

digits_value-decimal :
    (fuel n : ℕ) (rest : Text)
    → n < 10 ^ fuel
    → digits_value 0 (decimal fuel n rest) ≡ digits_value n rest
unfolding decimal digits_value
digits_value-decimal zero n rest h = ground arith
digits_value-decimal (suc fuel) n rest h = elim (Bool-cases (ltb n 10)) [
  | inl e ↦ rw e (ground arith)
  | inr e ↦
      rw e (digits_value-decimal fuel (n / 10) ((48 + n % 10) ∷ rest) (omega arith) ∙ ground arith)
]

decimal_first :
    (fuel n : ℕ) (rest : Text)
    → n < 10 ^ suc fuel
    → (c : ℕ) × (s : Text) × (decimal (suc fuel) n rest ≡ c ∷ s) × IsDigit c
unfolding decimal
decimal_first zero n rest h = (48 + n, rest, ground arith, ground arith)
decimal_first (suc fuel) n rest h = elim (Bool-cases (ltb n 10)) [
  | inl e ↦ rw e (48 + n, rest, refl, ground arith)
  | inr e ↦
      let (c, s, p, d) = decimal_first fuel (n / 10) ((48 + n % 10) ∷ rest) (omega arith) in
      rw e (c, s, p, d)
]

signed_value-digit :
    (bound c n : ℕ) (s : Text)
    → IsDigit c
    → n < bound
    → digits_value 0 (c ∷ s) ≡ n
    → signed_value bound (skip_space (c ∷ s)) ≡ some (pos n)
unfolding signed_value skip_space
signed_value-digit bound c n s d h e = ground arith

-- `stoi` reads back what `to_string` printed for a number that fits an int.
pub stoi-to_string : (n : ℕ) → n < 2 ^ 31 → stoi (to_string n) ≡ some (pos n)
unfolding stoi to_string
stoi-to_string n h =
    let (c, s, p, d) = decimal_first 19 n [] (omega arith) in
    rw p (
      signed_value-digit (2 ^ 31) c n s d h
        (rw p at (digits_value-decimal 20 n [] (omega arith) ∙ nothing_left n)))
  where
    nothing_left : (m : ℕ) → digits_value m [] ≡ m
    nothing_left m = unfold digits_value in refl

-- The digits of a number have its value, and there is one of them at least.
to_string_first :
    (n : ℕ)
    → n < 2 ^ 64
    → (c : ℕ) × (s : Text) × (to_string n ≡ c ∷ s) × IsDigit c × (digits_value 0 (c ∷ s) ≡ n)
unfolding to_string
to_string_first n h =
    let (c, s, p, d) = decimal_first 19 n [] (omega arith) in
    (c, s, p, d, rw p at (digits_value-decimal 20 n [] (omega arith) ∙ nothing_left n))
  where
    nothing_left : (m : ℕ) → digits_value m [] ≡ m
    nothing_left m = unfold digits_value in refl

signed_value-minus :
    (c n : ℕ) (s : Text)
    → IsDigit c
    → n < 2 ^ 63
    → digits_value 0 (c ∷ s) ≡ suc n
    → signed_value (2 ^ 63) (skip_space (45 ∷ (c ∷ s))) ≡ some (negsuc n)
unfolding signed_value skip_space
signed_value-minus c n s d h e = ground arith

abbrev pub IsInt64 : ℤ → Type 0
IsInt64 (pos n) = n < 2 ^ 63
IsInt64 (negsuc n) = n < 2 ^ 63

-- `stoll` reads back what `to_string` printed for a 64-bit number.
pub stoll-int_to_string : (z : ℤ) → IsInt64 z → stoll (int_to_string z) ≡ some z
unfolding stoll int_to_string
stoll-int_to_string (pos n) h =
    let (c, s, p, d, e) = to_string_first n (omega arith) in
    rw p (signed_value-digit (2 ^ 63) c n s d h e)
stoll-int_to_string (negsuc n) h =
    let (c, s, p, d, e) = to_string_first (suc n) (omega arith) in
    rw p (signed_value-minus c n s d h e)

pub int_to_string_some : (z : ℤ) → IsInt64 z → 1 ≤ length (int_to_string z)
unfolding int_to_string
int_to_string_some (pos n) h =
    let (c, s, p, d, e) = to_string_first n (omega arith) in rw p (omega arith)
int_to_string_some (negsuc n) h = omega arith
