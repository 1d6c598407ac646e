-- ===== src/Database/Ranges.antt =====
-- The reads of a range and of one element of a list, against the view.
use my_redis.Prelude.{
  ℕ, zero, suc, take-all, ◌+◌, ◌-◌, ◌^◌, ◌≤◌, ◌<◌, ◌≡◌, Option, none, some, List, [], ◌∷◌, arith,
  refl, take, drop, get_elem?, length, Option-cases, inl, inr, ◌∙◌, sym,
}
use native.Mathlib.Numerals.{add-one}
use my_redis.Prelude.Int.{ℤ, pos, negsuc, pos_part, ◌+ℤ◌, to_int, to_int-fits}
use my_redis.Prelude.Text.{Text, text_eq}
use my_redis.Database.{Database}
use my_redis.Database.Lists.{elements, slice, start_index, element, from_end, lrange, lindex}
use my_redis.Database.View.{list, view}

drop-none : (l : List Text) (i : ℕ) → get_elem? l i ≡ none → (drop i l ≡ []) × (drop (suc i) l ≡ [])
drop-none [] zero e = (refl, refl)
drop-none [] (suc i) e = (refl, refl)
drop-none (x ∷ l) zero e = cc
drop-none (x ∷ l) (suc i) e = drop-none l i e

drop-some :
    (l : List Text) (i : ℕ) (x : Text) → get_elem? l i ≡ some x → drop i l ≡ x ∷ drop (suc i) l
drop-some [] i x e = cc
drop-some (y ∷ l) zero x e = ground arith
drop-some (y ∷ l) (suc i) x e = drop-some l i x e

take_nil : (n : ℕ) → take {A = Text} n [] ≡ []
take_nil zero = refl
take_nil (suc n) = refl

-- The loop over the indices reads a segment of the list.
elements-take-drop : (l : List Text) (i n : ℕ) → elements l i n ≡ take n (drop i l)
unfolding elements
elements-take-drop l i zero = refl
elements-take-drop l i (suc n) = elim (Option-cases (get_elem? l i)) [
  | inl e ↦
      let (p, q) = drop-none l i e in
      rw (elements, e, elements-take-drop l (i + 1) n, p, add-one, q) (take_nil n)
  | inr (x, e) ↦ rw (elements, e, elements-take-drop l (i + 1) n, drop-some l i x e, add-one)
]

abbrev pub one_or_none : Option Text → List Text
one_or_none none = []
one_or_none (some x) = x ∷ []

elements_one : (l : List Text) (i n : ℕ) → n ≡ 1 → elements l i n ≡ one_or_none (get_elem? l i)
unfolding elements
elements_one l i zero e = absurd (omega arith)
elements_one l i (suc zero) e = ground arith
elements_one l i (suc (suc n)) e = absurd (omega arith)

-- For every index, negative ones included, the range from it to itself has the element that
-- LINDEX finds there, and nothing where LINDEX finds nothing.
slice_one :
    (l : List Text) (index : ℤ)
    → length l < 2 ^ 31
    → slice l index index ≡ one_or_none (element l index)
unfolding slice element
slice_one l index h =
    let i = from_end (to_int (length l)) index in
    ground (
      arith,
      to_int-fits (length l) h,
      elements_one l (pos_part i) (pos_part i - pos_part i + 1) (omega arith),
    )

length-drop : (n : ℕ) (xs : List Text) → length (drop n xs) ≡ length xs - n
length-drop zero xs = omega arith
length-drop (suc n) [] = omega arith
length-drop (suc n) (x ∷ xs) = omega (arith, length-drop n xs)

take_enough : (n m : ℕ) (xs : List Text) → length xs ≤ n → length xs ≤ m → take n xs ≡ take m xs
take_enough n m xs p q = take-all n xs p ∙ sym (take-all m xs q)

-- Indices that are not negative cut a segment, up to the end of the list.
pub slice-pos :
    (l : List Text) (start stop : ℕ)
    → length l < 2 ^ 31
    → slice l (pos start) (pos stop) ≡ take (stop + 1 - start) (drop start l)
unfolding slice from_end ◌+ℤ◌
slice-pos l start stop h = ground (
  arith,
  to_int-fits (length l) h,
  elements-take-drop l start (stop - start + 1),
  elements-take-drop l start (length l - 1 - start + 1),
  length-drop start l,
  take_enough (stop + 1 - start) (length l - 1 - start + 1) (drop start l),
  take_enough (stop + 1 - start) 0 (drop start l),
)

start_index-negsuc :
    (len m : ℕ) → start_index (pos len) (negsuc m) ≡ start_index (pos len) (pos (len - suc m))
unfolding start_index ◌+ℤ◌
start_index-negsuc len m = ground arith

slice-negsuc_start :
    (l : List Text) (m : ℕ) (stop : ℤ)
    → length l < 2 ^ 31
    → slice l (negsuc m) stop ≡ slice l (pos (length l - suc m)) stop
unfolding slice
slice-negsuc_start l m stop h = rw (to_int-fits (length l) h, start_index-negsuc (length l) m)

slice-negsuc_stop :
    (l : List Text) (start m : ℕ)
    → length l < 2 ^ 31
    → slice l (pos start) (negsuc m) ≡ take (length l - m - start) (drop start l)
unfolding slice from_end ◌+ℤ◌
slice-negsuc_stop l start m h = ground (
  arith,
  to_int-fits (length l) h,
  elements-take-drop l start (length l - suc m - start + 1),
  length-drop start l,
  take_enough (length l - m - start) 0 (drop start l),
)

-- The first index of a range and the one behind its last, for a list: a negative index counts from
-- the end.
abbrev pub first_index : List Text → ℤ → ℕ
first_index l (pos n) = n
first_index l (negsuc m) = length l - suc m

abbrev pub end_index : List Text → ℤ → ℕ
end_index l (pos n) = n + 1
end_index l (negsuc m) = length l - m

slice-take-drop :
    (l : List Text) (start stop : ℤ)
    → length l < 2 ^ 31
    → slice l start stop
      ≡ take (end_index l stop - first_index l start) (drop (first_index l start) l)
slice-take-drop l (pos a) (pos b) h = slice-pos l a b h
slice-take-drop l (pos a) (negsuc m) h = slice-negsuc_stop l a m h
slice-take-drop l (negsuc k) (pos b) h =
    slice-negsuc_start l k (pos b) h ∙ slice-pos l (length l - suc k) b h
slice-take-drop l (negsuc k) (negsuc m) h =
    slice-negsuc_start l k (negsuc m) h ∙ slice-negsuc_stop l (length l - suc k) m h

-- LRANGE on a list that the view shows, of fewer than 2^31 elements, returns the segment from the
-- first index to the one before the end index, where negative indices count from the end; it
-- leaves the database alone.
pub lrange_lem :
    (now : ℕ) (key : Text) (start stop : ℤ) (db : Database) (l : List Text)
    → length l < 2 ^ 31
    → view now key db ≡ some (list l)
    → lrange now key start stop db
      ≡ (take (end_index l stop - first_index l start) (drop (first_index l start) l), db)
unfolding lrange view
lrange_lem now key start stop db l h e = ground (arith, slice-take-drop l start stop h)

-- The range from an index to itself has the element that LINDEX returns for it, and is empty where
-- LINDEX returns none, for negative indices and those out of range too, where the view shows a list
-- of fewer than 2^31 elements.
pub lrange-lindex :
    (now : ℕ) (key : Text) (index : ℤ) (db : Database) (l : List Text)
    → length l < 2 ^ 31
    → view now key db ≡ some (list l)
    → (lrange now key index index db).0 ≡ one_or_none (lindex now key index db).0
unfolding lrange lindex view
lrange-lindex now key index db l h e = ground (arith, slice_one l index h)
