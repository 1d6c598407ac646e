-- ===== src/Database/Lists.antt =====
-- The list commands of src/database/database.cpp. A deque is the list of its elements, front first.
use my_redis.Prelude.{
  ℕ, zero, suc, ◌+◌, ◌-◌, Option, none, some, List, [], ◌∷◌, ◌++◌, ◌||◌, not, if◌then◌else◌,
  get_elem?, length,
}
use my_redis.Prelude.Int.{ℤ, pos, negsuc, pos_part, ◌+ℤ◌, ltb_ℤ, to_int}
use my_redis.Prelude.Text.{Text, text_eq}
use my_redis.Dict.{Dict, find, contains, assign, erase}
use my_redis.Database.{Database, is_expired_unlocked, remove_expired_unlocked}

-- The lazy expiry with which every list command begins.
unfoldable pub drop_if_expired : ℕ → Text → Database → Database
unfolding is_expired_unlocked remove_expired_unlocked
drop_if_expired now key db =
    if is_expired_unlocked now key db then remove_expired_unlocked key db else db

-- `list_store_[key]`, which makes an empty list where there is none
unfoldable pub list_at : Text → Dict Text (List Text) → List Text
list_at key m = elim (find key m) [ none ↦ [] | some l ↦ l ]

unfoldable pub push_front_all : List Text → List Text → List Text
push_front_all [] l = l
push_front_all (val ∷ values) l = push_front_all values (val ∷ l)

unfoldable pub push_back_all : List Text → List Text → List Text
push_back_all [] l = l
push_back_all (val ∷ values) l = push_back_all values (l ++ (val ∷ []))

-- The result -1 is WRONGTYPE.
unfoldable pub push_with : (List Text → List Text) → Text → Database → ℤ × Database
unfolding list_at
push_with push key db =
    if contains key db.store
    then (negsuc 0, db)
    else let l = push (list_at key db.list_store) in
      (to_int (length l), record db { list_store = assign key l db.list_store })

unfoldable pub lpush : ℕ → Text → List Text → Database → ℤ × Database
unfolding drop_if_expired push_front_all push_with
lpush now key values db = push_with (push_front_all values) key (drop_if_expired now key db)

unfoldable pub rpush : ℕ → Text → List Text → Database → ℤ × Database
unfolding drop_if_expired push_back_all push_with
rpush now key values db = push_with (push_back_all values) key (drop_if_expired now key db)

unfoldable pub forget_list : Text → Database → Database
forget_list key db = record db {
  list_store = erase key db.list_store;
  expiry = erase key db.expiry;
}

-- What is left after a pop: an empty list goes, with its deadline.
unfoldable pub keep_list : Text → List Text → Database → Database
unfolding forget_list
keep_list key [] db = forget_list key db
keep_list key (x ∷ xs) db = record db { list_store = assign key (x ∷ xs) db.list_store }

unfoldable pub pop_front : List Text → Option (Text × List Text)
pop_front [] = none
pop_front (x ∷ xs) = some (x, xs)

unfoldable pub back_of : Text → List Text → Text × List Text
back_of x [] = (x, [])
back_of x (y ∷ ys) = let (val, init) = back_of y ys in (val, x ∷ init)

unfoldable pub pop_back : List Text → Option (Text × List Text)
unfolding back_of
pop_back [] = none
pop_back (x ∷ xs) = some (back_of x xs)

unfoldable pub pop_with :
    (List Text → Option (Text × List Text)) → ℕ → Text → Database → Option Text × Database
unfolding is_expired_unlocked remove_expired_unlocked forget_list keep_list
pop_with pop now key db =
    if is_expired_unlocked now key db
    then (none, remove_expired_unlocked key db)
    else elim (find key db.list_store) [
      | none ↦ (none, db)
      | some l ↦ elim (pop l) [
        | none ↦ (none, forget_list key db)
        | some (val, rest) ↦ (some val, keep_list key rest db)
      ]
    ]

unfoldable pub lpop : ℕ → Text → Database → Option Text × Database
unfolding pop_front pop_with
lpop = pop_with pop_front

unfoldable pub rpop : ℕ → Text → Database → Option Text × Database
unfolding pop_back pop_with
rpop = pop_with pop_back

-- `if (i < 0) i = len + i`
unfoldable pub from_end : ℤ → ℤ → ℤ
from_end len i = if ltb_ℤ i (pos 0) then len +ℤ i else i

-- `start`, counted from the front and not below 0
unfoldable pub start_index : ℤ → ℤ → ℤ
unfolding from_end
start_index len start = let i = from_end len start in if ltb_ℤ i (pos 0) then pos 0 else i

-- `for (i = start; i <= stop; ++i)` over `rounds` values of i; an index out of range reads nothing.
unfoldable pub elements : List Text → ℕ → ℕ → List Text
elements l i zero = []
elements l i (suc rounds) =
    let rest = elements l (i + 1) rounds in elim (get_elem? l i) [ none ↦ rest | some x ↦ x ∷ rest ]

unfoldable pub slice : List Text → ℤ → ℤ → List Text
unfolding from_end start_index elements
slice l start stop =
    let len = to_int (length l) in
    let start = start_index len start in
    let stop = from_end len stop in
    let stop = if ltb_ℤ stop len then stop else len +ℤ negsuc 0 in
    if ltb_ℤ stop start || not (ltb_ℤ start len)
    then []
    else elements l (pos_part start) (pos_part stop - pos_part start + 1)

unfoldable pub lrange : ℕ → Text → ℤ → ℤ → Database → List Text × Database
unfolding is_expired_unlocked remove_expired_unlocked slice
lrange now key start stop db =
    if is_expired_unlocked now key db
    then ([], remove_expired_unlocked key db)
    else (elim (find key db.list_store) [ none ↦ [] | some l ↦ slice l start stop ], db)

unfoldable pub llen : ℕ → Text → Database → ℤ × Database
unfolding is_expired_unlocked remove_expired_unlocked
llen now key db =
    if is_expired_unlocked now key db
    then (pos 0, remove_expired_unlocked key db)
    else if contains key db.store
    then (negsuc 0, db)
    else (elim (find key db.list_store) [ none ↦ pos 0 | some l ↦ to_int (length l) ], db)

unfoldable pub element : List Text → ℤ → Option Text
unfolding from_end
element l index =
    let len = to_int (length l) in
    let index = from_end len index in
    if ltb_ℤ index (pos 0) || not (ltb_ℤ index len) then none else get_elem? l (pos_part index)

unfoldable pub lindex : ℕ → Text → ℤ → Database → Option Text × Database
unfolding is_expired_unlocked remove_expired_unlocked element
lindex now key index db =
    if is_expired_unlocked now key db
    then (none, remove_expired_unlocked key db)
    else (elim (find key db.list_store) [ none ↦ none | some l ↦ element l index ], db)
