-- ===== src/Database/ListView.antt =====
-- The list commands against the view: pushes, pops and the reads of a range or one element.
use my_redis.Prelude.{
  ℕ, ◌≡◌, Option, none, some, List, [], ◌∷◌, ◌++◌, arith, refl, length, ◌∙◌, sym,
}
use mathlib.Core.List.{append_assoc, append-nil}
use my_redis.Prelude.Int.{negsuc, to_int}
use my_redis.Prelude.Text.{Text, text_eq, text_beq_iff}
use my_redis.Dict.Laws.{find-assign, find-erase}
use my_redis.Database.{Database}
use my_redis.Database.Lists.{
  drop_if_expired, push_front_all, push_back_all, push_with, lpush, rpush, keep_list, pop_with,
  pop_front, pop_back, back_of, lpop, rpop,
}
use my_redis.Database.Invariant.{IsWellFormed}
use my_redis.Database.View.{Value, string, list, view}

push_back_all-append : (values l : List Text) → push_back_all values l ≡ l ++ values
unfolding push_back_all
push_back_all-append [] l = sym (append-nil l)
push_back_all-append (v ∷ values) l =
    push_back_all-append values (l ++ (v ∷ [])) ∙ append_assoc l (v ∷ []) values

-- The values in the order in which they come to stand before the list.
unfoldable pub stacked : List Text → List Text
stacked [] = []
stacked (v ∷ values) = stacked values ++ (v ∷ [])

push_front_all-append : (values l : List Text) → push_front_all values l ≡ stacked values ++ l
unfolding push_front_all stacked
push_front_all-append [] l = refl
push_front_all-append (v ∷ values) l =
    push_front_all-append values (v ∷ l) ∙ sym (append_assoc (stacked values) (v ∷ []) l)

-- The list that a push finds, and none where there is a string.
abbrev pub list_part : Option Value → Option (List Text)
list_part none = some []
list_part (some (list l)) = some l
list_part (some (string s)) = none

push_view :
    (push : List Text → List Text) (now : ℕ) (key : Text) (db : Database) (l : List Text)
    → IsWellFormed db
    → list_part (view now key db) ≡ some l
    → ((push_with push key (drop_if_expired now key db)).0 ≡ to_int (length (push l)))
      × (view now key (push_with push key (drop_if_expired now key db)).1 ≡ some (list (push l)))
unfolding push_with drop_if_expired view
push_view push now key db l h e = (
  ground (
    arith,
    h key,
    find-erase key key db.store,
    find-erase key key db.list_store,
    text_beq_iff key key,
  ),
  ground (
    arith,
    h key,
    find-erase key key db.store,
    find-erase key key db.list_store,
    find-erase key key db.expiry,
    find-assign key key (push l) db.list_store,
    find-assign key key (push []) (drop_if_expired now key db).list_store,
    text_beq_iff key key,
  ),
)

-- RPUSH on a key that shows no string, in a well-formed database: the reply is the new length, and
-- the view shows the list with the values behind it, in their order.
pub rpush_lem :
    (now : ℕ) (key : Text) (values : List Text) (db : Database) (l : List Text)
    → IsWellFormed db
    → list_part (view now key db) ≡ some l
    → ((rpush now key values db).0 ≡ to_int (length (l ++ values)))
      × (view now key (rpush now key values db).1 ≡ some (list (l ++ values)))
unfolding rpush
rpush_lem now key values db l h e =
    rw (push_back_all-append values l) at (push_view (push_back_all values) now key db l h e)

-- LPUSH on a key that shows no string, in a well-formed database: the reply is the new length, and
-- the view shows the list with the values before it, the last value first.
pub lpush_lem :
    (now : ℕ) (key : Text) (values : List Text) (db : Database) (l : List Text)
    → IsWellFormed db
    → list_part (view now key db) ≡ some l
    → ((lpush now key values db).0 ≡ to_int (length (stacked values ++ l)))
      × (view now key (lpush now key values db).1 ≡ some (list (stacked values ++ l)))
unfolding lpush
lpush_lem now key values db l h e =
    rw (push_front_all-append values l) at (push_view (push_front_all values) now key db l h e)

-- A push of either kind on a key that shows a string answers -1 and changes nothing.
pub push_wrong_type :
    (now : ℕ) (key s : Text) (values : List Text) (db : Database)
    → view now key db ≡ some (string s)
    → (lpush now key values db ≡ (negsuc 0, db)) × (rpush now key values db ≡ (negsuc 0, db))
unfolding lpush rpush push_with drop_if_expired view
push_wrong_type now key s values db e = (ground arith, ground arith)

-- What a list shows as: an empty one as nothing.
abbrev pub shown : List Text → Option Value
shown [] = none
shown (x ∷ xs) = some (list (x ∷ xs))

keep_view :
    (now : ℕ) (key : Text) (rest l : List Text) (db : Database)
    → view now key db ≡ some (list l)
    → view now key (keep_list key rest db) ≡ shown rest
unfolding keep_list view
keep_view now key [] l db e =
    ground
      (arith, find-erase key key db.list_store, find-erase key key db.expiry, text_beq_iff key key)
keep_view now key (x ∷ xs) l db e =
    ground (arith, find-assign key key (x ∷ xs) db.list_store, text_beq_iff key key)

pop_view :
    (pop : List Text → Option (Text × List Text)) (now : ℕ) (key val : Text) (rest l : List Text)
    (db : Database)
    → pop l ≡ some (val, rest)
    → view now key db ≡ some (list l)
    → pop_with pop now key db ≡ (some val, keep_list key rest db)
unfolding pop_with view
pop_view pop now key val rest l db p e = ground arith

-- LPOP on a list that the view shows returns its first element; the view shows the rest, and
-- nothing once the list is empty.
pub lpop_lem :
    (now : ℕ) (key x : Text) (xs : List Text) (db : Database)
    → view now key db ≡ some (list (x ∷ xs))
    → ((lpop now key db).0 ≡ some x) × (view now key (lpop now key db).1 ≡ shown xs)
unfolding lpop pop_front
lpop_lem now key x xs db e =
    rw (pop_view pop_front now key x xs (x ∷ xs) db refl e)
      (refl, keep_view now key xs (x ∷ xs) db e)

back_of-append : (y x : Text) (xs : List Text) → back_of y (xs ++ (x ∷ [])) ≡ (x, y ∷ xs)
unfolding back_of
back_of-append y x [] = refl
back_of-append y x (z ∷ xs) = rw (back_of-append z x xs)

pop_back-append : (x : Text) (xs : List Text) → pop_back (xs ++ (x ∷ [])) ≡ some (x, xs)
unfolding pop_back
pop_back-append x [] = refl
pop_back-append x (y ∷ xs) = rw (back_of-append y x xs)

-- RPOP on a list that the view shows returns its last element; the view shows the elements before
-- it, and nothing once the list is empty.
pub rpop_lem :
    (now : ℕ) (key x : Text) (xs : List Text) (db : Database)
    → view now key db ≡ some (list (xs ++ (x ∷ [])))
    → ((rpop now key db).0 ≡ some x) × (view now key (rpop now key db).1 ≡ shown xs)
unfolding rpop
rpop_lem now key x xs db e =
    rw (pop_view pop_back now key x xs (xs ++ (x ∷ [])) db (pop_back-append x xs) e)
      (refl, keep_view now key xs (xs ++ (x ∷ [])) db e)
