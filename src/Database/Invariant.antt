-- ===== src/Database/Invariant.antt =====
-- The invariant of the store that include/database/database.h states: a key is in one of the two
-- maps at most, a deadline belongs to a key that exists, and no empty list is kept.
use my_redis.Prelude.{
  ℕ, ◌≡◌, ◌≢◌, Option, none, some, List, [], ◌∷◌, true, false, ◌||◌, is_some, arith,
}
use my_redis.Prelude.Text.{Text, text_eq, text_beq_iff}
use my_redis.Database.Closure.{IsClosed, run-keeps}
use my_redis.Database.Operations.{Operation, run}
use my_redis.Dict.{find, assign, erase}
use my_redis.Dict.Laws.{dict_laws}
use my_redis.Database.{Database, empty_database, key_exists_unlocked, remove_expired_unlocked, set}
use my_redis.Database.Lists.{forget_list}

-- What the three maps hold at one key.
pub record IsConsistent (str : Option Text) (l : Option (List Text)) (deadline : Option ℕ)
    : Type 0 where
  pub apart : is_some str ≡ true → l ≡ none
  pub known : is_some deadline ≡ true → (is_some str || is_some l) ≡ true
  pub filled : l ≢ some []

abbrev pub IsWellFormed : Database → Type 0
IsWellFormed db =
    (k : Text) → IsConsistent (find k db.store) (find k db.list_store) (find k db.expiry)

remove-IsWellFormed :
    (key : Text) (db : Database) → IsWellFormed db → IsWellFormed (remove_expired_unlocked key db)
unfolding remove_expired_unlocked
remove-IsWellFormed key db h k = simp dict_laws (ground (arith, h k, text_beq_iff key k))

set-IsWellFormed :
    (key value : Text) (db : Database) → IsWellFormed db → IsWellFormed (set key value db)
unfolding set
set-IsWellFormed key value db h k = simp dict_laws (ground (arith, h k, text_beq_iff key k))

put_list-IsWellFormed :
    (key x : Text) (xs : List Text) (db : Database)
    → find key db.store ≡ none
    → IsWellFormed db
    → IsWellFormed (record db { list_store = assign key (x ∷ xs) db.list_store })
put_list-IsWellFormed key x xs db e h k = simp dict_laws (ground (arith, h k, text_beq_iff key k))

erase_both-IsWellFormed :
    (key : Text) (db : Database)
    → key_exists_unlocked key db ≡ false
    → IsWellFormed db
    → IsWellFormed (record db { store = erase key db.store; list_store = erase key db.list_store })
unfolding key_exists_unlocked
erase_both-IsWellFormed key db e h k = simp dict_laws (ground (arith, h k, text_beq_iff key k))

assign_deadline-IsWellFormed :
    (key : Text) (deadline : ℕ) (db : Database)
    → key_exists_unlocked key db ≡ true
    → IsWellFormed db
    → IsWellFormed (record db { expiry = assign key deadline db.expiry })
unfolding key_exists_unlocked
assign_deadline-IsWellFormed key deadline db e h k =
    simp dict_laws (ground (arith, h k, text_beq_iff key k))

erase_deadline-IsWellFormed :
    (key : Text) (db : Database)
    → IsWellFormed db
    → IsWellFormed (record db { expiry = erase key db.expiry })
erase_deadline-IsWellFormed key db h k = simp dict_laws (ground (arith, h k, text_beq_iff key k))

forget-IsWellFormed :
    (key : Text) (l : List Text) (db : Database)
    → find key db.list_store ≡ some l
    → IsWellFormed db
    → IsWellFormed (forget_list key db)
unfolding forget_list
forget-IsWellFormed key l db e h k = simp dict_laws (ground (arith, h k, text_beq_iff key k))

shorten-IsWellFormed :
    (key x : Text) (xs l : List Text) (db : Database)
    → find key db.list_store ≡ some l
    → IsWellFormed db
    → IsWellFormed (record db { list_store = assign key (x ∷ xs) db.list_store })
shorten-IsWellFormed key x xs l db e h k = simp dict_laws (ground (arith, h k, text_beq_iff key k))

pub IsWellFormed-empty : IsWellFormed empty_database
unfolding find
IsWellFormed-empty k = ground arith

IsWellFormed-closed : IsClosed IsWellFormed
IsWellFormed-closed = record {
  empty = IsWellFormed-empty;
  remove = remove-IsWellFormed;
  set = set-IsWellFormed;
  forget = forget-IsWellFormed;
  shorten = shorten-IsWellFormed;
  put_list = put_list-IsWellFormed;
  erase_both = erase_both-IsWellFormed;
  assign_deadline = assign_deadline-IsWellFormed;
  erase_deadline = erase_deadline-IsWellFormed;
}

-- From a well-formed database, every run of operations, with any instants, leaves a well-formed
-- one.
pub run-IsWellFormed :
    (ops : List Operation) (db : Database) → IsWellFormed db → IsWellFormed (run ops db)
run-IsWellFormed = run-keeps IsWellFormed-closed
