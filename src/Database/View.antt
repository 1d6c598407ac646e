-- ===== src/Database/View.antt =====
-- What a client can see of the store: the value at a key that has not expired. The commands on
-- strings and on times to live, against this view.
use my_redis.Prelude.{
  ℕ, ◌+◌, ◌*◌, ◌≤◌, ◌≡◌, Option, none, some, List, ◌&&◌, ltb, is_some, ◌==◌, if◌then◌else◌, arith,
}
use my_redis.Prelude.Int.{pos}
use my_redis.Prelude.Text.{Text, text_eq, text_beq_iff}
use my_redis.Dict.{find}
use my_redis.Dict.Laws.{find-assign, find-erase}
use my_redis.Database.{
  Database, is_expired_unlocked, remove_expired_unlocked, set, get, expire, persist, deadline_after,
  nanos,
}

pub data Value : Type 0 where
  string : Text → Value
  list : List Text → Value

abbrev pub value_of : Option Text → Option (List Text) → Option Value
value_of (some s) l = some (string s)
value_of none (some l) = some (list l)
value_of none none = none

-- The value at a key, and nothing where its deadline has passed.
unfoldable pub view : ℕ → Text → Database → Option Value
unfolding is_expired_unlocked
view now key db =
    if is_expired_unlocked now key db
    then none
    else value_of (find key db.store) (find key db.list_store)

abbrev pub string_part : Option Value → Option Text
string_part (some (string s)) = some s
string_part _ = none

-- GET returns the string that the view shows, and none where the view shows a list or nothing, and
-- leaves the view of every key at that instant and at all later ones.
pub get-view :
    (now later : ℕ) (key j : Text) (db : Database)
    → now ≤ later
    → ((get now key db).0 ≡ string_part (view now key db))
      × (view later j (get now key db).1 ≡ view later j db)
unfolding get view
get-view now later key j db h = (
  ground arith,
  ground (
    arith,
    find-erase key j db.store,
    find-erase key j db.list_store,
    find-erase key j db.expiry,
    text_beq_iff key j,
  ),
)

-- After SET the view shows the value at the key, at every instant, and every other key as before.
pub view-set :
    (now : ℕ) (key value j : Text) (db : Database)
    → view now j (set key value db) ≡ (if key == j then some (string value) else view now j db)
unfolding set view
view-set now key value j db = ground (
  arith,
  find-assign key j value db.store,
  find-erase key j db.list_store,
  find-erase key j db.expiry,
  text_beq_iff key j,
)

-- EXPIRE with seconds that are not negative succeeds exactly on a key that the view shows; from
-- that instant on the key is seen exactly until the deadline, and every other key as before.
pub view-expire :
    (now later : ℕ) (key j : Text) (seconds : ℕ) (db : Database)
    → now ≤ later
    → ((expire now key (pos seconds) db).0 ≡ is_some (view now key db))
      × (view later j (expire now key (pos seconds) db).1 ≡ (
          if key == j && is_some (view now key db)
          then if ltb later (now + seconds * nanos)
            then value_of (find key db.store) (find key db.list_store)
            else none
          else view later j db))
unfolding expire view
view-expire now later key j seconds db h = (
  ground arith,
  ground (
    arith,
    find-erase key j db.store,
    find-erase key j db.list_store,
    find-erase key j db.expiry,
    find-assign key j (deadline_after now (pos seconds)) db.expiry,
    text_beq_iff key j,
  ),
)

-- Removing an expired key takes it from the view, and no other.
pub view-remove :
    (now : ℕ) (key j : Text) (db : Database)
    → view now j (remove_expired_unlocked key db) ≡ (if key == j then none else view now j db)
unfolding view remove_expired_unlocked
view-remove now key j db = ground (
  arith,
  find-erase key j db.store,
  find-erase key j db.list_store,
  find-erase key j db.expiry,
  text_beq_iff key j,
)

-- PERSIST succeeds exactly on a key that the view shows and that has a deadline; a key that the
-- view shows is then seen at that instant and all later ones, and every other key as before.
pub view-persist :
    (now later : ℕ) (key j : Text) (db : Database)
    → now ≤ later
    → ((persist now key db).0 ≡ (is_some (view now key db) && is_some (find key db.expiry)))
      × (view later j (persist now key db).1
          ≡ (if key == j && is_some (view now key db) then view now key db else view later j db))
unfolding persist view
view-persist now later key j db h = (
  ground arith,
  ground (
    arith,
    find-erase key j db.store,
    find-erase key j db.list_store,
    find-erase key j db.expiry,
    text_beq_iff key j,
  ),
)
