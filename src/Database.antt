-- ===== src/Database.antt =====
-- The in-memory store: include/database/database.h and src/database/database.cpp. Each method
-- runs under the lock, so it is a function from the state to its result and the next state.
-- A time point is a number of nanoseconds of the steady clock; the readings of the clock inside
-- one call give one instant `now`, but in `ttl`, where the second reading is `later`.
pub mod Lists
mod Tests
pub mod Operations
pub mod Closure
pub mod Invariant
pub mod Distinct
pub mod View
pub mod Expiry
pub mod ExpiryThread
pub mod Counting
pub mod Ranges
pub mod ListView
use my_redis.Prelude.{
  ℕ, ◌+◌, ◌-◌, ◌*◌, ◌/◌, ◌^◌, Option, none, some, List, [], ◌∷◌, ◌++◌, Bool, true, false, ◌||◌, leb,
  if◌then◌else◌, take, length,
}
use my_redis.Prelude.Int.{ℤ, pos, negsuc, pos_part, neg_part, to_int}
use my_redis.Prelude.Text.{Text, text_eq}
use my_redis.Dict.{Dict, find, contains, assign, erase}

pub data KeyType : Type 0 where
  none_type string_type list_type : KeyType

pub record Database : Type 0 where
  pub store : Dict Text Text
  pub list_store : Dict Text (List Text)
  pub expiry : Dict Text ℕ

pub record DatabaseSnapshot : Type 0 where
  pub store : Dict Text Text
  pub list_store : Dict Text (List Text)
  pub expiry : Dict Text ℕ

abbrev pub empty_database : Database
empty_database = record { store = []; list_store = []; expiry = [] }

unfoldable pub key_type_unlocked : Text → Database → KeyType
key_type_unlocked key db =
    if contains key db.store
    then string_type
    else if contains key db.list_store
    then list_type
    else none_type

unfoldable pub key_exists_unlocked : Text → Database → Bool
key_exists_unlocked key db = contains key db.store || contains key db.list_store

unfoldable pub is_expired_unlocked : ℕ → Text → Database → Bool
is_expired_unlocked now key db = elim (find key db.expiry) [
  | none ↦ false
  | some deadline ↦ leb deadline now
]

unfoldable pub remove_expired_unlocked : Text → Database → Database
remove_expired_unlocked key db = record {
  store = erase key db.store;
  list_store = erase key db.list_store;
  expiry = erase key db.expiry;
}

unfoldable pub set : Text → Text → Database → Database
set key value db = record {
  store = assign key value db.store;
  list_store = erase key db.list_store;
  expiry = erase key db.expiry;
}

unfoldable pub get : ℕ → Text → Database → Option Text × Database
unfolding is_expired_unlocked remove_expired_unlocked
get now key db =
    if is_expired_unlocked now key db
    then (none, remove_expired_unlocked key db)
    else (find key db.store, db)

-- `erase` on a map returns 1 where the key was there: `removed > 0` is that one of them had it.
unfoldable pub del : List Text → Database → ℕ × Database
unfolding key_exists_unlocked remove_expired_unlocked
del [] db = (0, db)
del (key ∷ keys) db =
    let removed = key_exists_unlocked key db in
    let erased : Database = record db {
      store = erase key db.store;
      list_store = erase key db.list_store;
    } in
    let (count, after) =
      del keys (if removed then record erased { expiry = erase key db.expiry } else erased) in
    ((if removed then count + 1 else count), after)

unfoldable pub exists : ℕ → List Text → Database → ℕ × Database
unfolding is_expired_unlocked remove_expired_unlocked key_exists_unlocked
exists now [] db = (0, db)
exists now (key ∷ keys) db =
    let expired = is_expired_unlocked now key db in
    let (count, after) = exists now keys (if expired then remove_expired_unlocked key db else db) in
    ((if expired then count else if key_exists_unlocked key db then count + 1 else count), after)

-- The keys of a map that have not expired, and those that have: one pass of `keys` or `dbsize`.
unfoldable pub live_keys : {V : Type 0} → ℕ → Database → Dict Text V → List Text
live_keys now db [] = []
live_keys now db ((key, v) ∷ m) =
    let rest = live_keys now db m in if is_expired_unlocked now key db then rest else key ∷ rest

unfoldable pub expired_keys : {V : Type 0} → ℕ → Database → Dict Text V → List Text
expired_keys now db [] = []
expired_keys now db ((key, v) ∷ m) =
    let rest = expired_keys now db m in if is_expired_unlocked now key db then key ∷ rest else rest

unfoldable pub remove_all : List Text → Database → Database
unfolding remove_expired_unlocked
remove_all [] db = db
remove_all (key ∷ keys) db = remove_all keys (remove_expired_unlocked key db)

abbrev pub expired_in_both : ℕ → Database → List Text
expired_in_both now db = expired_keys now db db.store ++ expired_keys now db db.list_store

unfoldable pub keys : ℕ → Database → List Text × Database
keys now db = (
  live_keys now db db.store ++ live_keys now db db.list_store,
  remove_all (expired_in_both now db) db,
)

-- `dbsize` makes the same two passes as `keys` and counts.
unfoldable pub count_live : {V : Type 0} → ℕ → Database → Dict Text V → ℕ → ℕ
count_live now db [] count = count
count_live now db ((key, v) ∷ m) count =
    count_live now db m (if is_expired_unlocked now key db then count else count + 1)

unfoldable pub dbsize : ℕ → Database → ℕ × Database
dbsize now db = (
  count_live now db db.list_store (count_live now db db.store 0),
  remove_all (expired_in_both now db) db,
)

unfoldable pub flushdb : Database → Database
flushdb db = empty_database

abbrev pub nanos : ℕ
nanos = 10 ^ 9

-- A deadline before the clock's origin is 0 here: it lies in the past either way. `seconds` is an
-- int, so the sum is far below the range of the clock's 64-bit count.
unfoldable pub deadline_after : ℕ → ℤ → ℕ
deadline_after now seconds = now + pos_part seconds * nanos - neg_part seconds * nanos

unfoldable pub expire : ℕ → Text → ℤ → Database → Bool × Database
unfolding is_expired_unlocked remove_expired_unlocked key_exists_unlocked deadline_after
expire now key seconds db =
    if key_exists_unlocked key db
    then if is_expired_unlocked now key db
      then (false, remove_expired_unlocked key db)
      else (true, record db { expiry = assign key (deadline_after now seconds) db.expiry })
    else (false, db)

-- `duration_cast<seconds>(deadline - later)` cuts towards zero.
unfoldable pub seconds_left : ℕ → ℕ → ℤ
seconds_left deadline later =
    if leb later deadline
    then to_int ((deadline - later) / nanos)
    else let past = (later - deadline) / nanos in if leb 1 past then negsuc (past - 1) else pos 0

unfoldable pub ttl : ℕ → ℕ → Text → Database → ℤ × Database
unfolding is_expired_unlocked remove_expired_unlocked key_exists_unlocked seconds_left
ttl now later key db =
    if key_exists_unlocked key db
    then if is_expired_unlocked now key db then (negsuc 1, remove_expired_unlocked key db) else (
      elim (find key db.expiry) [ none ↦ negsuc 0 | some deadline ↦ seconds_left deadline later ],
      db,
    )
    else (negsuc 1, db)

unfoldable pub persist : ℕ → Text → Database → Bool × Database
unfolding is_expired_unlocked remove_expired_unlocked key_exists_unlocked
persist now key db =
    if key_exists_unlocked key db
    then if is_expired_unlocked now key db
      then (false, remove_expired_unlocked key db)
      else (contains key db.expiry, record db { expiry = erase key db.expiry })
    else (false, db)

abbrev pub max_sample : ℕ
max_sample = 20

-- Of the sampled entries, the keys whose deadline has passed.
unfoldable pub to_delete : ℕ → List (Text × ℕ) → List Text
to_delete now [] = []
to_delete now ((key, deadline) ∷ m) =
    let rest = to_delete now m in if leb deadline now then key ∷ rest else rest

-- One round of `expiry_loop`, from the lock to its release.
unfoldable pub expiry_scan : ℕ → Database → Database
unfolding to_delete remove_all
expiry_scan now db = remove_all (to_delete now (take max_sample db.expiry)) db

unfoldable pub get_snapshot : Database → DatabaseSnapshot
get_snapshot db = record { store = db.store; list_store = db.list_store; expiry = db.expiry }

unfoldable pub load_snapshot : DatabaseSnapshot → Database
load_snapshot snap = record {
  store = snap.store;
  list_store = snap.list_store;
  expiry = snap.expiry;
}
