-- ===== src/Database/Counting.antt =====
-- KEYS, DBSIZE, EXISTS and DEL against the view.
use my_redis.Prelude.{
  ℕ, suc, ◌+◌, ◌≡◌, none, List, [], ◌∷◌, ◌++◌, true, false, ◌||◌, ◌&&◌, not, is_some, ◌==◌,
  if◌then◌else◌, arith, refl, length, length-append, Bool-cases, inl, inr, ◌∙◌,
}
use my_redis.Prelude.Text.{Text, text_eq, text_beq_iff}
use my_redis.Dict.{Dict, find, erase}
use my_redis.Dict.Laws.{find-erase}
use my_redis.Database.{
  Database, is_expired_unlocked, key_exists_unlocked, remove_expired_unlocked, live_keys, keys,
  count_live, dbsize, exists, del,
}
use my_redis.Database.View.{view, view-remove}
use my_redis.PubSub.Sets.{member}

count_live-length :
    {V : Type 0} (now : ℕ) (db : Database) (m : Dict Text V) (count : ℕ)
    → count_live now db m count ≡ count + length (live_keys now db m)
unfolding count_live live_keys
count_live-length now db [] count = omega arith
count_live-length now db ((key, v) ∷ m) count =
    ground (arith, count_live-length now db m count, count_live-length now db m (count + 1))

-- DBSIZE answers the number of keys that KEYS lists, and leaves the same database.
pub dbsize-keys :
    (now : ℕ) (db : Database)
    → ((dbsize now db).0 ≡ length (keys now db).0) × ((dbsize now db).1 ≡ (keys now db).1)
unfolding dbsize keys
dbsize-keys now db = (
  rw (length-append, count_live-length now db db.store 0)
      (omega
        (arith, count_live-length now db db.list_store (0 + length (live_keys now db db.store)))),
  refl,
)

member-append : (j : Text) (xs ys : List Text) → member j (xs ++ ys) ≡ (member j xs || member j ys)
unfolding member
member-append j [] ys = refl
member-append j (x ∷ xs) ys = ground (arith, member-append j xs ys)

member-live_keys :
    {V : Type 0} (now : ℕ) (db : Database) (j : Text) (m : Dict Text V)
    → member j (live_keys now db m) ≡ (is_some (find j m) && not (is_expired_unlocked now j db))
unfolding member live_keys find
member-live_keys now db j [] = refl
member-live_keys now db j ((key, v) ∷ m) =
    ground (arith, member-live_keys now db j m, text_beq_iff key j)

-- KEYS lists exactly the keys that the view shows.
pub member-keys :
    (now : ℕ) (j : Text) (db : Database) → member j (keys now db).0 ≡ is_some (view now j db)
unfolding keys view
member-keys now j db = ground (
  arith,
  member-append j (live_keys now db db.store) (live_keys now db db.list_store),
  member-live_keys now db j db.store,
  member-live_keys now db j db.list_store,
)

-- How many of the keys the view shows, a repeated key as often as it is named.
unfoldable pub shown_count : ℕ → Database → List Text → ℕ
shown_count now db [] = 0
shown_count now db (key ∷ ks) =
    let rest = shown_count now db ks in if is_some (view now key db) then suc rest else rest

shown_count-remove :
    (now : ℕ) (key : Text) (db : Database) (ks : List Text)
    → view now key db ≡ none
    → shown_count now (remove_expired_unlocked key db) ks ≡ shown_count now db ks
unfolding shown_count
shown_count-remove now key db [] e = refl
shown_count-remove now key db (k ∷ ks) e =
    ground (arith, shown_count-remove now key db ks e, view-remove now key k db, text_beq_iff key k)

expired-view :
    (now : ℕ) (key : Text) (db : Database)
    → is_expired_unlocked now key db ≡ true
    → view now key db ≡ none
unfolding view
expired-view now key db e = ground arith

live-view :
    (now : ℕ) (key : Text) (db : Database)
    → is_expired_unlocked now key db ≡ false
    → is_some (view now key db) ≡ key_exists_unlocked key db
unfolding view key_exists_unlocked
live-view now key db e = ground arith

-- EXISTS counts the named keys that the view shows, a repeated key as often as it is named.
pub exists_lem :
    (now : ℕ) (ks : List Text) (db : Database) → (exists now ks db).0 ≡ shown_count now db ks
unfolding exists shown_count
exists_lem now [] db = refl
exists_lem now (key ∷ ks) db = elim (Bool-cases (is_expired_unlocked now key db)) [
  | inl e ↦
      rw (e, expired-view now key db e)
        (exists_lem now ks (remove_expired_unlocked key db)
          ∙ shown_count-remove now key db ks (expired-view now key db e))
  | inr e ↦ rw e (ground (arith, exists_lem now ks db, live-view now key db e))
]

view-erase_both :
    (now : ℕ) (key j : Text) (db : Database)
    → key_exists_unlocked key db ≡ false
    → view now j (record db { store = erase key db.store; list_store = erase key db.list_store })
      ≡ (if key == j then none else view now j db)
unfolding view key_exists_unlocked is_expired_unlocked
view-erase_both now key j db e =
    ground (arith, find-erase key j db.store, find-erase key j db.list_store, text_beq_iff key j)

-- After DEL the view shows none of the named keys, and every other key as before.
pub view-del :
    (now : ℕ) (j : Text) (ks : List Text) (db : Database)
    → view now j (del ks db).1 ≡ (if member j ks then none else view now j db)
unfolding del member
view-del now j [] db = refl
view-del now j (key ∷ ks) db = elim (Bool-cases (key_exists_unlocked key db)) [
  | inl e ↦ rw e (
      view-del now j ks (remove_expired_unlocked key db) ∙ ground (arith, view-remove now key j db))
  | inr e ↦ rw e (view-del now j ks _ ∙ ground (arith, view-erase_both now key j db e))
]
