-- ===== src/Database/Closure.antt =====
-- Properties of the store of src/database/database.cpp that its primitive changes keep, carried to
-- runs of operations.
use my_redis.Prelude.{
  ℕ, ◌≡◌, Option, none, some, List, [], ◌∷◌, ◌++◌, true, false, take, refl, Bool-cases,
  Option-cases, inl, inr,
}
use my_redis.Prelude.Int.{ℤ}
use my_redis.Prelude.Text.{Text, text_eq}
use my_redis.Dict.{find, assign, erase}
use my_redis.Database.{
  Database, empty_database, is_expired_unlocked, key_exists_unlocked, remove_expired_unlocked, set,
  get, del, exists, remove_all, expire, ttl, persist, keys, dbsize, flushdb, expiry_scan,
  expired_in_both, to_delete, max_sample,
}
use my_redis.Database.Lists.{
  drop_if_expired, list_at, push_front_all, push_back_all, push_with, forget_list, keep_list, lpush,
  rpush, pop_with, pop_front, pop_back, lpop, rpop, lrange, llen, lindex,
}
use my_redis.Database.Operations.{Operation, after, run}

-- The changes that the operations are made of, each under what its caller has tested.
pub record IsClosed (P : Database → Type 0) : Type 0 where
  pub empty : P empty_database
  pub remove : (key : Text) (db : Database) → P db → P (remove_expired_unlocked key db)
  pub set : (key value : Text) (db : Database) → P db → P (set key value db)
  pub forget :
      (key : Text) (l : List Text) (db : Database)
      → find key db.list_store ≡ some l
      → P db
      → P (forget_list key db)
  pub shorten :
      (key x : Text) (xs l : List Text) (db : Database)
      → find key db.list_store ≡ some l
      → P db
      → P (record db { list_store = assign key (x ∷ xs) db.list_store })
  pub put_list :
      (key x : Text) (xs : List Text) (db : Database)
      → find key db.store ≡ none
      → P db
      → P (record db { list_store = assign key (x ∷ xs) db.list_store })
  pub erase_both :
      (key : Text) (db : Database)
      → key_exists_unlocked key db ≡ false
      → P db
      → P (record db { store = erase key db.store; list_store = erase key db.list_store })
  pub assign_deadline :
      (key : Text) (deadline : ℕ) (db : Database)
      → key_exists_unlocked key db ≡ true
      → P db
      → P (record db { expiry = assign key deadline db.expiry })
  pub erase_deadline :
      (key : Text) (db : Database) → P db → P (record db { expiry = erase key db.expiry })

push_front_all-cons :
    (values l : List Text) (x : Text)
    → (y : Text) × (ys : List Text) × (push_front_all values (x ∷ l) ≡ y ∷ ys)
unfolding push_front_all
push_front_all-cons [] l x = (x, l, refl)
push_front_all-cons (v ∷ values) l x = push_front_all-cons values (x ∷ l) v

push_back_all-cons :
    (values l : List Text) (x : Text)
    → (y : Text) × (ys : List Text) × (push_back_all values (x ∷ l) ≡ y ∷ ys)
unfolding push_back_all
push_back_all-cons [] l x = (x, l, refl)
push_back_all-cons (v ∷ values) l x = push_back_all-cons values (l ++ (v ∷ [])) x

push_back_first :
    (l values : List Text) (v : Text)
    → (y : Text) × (ys : List Text) × (push_back_all (v ∷ values) l ≡ y ∷ ys)
unfolding push_back_all
push_back_first [] values v = push_back_all-cons values [] v
push_back_first (x ∷ l) values v = push_back_all-cons values (l ++ (v ∷ [])) x

module _ {P : Database → Type 0} (closed : IsClosed P) where
  keep_list-keeps :
      (key : Text) (rest l : List Text) (db : Database)
      → find key db.list_store ≡ some l
      → P db
      → P (keep_list key rest db)
  unfolding keep_list
  keep_list-keeps key [] l db e h = closed.forget key l db e h
  keep_list-keeps key (x ∷ xs) l db e h = closed.shorten key x xs l db e h

  drop-keeps : (now : ℕ) (key : Text) (db : Database) → P db → P (drop_if_expired now key db)
  unfolding drop_if_expired
  drop-keeps now key db h = elim (Bool-cases (is_expired_unlocked now key db)) [
    | inl e ↦ rw e (closed.remove key db h)
    | inr e ↦ rw e h
  ]

  get-keeps : (now : ℕ) (key : Text) (db : Database) → P db → P (get now key db).1
  unfolding get
  get-keeps now key db h = elim (Bool-cases (is_expired_unlocked now key db)) [
    | inl e ↦ rw e (closed.remove key db h)
    | inr e ↦ rw e h
  ]

  del-keeps : (ks : List Text) (db : Database) → P db → P (del ks db).1
  unfolding del
  del-keeps [] db h = h
  del-keeps (key ∷ ks) db h = elim (Bool-cases (key_exists_unlocked key db)) [
    | inl e ↦ rw e (del-keeps ks (remove_expired_unlocked key db) (closed.remove key db h))
    | inr e ↦ rw e (del-keeps ks _ (closed.erase_both key db e h))
  ]

  exists-keeps : (now : ℕ) (ks : List Text) (db : Database) → P db → P (exists now ks db).1
  unfolding exists
  exists-keeps now [] db h = h
  exists-keeps now (key ∷ ks) db h = elim (Bool-cases (is_expired_unlocked now key db)) [
    | inl e ↦ rw e (exists-keeps now ks _ (closed.remove key db h))
    | inr e ↦ rw e (exists-keeps now ks db h)
  ]

  remove_all-keeps : (ks : List Text) (db : Database) → P db → P (remove_all ks db)
  unfolding remove_all
  remove_all-keeps [] db h = h
  remove_all-keeps (key ∷ ks) db h =
      remove_all-keeps ks (remove_expired_unlocked key db) (closed.remove key db h)

  expire-keeps :
      (now : ℕ) (key : Text) (seconds : ℤ) (db : Database) → P db → P (expire now key seconds db).1
  unfolding expire
  expire-keeps now key seconds db h = elim (Bool-cases (key_exists_unlocked key db)) [
    | inr e ↦ rw e h
    | inl e ↦ elim (Bool-cases (is_expired_unlocked now key db)) [
      | inl x ↦ rw (e, x) (closed.remove key db h)
      | inr x ↦ rw (e, x) (closed.assign_deadline key _ db e h)
    ]
  ]

  ttl-keeps : (now later : ℕ) (key : Text) (db : Database) → P db → P (ttl now later key db).1
  unfolding ttl
  ttl-keeps now later key db h = elim (Bool-cases (key_exists_unlocked key db)) [
    | inr e ↦ rw e h
    | inl e ↦ elim (Bool-cases (is_expired_unlocked now key db)) [
      | inl x ↦ rw (e, x) (closed.remove key db h)
      | inr x ↦ rw (e, x) h
    ]
  ]

  persist-keeps : (now : ℕ) (key : Text) (db : Database) → P db → P (persist now key db).1
  unfolding persist
  persist-keeps now key db h = elim (Bool-cases (key_exists_unlocked key db)) [
    | inr e ↦ rw e h
    | inl e ↦ elim (Bool-cases (is_expired_unlocked now key db)) [
      | inl x ↦ rw (e, x) (closed.remove key db h)
      | inr x ↦ rw (e, x) (closed.erase_deadline key db h)
    ]
  ]

  push-keeps :
      (push : List Text → List Text) (key : Text) (db : Database)
      → ((l : List Text) → (y : Text) × (ys : List Text) × (push l ≡ y ∷ ys))
      → P db
      → P (push_with push key db).1
  unfolding push_with
  push-keeps push key db grows h = elim (Option-cases (find key db.store)) [
    | inr (s, e) ↦ rw e h
    | inl e ↦
        let (y, ys, p) = grows (list_at key db.list_store) in
        rw (e, p) (closed.put_list key y ys db e h)
  ]

  pop-keeps :
      (pop : List Text → Option (Text × List Text)) (now : ℕ) (key : Text) (db : Database)
      → P db
      → P (pop_with pop now key db).1
  unfolding pop_with
  pop-keeps pop now key db h = elim (Bool-cases (is_expired_unlocked now key db)) [
    | inl x ↦ rw x (closed.remove key db h)
    | inr x ↦ elim (Option-cases (find key db.list_store)) [
      | inl e ↦ rw (x, e) h
      | inr (l, e) ↦ elim (Option-cases (pop l)) [
        | inl p ↦ rw (x, e, p) (closed.forget key l db e h)
        | inr ((val, rest), p) ↦ rw (x, e, p) (keep_list-keeps key rest l db e h)
      ]
    ]
  ]

  lrange-keeps :
      (now : ℕ) (key : Text) (start stop : ℤ) (db : Database)
      → P db
      → P (lrange now key start stop db).1
  unfolding lrange
  lrange-keeps now key start stop db h = elim (Bool-cases (is_expired_unlocked now key db)) [
    | inl e ↦ rw e (closed.remove key db h)
    | inr e ↦ rw e h
  ]

  lindex-keeps :
      (now : ℕ) (key : Text) (index : ℤ) (db : Database) → P db → P (lindex now key index db).1
  unfolding lindex
  lindex-keeps now key index db h = elim (Bool-cases (is_expired_unlocked now key db)) [
    | inl e ↦ rw e (closed.remove key db h)
    | inr e ↦ rw e h
  ]

  llen-keeps : (now : ℕ) (key : Text) (db : Database) → P db → P (llen now key db).1
  unfolding llen
  llen-keeps now key db h = elim (Bool-cases (is_expired_unlocked now key db)) [
    | inl e ↦ rw e (closed.remove key db h)
    | inr e ↦ elim (Option-cases (find key db.store)) [
      | inl s ↦ rw (e, s) h
      | inr (v, s) ↦ rw (e, s) h
    ]
  ]

  pub after-keeps : (op : Operation) (db : Database) → P db → P (after op db)
  unfolding after keys dbsize expiry_scan flushdb lpush rpush lpop rpop
  after-keeps (Operation.set key value) db h = closed.set key value db h
  after-keeps (Operation.get now key) db h = get-keeps now key db h
  after-keeps (Operation.del ks) db h = del-keeps ks db h
  after-keeps (Operation.exists now ks) db h = exists-keeps now ks db h
  after-keeps (Operation.keys now) db h = remove_all-keeps (expired_in_both now db) db h
  after-keeps (Operation.dbsize now) db h = remove_all-keeps (expired_in_both now db) db h
  after-keeps (Operation.expiry_scan now) db h =
      remove_all-keeps (to_delete now (take max_sample db.expiry)) db h
  after-keeps Operation.flushdb db h = closed.empty
  after-keeps (Operation.expire now key s) db h = expire-keeps now key s db h
  after-keeps (Operation.ttl now later key) db h = ttl-keeps now later key db h
  after-keeps (Operation.persist now key) db h = persist-keeps now key db h
  after-keeps (Operation.lpush now key v vs) db h =
      push-keeps _ key _ (λ l. push_front_all-cons vs l v) (drop-keeps now key db h)
  after-keeps (Operation.rpush now key v vs) db h =
      push-keeps _ key _ (λ l. push_back_first l vs v) (drop-keeps now key db h)
  after-keeps (Operation.lpop now key) db h = pop-keeps pop_front now key db h
  after-keeps (Operation.rpop now key) db h = pop-keeps pop_back now key db h
  after-keeps (Operation.llen now key) db h = llen-keeps now key db h
  after-keeps (Operation.lrange now key start stop) db h = lrange-keeps now key start stop db h
  after-keeps (Operation.lindex now key index) db h = lindex-keeps now key index db h

  -- Every run of operations, with any instants, keeps what the primitive changes keep.
  pub run-keeps : (ops : List Operation) (db : Database) → P db → P (run ops db)
  unfolding run
  run-keeps [] db h = h
  run-keeps (op ∷ ops) db h = run-keeps ops (after op db) (after-keeps op db h)
