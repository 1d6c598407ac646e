-- ===== src/Database/Tests.antt =====
-- Runs of the store on small inputs, and the theorems of this part at them.
use my_redis.Prelude.{
  ◌+◌, ◌*◌, ◌-◌, ◌≡◌, refl, none, some, List, [], ◌∷◌, ◌++◌, true, false, ◌&&◌, ◌==◌, ltb, ◌/◌,
  is_some, if◌then◌else◌, length, take, drop, arith,
}
use my_redis.Prelude.Int.{pos, negsuc, to_int}
use my_redis.Prelude.Text.{Text, text_eq, text_beq, codes}
use my_redis.Dict.{find, assign, erase}
use my_redis.Database.{
  Database, empty_database, set, get, del, exists, keys, expire, ttl, persist, nanos,
}
use my_redis.Database.Lists.{lpush, rpush, lpop, rpop, lrange, lindex}
use my_redis.Database.Operations
use my_redis.Database.Operations.{Operation, run}
use my_redis.Database.Invariant.{IsWellFormed, IsWellFormed-empty, run-IsWellFormed}
use my_redis.Database.Distinct.{IsDistinct, run-IsDistinct}
use my_redis.Database.View.{
  string, list, view, get-view, view-set, view-expire, view-persist, string_part, value_of,
}
use my_redis.Database.ExpiryThread.{Tick, expiry_loop, view-expiry_loop}
use my_redis.Database.Expiry.{ttl-expire}
use my_redis.Database.Counting.{member-keys, exists_lem, view-del, shown_count}
use my_redis.Database.Ranges.{lrange_lem, lrange-lindex, one_or_none, first_index, end_index}
use my_redis.Database.ListView.{rpush_lem, lpush_lem, lpop_lem, rpop_lem, stacked, shown}
use my_redis.PubSub.Sets.{member}

abbrev a : Text
a = codes "a"

abbrev b : Text
b = codes "b"

-- A string at "a" that expires at 5 seconds, and a list of three at "b".
abbrev script : List Operation
script =
    Operation.set a (codes "one")
    ∷ Operation.expire 0 a (pos 5)
    ∷ Operation.rpush 0 b (codes "x") (codes "y" ∷ codes "z" ∷ [])
    ∷ []

abbrev db : Database
db = record {
  store = (a, codes "one") ∷ [];
  list_store = (b, codes "x" ∷ codes "y" ∷ codes "z" ∷ []) ∷ [];
  expiry = (a, 5000000000) ∷ [];
}

script-run : run script empty_database ≡ db
unfolding run Operations.after set expire rpush find assign erase text_beq
script-run = refl

db-IsWellFormed : IsWellFormed db
db-IsWellFormed = rw script-run at (run-IsWellFormed script empty_database IsWellFormed-empty)

db-IsDistinct : IsDistinct db
db-IsDistinct =
    rw script-run at
      (run-IsDistinct script empty_database (record { store = tt; list_store = tt; expiry = tt }))

view-b : view 0 b db ≡ some (list (codes "x" ∷ codes "y" ∷ codes "z" ∷ []))
unfolding view find text_beq
view-b = refl

view-a : view 0 a db ≡ some (string (codes "one"))
unfolding view find text_beq
view-a = refl

expire_succeeds : (expire 0 a (pos 7) db).0 ≡ true
unfolding expire find text_beq
expire_succeeds = refl

-- DEL counts a key whose deadline has passed.
del_counts_expired : (del (a ∷ []) db).0 ≡ 1
unfolding del find text_beq
del_counts_expired = refl

run-IsWellFormed_example : IsWellFormed (run script empty_database)
run-IsWellFormed_example = run-IsWellFormed script empty_database IsWellFormed-empty

get-view_example :
    ((get 0 a db).0 ≡ string_part (view 0 a db)) × (view 9 b (get 0 a db).1 ≡ view 9 b db)
get-view_example = get-view 0 9 a b db (omega arith)

view-set_example :
    view 0 b (set a (codes "two") db)
    ≡ (if a == b then some (string (codes "two")) else view 0 b db)
view-set_example = view-set 0 a (codes "two") b db

view-expire_example :
    ((expire 0 a (pos 7) db).0 ≡ is_some (view 0 a db))
    × (view 9 b (expire 0 a (pos 7) db).1 ≡ (
        if a == b && is_some (view 0 a db)
        then if ltb 9 (0 + 7 * nanos)
          then value_of (find a db.store) (find a db.list_store)
          else none
        else view 9 b db))
view-expire_example = view-expire 0 9 a b 7 db (omega arith)

view-persist_example :
    ((persist 0 a db).0 ≡ (is_some (view 0 a db) && is_some (find a db.expiry)))
    × (view 9 b (persist 0 a db).1
        ≡ (if a == b && is_some (view 0 a db) then view 0 a db else view 9 b db))
view-persist_example = view-persist 0 9 a b db (omega arith)

abbrev ticks : List Tick
ticks =
    record { before = true; woken = true; now = 5000000000 }
    ∷ record { before = true; woken = false; now = 5100000000 }
    ∷ []

view-expiry_loop_example : view 6000000000 b (expiry_loop ticks db) ≡ view 6000000000 b db
view-expiry_loop_example =
    view-expiry_loop ticks 6000000000 b db (omega arith, (omega arith, tt)) db-IsDistinct

ttl-expire_example :
    (ttl (0 + 9) (0 + 9) a (expire 0 a (pos 7) db).1).0
    ≡ (if ltb 9 (7 * nanos) then pos ((7 * nanos - 9) / nanos) else negsuc 1)
ttl-expire_example = ttl-expire 0 9 a 7 db (omega arith) expire_succeeds

member-keys_example : member a (keys 0 db).0 ≡ is_some (view 0 a db)
member-keys_example = member-keys 0 a db

exists_lem_example : (exists 0 (a ∷ a ∷ b ∷ []) db).0 ≡ shown_count 0 db (a ∷ a ∷ b ∷ [])
exists_lem_example = exists_lem 0 (a ∷ a ∷ b ∷ []) db

view-del_example : view 0 b (del (a ∷ []) db).1 ≡ (if member b (a ∷ []) then none else view 0 b db)
view-del_example = view-del 0 b (a ∷ []) db

lrange_lem_example : lrange 0 b (negsuc 1) (pos 9) db ≡ (
  take
      (end_index (codes "x" ∷ codes "y" ∷ codes "z" ∷ []) (pos 9)
        - first_index (codes "x" ∷ codes "y" ∷ codes "z" ∷ []) (negsuc 1))
      (drop
        (first_index (codes "x" ∷ codes "y" ∷ codes "z" ∷ []) (negsuc 1))
        (codes "x" ∷ codes "y" ∷ codes "z" ∷ [])),
  db,
)
lrange_lem_example =
    lrange_lem 0 b (negsuc 1) (pos 9) db (codes "x" ∷ codes "y" ∷ codes "z" ∷ []) (omega arith)
      view-b

lrange-lindex_example :
    (lrange 0 b (negsuc 0) (negsuc 0) db).0 ≡ one_or_none (lindex 0 b (negsuc 0) db).0
lrange-lindex_example =
    lrange-lindex 0 b (negsuc 0) db (codes "x" ∷ codes "y" ∷ codes "z" ∷ []) (omega arith) view-b

abbrev xyz : List Text
xyz = codes "x" ∷ codes "y" ∷ codes "z" ∷ []

rpush_lem_example :
    ((rpush 0 b (a ∷ []) db).0 ≡ to_int (length (xyz ++ (a ∷ []))))
    × (view 0 b (rpush 0 b (a ∷ []) db).1 ≡ some (list (xyz ++ (a ∷ []))))
unfolding view find text_beq
rpush_lem_example = rpush_lem 0 b (a ∷ []) db xyz db-IsWellFormed refl

lpush_lem_example :
    ((lpush 0 b (a ∷ []) db).0 ≡ to_int (length (stacked (a ∷ []) ++ xyz)))
    × (view 0 b (lpush 0 b (a ∷ []) db).1 ≡ some (list (stacked (a ∷ []) ++ xyz)))
unfolding view find text_beq
lpush_lem_example = lpush_lem 0 b (a ∷ []) db xyz db-IsWellFormed refl

lpop_lem_example :
    ((lpop 0 b db).0 ≡ some (codes "x"))
    × (view 0 b (lpop 0 b db).1 ≡ shown (codes "y" ∷ codes "z" ∷ []))
lpop_lem_example = lpop_lem 0 b (codes "x") (codes "y" ∷ codes "z" ∷ []) db view-b

rpop_lem_example :
    ((rpop 0 b db).0 ≡ some (codes "z"))
    × (view 0 b (rpop 0 b db).1 ≡ shown (codes "x" ∷ codes "y" ∷ []))
rpop_lem_example = rpop_lem 0 b (codes "z") (codes "x" ∷ codes "y" ∷ []) db view-b
