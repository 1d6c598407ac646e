-- ===== src/Database/Operations.antt =====
-- Every operation of the store as one type, and a run of operations in any order: each takes the
-- lock for its whole body, so an interleaving of clients and of the expiry thread is such a run.
use my_redis.Prelude.{ℕ, List, [], ◌∷◌}
use my_redis.Prelude.Int.{ℤ}
use my_redis.Prelude.Text.{Text}
use my_redis.Database
use my_redis.Database.{Database}
use my_redis.Database.Lists

-- A push has a first value: LPUSH and RPUSH refuse a command without one.
pub data Operation : Type 0 where
  set : Text → Text → Operation
  get : ℕ → Text → Operation
  del : List Text → Operation
  exists : ℕ → List Text → Operation
  keys dbsize expiry_scan : ℕ → Operation
  flushdb : Operation
  expire : ℕ → Text → ℤ → Operation
  ttl : ℕ → ℕ → Text → Operation
  persist : ℕ → Text → Operation
  lpush rpush : ℕ → Text → Text → List Text → Operation
  lpop rpop llen : ℕ → Text → Operation
  lrange : ℕ → Text → ℤ → ℤ → Operation
  lindex : ℕ → Text → ℤ → Operation

-- The database that the operation leaves.
unfoldable pub after : Operation → Database → Database
after (set key value) db = Database.set key value db
after (get now key) db = (Database.get now key db).1
after (del ks) db = (Database.del ks db).1
after (exists now ks) db = (Database.exists now ks db).1
after (keys now) db = (Database.keys now db).1
after (dbsize now) db = (Database.dbsize now db).1
after (expiry_scan now) db = Database.expiry_scan now db
after flushdb db = Database.flushdb db
after (expire now key seconds) db = (Database.expire now key seconds db).1
after (ttl now later key) db = (Database.ttl now later key db).1
after (persist now key) db = (Database.persist now key db).1
after (lpush now key value values) db = (Lists.lpush now key (value ∷ values) db).1
after (rpush now key value values) db = (Lists.rpush now key (value ∷ values) db).1
after (lpop now key) db = (Lists.lpop now key db).1
after (rpop now key) db = (Lists.rpop now key db).1
after (llen now key) db = (Lists.llen now key db).1
after (lrange now key start stop) db = (Lists.lrange now key start stop db).1
after (lindex now key index) db = (Lists.lindex now key index db).1

unfoldable pub run : List Operation → Database → Database
run [] db = db
run (op ∷ ops) db = run ops (after op db)
