-- ===== src/Commands.antt =====
-- The command handlers: include/commands/command_handler.h and src/commands/command_handler.cpp.
-- This module has the state that a handler works on and the handlers of strings, keys and times to
-- live; the children have the lists, publish and subscribe, the dispatch and the transactions.
pub mod Reply
pub mod ListHandlers
pub mod PubSubHandlers
pub mod Dispatch
pub mod Transactions
pub mod Queue
pub mod Watch
pub mod Traces
mod Tests
use my_redis.Prelude.{
  ℕ, zero, suc, ◌≤◌, Option, none, some, List, [], ◌∷◌, ◌++◌, Bool, true, false, ◌||◌, ◌==◌, leb,
  if◌then◌else◌, is_empty,
}
use my_redis.Prelude.Int.{ℤ, pos, negsuc, ltb_ℤ}
use my_redis.Prelude.Text.{Text, text_eq, codes}
use my_redis.Number.{stoi, upper, int_to_string}
use my_redis.Parser.{Command}
use my_redis.Database
use my_redis.Database.{Database}
use my_redis.PubSub.{PubSub}
use my_redis.Persistence.File
use my_redis.Persistence.File.{Files, Outcome}
use my_redis.Commands.Reply.{
  integer_reply, bool_reply, wrong_number, not_an_integer, optional_reply, numbered,
}

-- What the handlers change: the database, the subscriptions, and the files that SAVE writes.
pub record Shared : Type 0 where
  pub db : Database
  pub pubsub : PubSub
  pub files : Files

-- What one command finds around it: two instants of the steady clock, `later` for the second
-- reading that TTL makes; which sends to subscribers succeed; how the calls of a SAVE turn out; the
-- uptime and the number of clients, where the handler has its server.
pub record Context : Type 0 where
  pub now : ℕ
  pub later : ℕ
  pub send_response : ℕ → Text → Bool
  pub outcome : Outcome
  pub server : Option (ℕ × ℕ)

abbrev pub with_db : {A : Type 0} → Shared → A × Database → A × Shared
with_db s (a, db) = (a, record s { db = db })

unfoldable pub handle_ping : List Text → Text
handle_ping [] = codes "PONG"
handle_ping (arg ∷ args) = arg

-- `SET key value EX seconds`: what follows the write of the value.
unfoldable pub set_expiry : ℕ → Text → Option ℤ → Database → Text × Database
set_expiry now key none db = (not_an_integer, db)
set_expiry now key (some (negsuc n)) db = (codes "ERR invalid expire time in 'SET' command", db)
set_expiry now key (some (pos zero)) db = (codes "ERR invalid expire time in 'SET' command", db)
set_expiry now key (some (pos (suc n))) db =
    (codes "OK", (Database.expire now key (pos (suc n)) db).1)

unfoldable pub set_options : ℕ → Text → List Text → Database → Text × Database
unfolding set_expiry
set_options now key (option ∷ seconds ∷ rest) db =
    if upper option == codes "EX" then set_expiry now key (stoi seconds) db else (codes "OK", db)
set_options now key _ db = (codes "OK", db)

unfoldable pub handle_set : Context → List Text → Shared → Text × Shared
unfolding set_options
handle_set c (key ∷ value ∷ options) s =
    with_db s (set_options c.now key options (Database.set key value s.db))
handle_set c _ s = (wrong_number "SET", s)

unfoldable pub handle_get : Context → List Text → Shared → Text × Shared
handle_get c (key ∷ []) s =
    let (val, db) = Database.get c.now key s.db in (optional_reply val, record s { db = db })
handle_get c _ s = (wrong_number "GET", s)

unfoldable pub handle_del : Context → List Text → Shared → Text × Shared
handle_del c [] s = (wrong_number "DEL", s)
handle_del c (key ∷ keys) s =
    let (count, db) = Database.del (key ∷ keys) s.db in
    (integer_reply (pos count), record s { db = db })

unfoldable pub handle_exists : Context → List Text → Shared → Text × Shared
handle_exists c [] s = (wrong_number "EXISTS", s)
handle_exists c (key ∷ keys) s =
    let (count, db) = Database.exists c.now (key ∷ keys) s.db in
    (integer_reply (pos count), record s { db = db })

unfoldable pub handle_keys : Context → List Text → Shared → Text × Shared
handle_keys c args s =
    let (all_keys, db) = Database.keys c.now s.db in (numbered all_keys, record s { db = db })

unfoldable pub handle_dbsize : Context → List Text → Shared → Text × Shared
handle_dbsize c args s =
    let (count, db) = Database.dbsize c.now s.db in
    (integer_reply (pos count), record s { db = db })

unfoldable pub handle_flushdb : Context → List Text → Shared → Text × Shared
handle_flushdb c args s = (codes "OK", record s { db = Database.flushdb s.db })

unfoldable pub expire_reply : ℕ → Text → Option ℤ → Database → Text × Database
expire_reply now key none db = (not_an_integer, db)
expire_reply now key (some (negsuc n)) db =
    (codes "ERR invalid expire time in 'EXPIRE' command", db)
expire_reply now key (some (pos zero)) db =
    (codes "ERR invalid expire time in 'EXPIRE' command", db)
expire_reply now key (some (pos (suc n))) db =
    let (result, after) = Database.expire now key (pos (suc n)) db in (bool_reply result, after)

unfoldable pub handle_expire : Context → List Text → Shared → Text × Shared
unfolding expire_reply
handle_expire c (key ∷ seconds ∷ []) s = with_db s (expire_reply c.now key (stoi seconds) s.db)
handle_expire c _ s = (wrong_number "EXPIRE", s)

unfoldable pub handle_ttl : Context → List Text → Shared → Text × Shared
handle_ttl c (key ∷ []) s =
    let (remaining, db) = Database.ttl c.now c.later key s.db in
    (integer_reply remaining, record s { db = db })
handle_ttl c _ s = (wrong_number "TTL", s)

unfoldable pub handle_persist : Context → List Text → Shared → Text × Shared
handle_persist c (key ∷ []) s =
    let (result, db) = Database.persist c.now key s.db in (bool_reply result, record s { db = db })
handle_persist c _ s = (wrong_number "PERSIST", s)

abbrev pub dump_path : Text
dump_path = codes "dump.mrdb"

unfoldable pub handle_save : Context → List Text → Shared → Text × Shared
handle_save c args s =
    let (saved, files) = File.save c.outcome c.now dump_path s.db s.files in
    (
      (if saved then codes "OK" else codes "ERR failed to save database"),
      record s { files = files },
    )
