-- ===== src/Commands/ListHandlers.antt =====
-- The handlers of the list commands in src/commands/command_handler.cpp.
use my_redis.Prelude.{zero, Option, none, some, List, [], ◌∷◌}
use my_redis.Prelude.Int.{ℤ, negsuc}
use my_redis.Prelude.Text.{Text}
use my_redis.Number.{stoi}
use my_redis.Database.Lists
use my_redis.Commands.{Context, Shared}
use my_redis.Commands.Reply.{
  integer_reply, wrong_number, wrong_type_err, not_an_integer, optional_reply, numbered,
}

-- A result of -1 is reported as the wrong type.
unfoldable pub length_reply : ℤ → Text
length_reply (negsuc zero) = wrong_type_err
length_reply n = integer_reply n

unfoldable pub handle_lpush : Context → List Text → Shared → Text × Shared
unfolding length_reply
handle_lpush c (key ∷ value ∷ values) s =
    let (result, db) = Lists.lpush c.now key (value ∷ values) s.db in
    (length_reply result, record s { db = db })
handle_lpush c _ s = (wrong_number "LPUSH", s)

unfoldable pub handle_rpush : Context → List Text → Shared → Text × Shared
unfolding length_reply
handle_rpush c (key ∷ value ∷ values) s =
    let (result, db) = Lists.rpush c.now key (value ∷ values) s.db in
    (length_reply result, record s { db = db })
handle_rpush c _ s = (wrong_number "RPUSH", s)

unfoldable pub handle_lpop : Context → List Text → Shared → Text × Shared
handle_lpop c (key ∷ []) s =
    let (val, db) = Lists.lpop c.now key s.db in (optional_reply val, record s { db = db })
handle_lpop c _ s = (wrong_number "LPOP", s)

unfoldable pub handle_rpop : Context → List Text → Shared → Text × Shared
handle_rpop c (key ∷ []) s =
    let (val, db) = Lists.rpop c.now key s.db in (optional_reply val, record s { db = db })
handle_rpop c _ s = (wrong_number "RPOP", s)

unfoldable pub lrange_reply : Context → Text → Option ℤ → Option ℤ → Shared → Text × Shared
lrange_reply c key (some start) (some stop) s =
    let (elements, db) = Lists.lrange c.now key start stop s.db in
    (numbered elements, record s { db = db })
lrange_reply c key _ _ s = (not_an_integer, s)

unfoldable pub handle_lrange : Context → List Text → Shared → Text × Shared
unfolding lrange_reply
handle_lrange c (key ∷ start ∷ stop ∷ []) s = lrange_reply c key (stoi start) (stoi stop) s
handle_lrange c _ s = (wrong_number "LRANGE", s)

unfoldable pub handle_llen : Context → List Text → Shared → Text × Shared
unfolding length_reply
handle_llen c (key ∷ []) s =
    let (result, db) = Lists.llen c.now key s.db in (length_reply result, record s { db = db })
handle_llen c _ s = (wrong_number "LLEN", s)

unfoldable pub lindex_reply : Context → Text → Option ℤ → Shared → Text × Shared
lindex_reply c key none s = (not_an_integer, s)
lindex_reply c key (some index) s =
    let (val, db) = Lists.lindex c.now key index s.db in (optional_reply val, record s { db = db })

unfoldable pub handle_lindex : Context → List Text → Shared → Text × Shared
unfolding lindex_reply
handle_lindex c (key ∷ index ∷ []) s = lindex_reply c key (stoi index) s
handle_lindex c _ s = (wrong_number "LINDEX", s)
