-- ===== src/Commands/Traces/Keys.antt =====
-- The handlers of strings, keys, times to live and the dump in src/commands/command_handler.cpp, as
-- operations of the database.
use my_redis.Prelude.{ℕ, zero, suc, Option, none, some, List, [], ◌∷◌, ◌==◌, refl}
use my_redis.Prelude.Int.{ℤ, pos, negsuc}
use my_redis.Prelude.Text.{Text, text_eq, codes}
use my_redis.Number.{stoi, upper}
use my_redis.Database
use my_redis.Database.{Database}
use my_redis.Database.Operations.{Operation, after}
use my_redis.Commands
use my_redis.Commands.{Context, Shared}
use my_redis.Commands.Traces.{Traces, TracesTo, nothing, one, either_db, saved, Traces-trans}

module _ (client : ℕ) (c : Context) where
  pub set_expiry-Traces :
      (key : Text) (seconds : Option ℤ) (s : Shared)
      → Traces client s (record s { db = (Commands.set_expiry c.now key seconds s.db).1 })
  unfolding Commands.set_expiry after
  set_expiry-Traces key none s = nothing client s
  set_expiry-Traces key (some (negsuc n)) s = nothing client s
  set_expiry-Traces key (some (pos zero)) s = nothing client s
  set_expiry-Traces key (some (pos (suc n))) s =
      one client (Operation.expire c.now key (pos (suc n))) s _ refl

  pub set_options-Traces :
      (key : Text) (options : List Text) (s : Shared)
      → Traces client s (record s { db = (Commands.set_options c.now key options s.db).1 })
  unfolding Commands.set_options
  set_options-Traces key [] s = nothing client s
  set_options-Traces key (option ∷ []) s = nothing client s
  set_options-Traces key (option ∷ seconds ∷ rest) s =
      either_db client s (upper option == codes "EX") _ _ (set_expiry-Traces key (stoi seconds) s)
        (nothing client s)

  pub set-Traces :
      (args : List Text) (s : Shared) → TracesTo client s (Commands.handle_set c args s)
  unfolding Commands.handle_set after
  set-Traces [] s = nothing client s
  set-Traces (key ∷ []) s = nothing client s
  set-Traces (key ∷ value ∷ options) s =
      Traces-trans client s (record s { db = Database.set key value s.db }) _
        (one client (Operation.set key value) s _ refl)
        (set_options-Traces key options (record s { db = Database.set key value s.db }))

  pub get-Traces :
      (args : List Text) (s : Shared) → TracesTo client s (Commands.handle_get c args s)
  unfolding Commands.handle_get after
  get-Traces [] s = nothing client s
  get-Traces (key ∷ []) s = one client (Operation.get c.now key) s _ refl
  get-Traces (key ∷ x ∷ rest) s = nothing client s

  pub del-Traces :
      (args : List Text) (s : Shared) → TracesTo client s (Commands.handle_del c args s)
  unfolding Commands.handle_del after
  del-Traces [] s = nothing client s
  del-Traces (key ∷ ks) s = one client (Operation.del (key ∷ ks)) s _ refl

  pub exists-Traces :
      (args : List Text) (s : Shared) → TracesTo client s (Commands.handle_exists c args s)
  unfolding Commands.handle_exists after
  exists-Traces [] s = nothing client s
  exists-Traces (key ∷ ks) s = one client (Operation.exists c.now (key ∷ ks)) s _ refl

  pub keys-Traces :
      (args : List Text) (s : Shared) → TracesTo client s (Commands.handle_keys c args s)
  unfolding Commands.handle_keys after
  keys-Traces args s = one client (Operation.keys c.now) s _ refl

  pub dbsize-Traces :
      (args : List Text) (s : Shared) → TracesTo client s (Commands.handle_dbsize c args s)
  unfolding Commands.handle_dbsize after
  dbsize-Traces args s = one client (Operation.dbsize c.now) s _ refl

  pub flushdb-Traces :
      (args : List Text) (s : Shared) → TracesTo client s (Commands.handle_flushdb c args s)
  unfolding Commands.handle_flushdb after
  flushdb-Traces args s = one client Operation.flushdb s _ refl

  pub expire_reply-Traces :
      (key : Text) (seconds : Option ℤ) (s : Shared)
      → Traces client s (record s { db = (Commands.expire_reply c.now key seconds s.db).1 })
  unfolding Commands.expire_reply after
  expire_reply-Traces key none s = nothing client s
  expire_reply-Traces key (some (negsuc n)) s = nothing client s
  expire_reply-Traces key (some (pos zero)) s = nothing client s
  expire_reply-Traces key (some (pos (suc n))) s =
      one client (Operation.expire c.now key (pos (suc n))) s _ refl

  pub expire-Traces :
      (args : List Text) (s : Shared) → TracesTo client s (Commands.handle_expire c args s)
  unfolding Commands.handle_expire
  expire-Traces [] s = nothing client s
  expire-Traces (key ∷ []) s = nothing client s
  expire-Traces (key ∷ seconds ∷ []) s = expire_reply-Traces key (stoi seconds) s
  expire-Traces (key ∷ seconds ∷ x ∷ rest) s = nothing client s

  pub ttl-Traces :
      (args : List Text) (s : Shared) → TracesTo client s (Commands.handle_ttl c args s)
  unfolding Commands.handle_ttl after
  ttl-Traces [] s = nothing client s
  ttl-Traces (key ∷ []) s = one client (Operation.ttl c.now c.later key) s _ refl
  ttl-Traces (key ∷ x ∷ rest) s = nothing client s

  pub persist-Traces :
      (args : List Text) (s : Shared) → TracesTo client s (Commands.handle_persist c args s)
  unfolding Commands.handle_persist after
  persist-Traces [] s = nothing client s
  persist-Traces (key ∷ []) s = one client (Operation.persist c.now key) s _ refl
  persist-Traces (key ∷ x ∷ rest) s = nothing client s

  pub save-Traces :
      (args : List Text) (s : Shared) → TracesTo client s (Commands.handle_save c args s)
  unfolding Commands.handle_save
  save-Traces args s = saved client s _
