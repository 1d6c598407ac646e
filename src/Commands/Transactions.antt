-- ===== src/Commands/Transactions.antt =====
-- `CommandHandler::execute` and the transaction commands of src/commands/command_handler.cpp.
use my_redis.Prelude.{
  ℕ, Option, none, some, List, [], ◌∷◌, ◌++◌, Bool, true, false, not, ◌&&◌, ◌||◌, ◌==◌, is_empty,
  is_some, if◌then◌else◌,
}
use my_redis.Prelude.Int.{ℤ, pos, negsuc, ltb_ℤ}
use my_redis.Prelude.Text.{Text, text_eq, codes}
use my_redis.Parser.{Command}
use my_redis.Database.{Database, get}
use my_redis.Database.Lists.{llen}
use my_redis.PubSub.{is_subscribed}
use my_redis.Commands.{Context, Shared}
use my_redis.Commands.Reply.{wrong_number, numbered_from}
use my_redis.Commands.Dispatch.{execute_single}

pub record WatchedKeySnapshot : Type 0 where
  pub key : Text
  pub existed : Bool
  pub string_value : Option Text
  pub list_size : ℤ

-- The members of a `CommandHandler` that change. `watch_dirty_` is written and never read.
pub record Handler : Type 0 where
  pub in_multi : Bool
  pub tx_queue : List Command
  pub watched_keys : List Text
  pub watch_snapshots : List WatchedKeySnapshot

abbrev pub new_handler : Handler
new_handler = record { in_multi = false; tx_queue = []; watched_keys = []; watch_snapshots = [] }

abbrev pub State : Type 0
State = Handler × Shared

unfoldable pub handle_multi : Handler → Text × Handler
handle_multi h =
    if h.in_multi
    then (codes "ERR MULTI calls can not be nested", h)
    else (codes "OK", record h { in_multi = true; tx_queue = [] })

unfoldable pub handle_discard : Handler → Text × Handler
handle_discard h =
    if h.in_multi
    then (codes "OK", record h { in_multi = false; tx_queue = [] })
    else (codes "ERR DISCARD without MULTI", h)

unfoldable pub snapshot_of : Text → Option Text → ℤ → WatchedKeySnapshot
snapshot_of key (some val) len = record {
  key = key;
  existed = true;
  string_value = some val;
  list_size = negsuc 0;
}
snapshot_of key none (pos len) = record {
  key = key;
  existed = true;
  string_value = none;
  list_size = pos len;
}
snapshot_of key none (negsuc n) = record {
  key = key;
  existed = false;
  string_value = none;
  list_size = negsuc 0;
}

-- `get`, and `llen` where there is no string; both drop an expired key.
unfoldable pub take_snapshot : ℕ → Text → Database → WatchedKeySnapshot × Database
unfolding snapshot_of
take_snapshot now key db =
    let (val, db') = get now key db in
    let (len, db'') = llen now key db' in
    (snapshot_of key val len, if is_some val then db' else db'')

unfoldable pub watch_all : ℕ → List Text → Handler → Database → Handler × Database
unfolding take_snapshot
watch_all now [] h db = (h, db)
watch_all now (key ∷ keys) h db =
    let (snap, db') = take_snapshot now key db in
    watch_all now keys
      (record h {
        watched_keys = h.watched_keys ++ (key ∷ []);
        watch_snapshots = h.watch_snapshots ++ (snap ∷ []);
      })
      db'

unfoldable pub handle_watch : Context → List Text → State → Text × State
unfolding watch_all
handle_watch c [] (h, s) = (wrong_number "WATCH", (h, s))
handle_watch c (key ∷ keys) (h, s) =
    let (h', db) = watch_all c.now (key ∷ keys) h s.db in
    if h.in_multi
    then (codes "ERR WATCH inside MULTI is not allowed", (h, s))
    else (codes "OK", (h', record s { db = db }))

abbrev pub text_differs : Option Text → Text → Bool
text_differs none old = true
text_differs (some val) old = not (val == old)

abbrev pub int_differs : ℤ → ℤ → Bool
int_differs a b = ltb_ℤ a b || ltb_ℤ b a

-- One round of `watched_keys_modified`: whether the key changed, and the database after the reads.
unfoldable pub snapshot_modified : ℕ → WatchedKeySnapshot → Database → Bool × Database
snapshot_modified now snap db =
    let (val, db') = get now snap.key db in
    let (len, db'') = llen now snap.key db' in
    if snap.existed
    then elim snap.string_value [
      | some old ↦ (text_differs val old, db')
      | none ↦
          if ltb_ℤ snap.list_size (pos 0)
          then (false, db')
          else (int_differs len snap.list_size, db'')
    ]
    else if is_some val
    then (true, db')
    else (not (ltb_ℤ len (pos 0)), db'')

unfoldable pub watched_keys_modified : ℕ → List WatchedKeySnapshot → Database → Bool × Database
unfolding snapshot_modified
watched_keys_modified now [] db = (false, db)
watched_keys_modified now (snap ∷ snaps) db =
    let (modified, db') = snapshot_modified now snap db in
    let rest = watched_keys_modified now snaps db' in if modified then (true, db') else rest

-- The loop of EXEC: the results in order, and the state after the last command.
unfoldable pub execute_queue : ℕ → Context → List Command → Shared → List Text × Shared
execute_queue client c [] s = ([], s)
execute_queue client c (cmd ∷ cmds) s =
    let (result, s') = execute_single client c cmd s in
    let (results, final) = execute_queue client c cmds s' in (result ∷ results, final)

unfoldable pub exec_response : List Text → Text
exec_response [] = codes "(empty list)"
exec_response (r ∷ rs) = numbered_from 0 (r ∷ rs)

unfoldable pub run_transaction : ℕ → Context → State → Text × State
unfolding execute_queue exec_response
run_transaction client c (h, s) =
    let (results, s') = execute_queue client c h.tx_queue s in
    (exec_response results, (new_handler, s'))

unfoldable pub handle_exec : ℕ → Context → State → Text × State
unfolding watched_keys_modified run_transaction
handle_exec client c (h, s) =
    let (modified, db) = watched_keys_modified c.now h.watch_snapshots s.db in
    if h.in_multi
    then if is_empty h.watched_keys
      then run_transaction client c (h, s)
      else if modified
      then (codes "(nil)", (new_handler, record s { db = db }))
      else run_transaction client c (h, record s { db = db })
    else (codes "ERR EXEC without MULTI", (h, s))

abbrev pub on_handler : Shared → Text × Handler → Text × State
on_handler s (r, h) = (r, (h, s))

abbrev pub on_shared : Handler → Text × Shared → Text × State
on_shared h (r, s) = (r, (h, s))

-- The commands that a client in subscription mode may send.
unfoldable pub allowed_subscribed : Text → Bool
allowed_subscribed name =
    name == codes "SUBSCRIBE" || name == codes "UNSUBSCRIBE" || name == codes "PING"

unfoldable pub execute_or_queue : ℕ → Context → Command → State → Text × State
unfolding handle_multi handle_discard handle_watch handle_exec
execute_or_queue client c cmd (h, s) =
    if cmd.name == codes "MULTI"
    then on_handler s (handle_multi h)
    else if cmd.name == codes "EXEC"
    then handle_exec client c (h, s)
    else if cmd.name == codes "DISCARD"
    then on_handler s (handle_discard h)
    else if cmd.name == codes "WATCH"
    then handle_watch c cmd.args (h, s)
    else if h.in_multi
    then (codes "QUEUED", (record h { tx_queue = h.tx_queue ++ (cmd ∷ []) }, s))
    else on_shared h (execute_single client c cmd s)

unfoldable pub execute : ℕ → Context → Command → State → Text × State
unfolding allowed_subscribed execute_or_queue
execute client c cmd (h, s) =
    if is_subscribed client s.pubsub && not (allowed_subscribed cmd.name)
    then (
      codes "ERR Can't execute '"
          ++ (cmd.name
              ++ codes
                  "': only (P)SUBSCRIBE / (P)UNSUBSCRIBE / PING / QUIT are allowed in this context"),
      (h, s),
    )
    else execute_or_queue client c cmd (h, s)
