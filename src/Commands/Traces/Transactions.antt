-- ===== src/Commands/Traces/Transactions.antt =====
-- `CommandHandler::execute` of src/commands/command_handler.cpp, transactions included, as operations
-- of the database and calls of the subscriptions.
use my_redis.Prelude.{
  ℕ, Option, none, some, List, [], ◌∷◌, Bool, true, false, not, ◌&&◌, ◌==◌, is_some, is_empty,
  if◌then◌else◌, refl,
}
use my_redis.Prelude.Int.{pos, ltb_ℤ}
use my_redis.Prelude.Text.{Text, text_eq, codes}
use my_redis.Parser.{Command}
use my_redis.Database.{Database, get}
use my_redis.Database.Lists.{llen}
use my_redis.Database.Operations.{Operation, after}
use my_redis.PubSub.{is_subscribed}
use my_redis.Commands.{Context, Shared}
use my_redis.Commands.Dispatch.{execute_single}
use my_redis.Commands.Transactions.{
  WatchedKeySnapshot, Handler, State, take_snapshot, watch_all, handle_watch, snapshot_modified,
  watched_keys_modified, execute_queue, run_transaction, handle_exec, execute_or_queue, execute,
  text_differs, int_differs, allowed_subscribed,
}
use my_redis.Commands.Traces.{Traces, nothing, one, either_db, Traces-trans}
use my_redis.Commands.Traces.Dispatch.{execute_single-Traces}

module _ (client : ℕ) where
  choose :
      (s : Shared) (b : Bool) (x y : Database)
      → Traces client s (record s { db = x })
      → Traces client s (record s { db = y })
      → Traces client s (record s { db = if b then x else y })
  choose s true x y p q = p
  choose s false x y p q = q

  either_state :
      (s : Shared) (b : Bool) (x y : Text × State)
      → Traces client s x.1.1
      → Traces client s y.1.1
      → Traces client s (if b then x else y).1.1
  either_state s true x y p q = p
  either_state s false x y p q = q

  -- The two reads of a watched key.
  get_only :
      (now : ℕ) (key : Text) (s : Shared) → Traces client s (record s { db = (get now key s.db).1 })
  unfolding after
  get_only now key s = one client (Operation.get now key) s _ refl

  get_and_llen :
      (now : ℕ) (key : Text) (s : Shared)
      → Traces client s (record s { db = (llen now key (get now key s.db).1).1 })
  unfolding after
  get_and_llen now key s =
      Traces-trans client s (record s { db = (get now key s.db).1 }) _ (get_only now key s)
        (one client (Operation.llen now key) (record s { db = (get now key s.db).1 }) _ refl)

  take_snapshot-Traces :
      (now : ℕ) (key : Text) (s : Shared)
      → Traces client s (record s { db = (take_snapshot now key s.db).1 })
  unfolding take_snapshot
  take_snapshot-Traces now key s =
      choose s (is_some (get now key s.db).0) _ _ (get_only now key s) (get_and_llen now key s)

  watch_all-Traces :
      (now : ℕ) (keys : List Text) (h : Handler) (s : Shared)
      → Traces client s (record s { db = (watch_all now keys h s.db).1 })
  unfolding watch_all
  watch_all-Traces now [] h s = nothing client s
  watch_all-Traces now (key ∷ keys) h s =
      let taken = record s { db = (take_snapshot now key s.db).1 } in
      Traces-trans client s taken _ (take_snapshot-Traces now key s)
        (watch_all-Traces now keys _ taken)

  snapshot_modified-Traces :
      (now : ℕ) (snap : WatchedKeySnapshot) (s : Shared)
      → Traces client s (record s { db = (snapshot_modified now snap s.db).1 })
  unfolding snapshot_modified
  snapshot_modified-Traces now snap s =
      either_db client s snap.existed _ _ (stored snap.string_value) (
        either_db client s (is_some (get now snap.key s.db).0) _ _ (get_only now snap.key s)
          (get_and_llen now snap.key s))
    where
      stored :
          (old : Option Text)
          → Traces client s (record s {
            db =
                (elim old as (λ x. Bool × Database) [
                  | none ↦
                      if ltb_ℤ snap.list_size (pos 0) then (false, (get now snap.key s.db).1) else (
                        int_differs (llen now snap.key (get now snap.key s.db).1).0 snap.list_size,
                        (llen now snap.key (get now snap.key s.db).1).1,
                      )
                  | some old ↦
                      (text_differs (get now snap.key s.db).0 old, (get now snap.key s.db).1)
                ]).1;
          })
      stored none =
          either_db client s (ltb_ℤ snap.list_size (pos 0)) _ _ (get_only now snap.key s)
            (get_and_llen now snap.key s)
      stored (some old) = get_only now snap.key s

  watched_keys_modified-Traces :
      (now : ℕ) (snaps : List WatchedKeySnapshot) (s : Shared)
      → Traces client s (record s { db = (watched_keys_modified now snaps s.db).1 })
  unfolding watched_keys_modified
  watched_keys_modified-Traces now [] s = nothing client s
  watched_keys_modified-Traces now (snap ∷ snaps) s =
      let checked = record s { db = (snapshot_modified now snap s.db).1 } in
      either_db client s (snapshot_modified now snap s.db).0 _ _
        (snapshot_modified-Traces now snap s)
        (Traces-trans client s checked _ (snapshot_modified-Traces now snap s)
          (watched_keys_modified-Traces now snaps checked))

  execute_queue-Traces :
      (c : Context) (cmds : List Command) (s : Shared)
      → Traces client s (execute_queue client c cmds s).1
  unfolding execute_queue
  execute_queue-Traces c [] s = nothing client s
  execute_queue-Traces c (cmd ∷ cmds) s =
      Traces-trans client s (execute_single client c cmd s).1 _
        (execute_single-Traces client c cmd s)
        (execute_queue-Traces c cmds (execute_single client c cmd s).1)

  handle_watch-Traces :
      (c : Context) (args : List Text) (h : Handler) (s : Shared)
      → Traces client s (handle_watch c args (h, s)).1.1
  unfolding handle_watch
  handle_watch-Traces c [] h s = nothing client s
  handle_watch-Traces c (key ∷ keys) h s =
      either_state s h.in_multi _ _ (nothing client s) (watch_all-Traces c.now (key ∷ keys) h s)

  run_transaction-Traces :
      (c : Context) (h : Handler) (s : Shared)
      → Traces client s (run_transaction client c (h, s)).1.1
  unfolding run_transaction
  run_transaction-Traces c h s = execute_queue-Traces c h.tx_queue s

  handle_exec-Traces :
      (c : Context) (h : Handler) (s : Shared) → Traces client s (handle_exec client c (h, s)).1.1
  unfolding handle_exec
  handle_exec-Traces c h s =
      let checked = record s { db = (watched_keys_modified c.now h.watch_snapshots s.db).1 } in
      let reads = watched_keys_modified-Traces c.now h.watch_snapshots s in
      either_state s h.in_multi _ _
        (either_state s (is_empty h.watched_keys) _ _ (run_transaction-Traces c h s) (
          either_state s (watched_keys_modified c.now h.watch_snapshots s.db).0 _ _ reads
            (Traces-trans client s checked _ reads (run_transaction-Traces c h checked))))
        (nothing client s)

  execute_or_queue-Traces :
      (c : Context) (cmd : Command) (h : Handler) (s : Shared)
      → Traces client s (execute_or_queue client c cmd (h, s)).1.1
  unfolding execute_or_queue
  execute_or_queue-Traces c cmd h s =
      either_state s (cmd.name == codes "MULTI") _ _ (nothing client s) (
        either_state s (cmd.name == codes "EXEC") _ _ (handle_exec-Traces c h s) (
          either_state s (cmd.name == codes "DISCARD") _ _ (nothing client s) (
            either_state s (cmd.name == codes "WATCH") _ _ (handle_watch-Traces c cmd.args h s) (
              either_state s h.in_multi _ _ (nothing client s)
                (execute_single-Traces client c cmd s)))))

  -- Whatever a client sends, at any point of a transaction, changes the database only by operations
  -- of the database, and the subscriptions only by calls that change the client's own or that drop
  -- broken sockets.
  pub execute-Traces :
      (c : Context) (cmd : Command) (h : Handler) (s : Shared)
      → Traces client s (execute client c cmd (h, s)).1.1
  unfolding execute
  execute-Traces c cmd h s =
      either_state s (is_subscribed client s.pubsub && not (allowed_subscribed cmd.name)) _ _
        (nothing client s) (execute_or_queue-Traces c cmd h s)
