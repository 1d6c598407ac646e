-- ===== src/Commands/Traces/Dispatch.antt =====
-- `CommandHandler::execute_single` of src/commands/command_handler.cpp as operations of the database
-- and calls of the subscriptions.
use my_redis.Prelude.{ℕ, ◌==◌}
use my_redis.Prelude.Text.{text_eq, codes}
use my_redis.Parser.{Command}
use my_redis.Commands.{Context, Shared}
use my_redis.Commands.Dispatch.{execute_single, execute_key, execute_list, execute_config}
use my_redis.Commands.Traces.{TracesTo, nothing, either}
use my_redis.Commands.Traces.Keys.{
  set-Traces, get-Traces, del-Traces, exists-Traces, keys-Traces, dbsize-Traces, flushdb-Traces,
  expire-Traces, ttl-Traces, persist-Traces, save-Traces,
}
use my_redis.Commands.Traces.Lists.{
  lpush-Traces, rpush-Traces, lpop-Traces, rpop-Traces, llen-Traces, lrange-Traces, lindex-Traces,
  subscribe-Traces, unsubscribe-Traces, publish-Traces, info-Traces,
}

module _ (client : ℕ) (c : Context) where
  config-Traces : (cmd : Command) (s : Shared) → TracesTo client s (execute_config client c cmd s)
  unfolding execute_config
  config-Traces cmd s =
      either client s (cmd.name == codes "SUBSCRIBE") _ _ (subscribe-Traces client c cmd.args s) (
        either client s (cmd.name == codes "UNSUBSCRIBE") _ _
          (unsubscribe-Traces client c cmd.args s)
          (either client s (cmd.name == codes "PUBLISH") _ _ (publish-Traces client c cmd.args s) (
            either client s (cmd.name == codes "CONFIG") _ _ (nothing client s) (
              either client s (cmd.name == codes "INFO") _ _ (info-Traces client c cmd.args s)
                (nothing client s)))))

  list-Traces : (cmd : Command) (s : Shared) → TracesTo client s (execute_list client c cmd s)
  unfolding execute_list
  list-Traces cmd s =
      either client s (cmd.name == codes "LPUSH") _ _ (lpush-Traces client c cmd.args s) (
        either client s (cmd.name == codes "RPUSH") _ _ (rpush-Traces client c cmd.args s) (
          either client s (cmd.name == codes "LPOP") _ _ (lpop-Traces client c cmd.args s) (
            either client s (cmd.name == codes "RPOP") _ _ (rpop-Traces client c cmd.args s) (
              either client s (cmd.name == codes "LRANGE") _ _ (lrange-Traces client c cmd.args s) (
                either client s (cmd.name == codes "LLEN") _ _ (llen-Traces client c cmd.args s) (
                  either client s (cmd.name == codes "LINDEX") _ _
                    (lindex-Traces client c cmd.args s) (config-Traces cmd s)))))))

  key-Traces : (cmd : Command) (s : Shared) → TracesTo client s (execute_key client c cmd s)
  unfolding execute_key
  key-Traces cmd s =
      either client s (cmd.name == codes "FLUSHDB") _ _ (flushdb-Traces client c cmd.args s) (
        either client s (cmd.name == codes "EXPIRE") _ _ (expire-Traces client c cmd.args s) (
          either client s (cmd.name == codes "TTL") _ _ (ttl-Traces client c cmd.args s) (
            either client s (cmd.name == codes "PERSIST") _ _ (persist-Traces client c cmd.args s) (
              either client s (cmd.name == codes "SAVE") _ _ (save-Traces client c cmd.args s)
                (list-Traces cmd s)))))

  -- Every command is operations of the database and calls of the subscriptions, each the client's own.
  pub execute_single-Traces :
      (cmd : Command) (s : Shared) → TracesTo client s (execute_single client c cmd s)
  unfolding execute_single
  execute_single-Traces cmd s = either client s (cmd.name == codes "PING") _ _ (nothing client s) (
      either client s (cmd.name == codes "SET") _ _ (set-Traces client c cmd.args s) (
        either client s (cmd.name == codes "GET") _ _ (get-Traces client c cmd.args s) (
          either client s (cmd.name == codes "DEL") _ _ (del-Traces client c cmd.args s) (
            either client s (cmd.name == codes "EXISTS") _ _ (exists-Traces client c cmd.args s) (
              either client s (cmd.name == codes "KEYS") _ _ (keys-Traces client c cmd.args s) (
                either client s (cmd.name == codes "DBSIZE") _ _ (dbsize-Traces client c cmd.args s)
                  (key-Traces cmd s)))))))
