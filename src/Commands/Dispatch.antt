-- ===== src/Commands/Dispatch.antt =====
-- `CommandHandler::execute_single` of src/commands/command_handler.cpp: the routing by name.
use my_redis.Prelude.{ℕ, ◌++◌, ◌==◌, if◌then◌else◌}
use my_redis.Prelude.Text.{Text, text_eq, codes}
use my_redis.Parser.{Command}
use my_redis.Commands
use my_redis.Commands.{Context, Shared}
use my_redis.Commands.ListHandlers
use my_redis.Commands.PubSubHandlers

unfoldable pub execute_config : ℕ → Context → Command → Shared → Text × Shared
execute_config client c cmd s =
    if cmd.name == codes "SUBSCRIBE"
    then PubSubHandlers.handle_subscribe client cmd.args s
    else if cmd.name == codes "UNSUBSCRIBE"
    then PubSubHandlers.handle_unsubscribe client cmd.args s
    else if cmd.name == codes "PUBLISH"
    then PubSubHandlers.handle_publish c cmd.args s
    else if cmd.name == codes "CONFIG"
    then (PubSubHandlers.handle_config cmd.args, s)
    else if cmd.name == codes "INFO"
    then PubSubHandlers.handle_info c cmd.args s
    else (codes "ERR unknown command '" ++ (cmd.name ++ codes "'"), s)

unfoldable pub execute_list : ℕ → Context → Command → Shared → Text × Shared
unfolding execute_config
execute_list client c cmd s =
    if cmd.name == codes "LPUSH"
    then ListHandlers.handle_lpush c cmd.args s
    else if cmd.name == codes "RPUSH"
    then ListHandlers.handle_rpush c cmd.args s
    else if cmd.name == codes "LPOP"
    then ListHandlers.handle_lpop c cmd.args s
    else if cmd.name == codes "RPOP"
    then ListHandlers.handle_rpop c cmd.args s
    else if cmd.name == codes "LRANGE"
    then ListHandlers.handle_lrange c cmd.args s
    else if cmd.name == codes "LLEN"
    then ListHandlers.handle_llen c cmd.args s
    else if cmd.name == codes "LINDEX"
    then ListHandlers.handle_lindex c cmd.args s
    else execute_config client c cmd s

unfoldable pub execute_key : ℕ → Context → Command → Shared → Text × Shared
unfolding execute_list
execute_key client c cmd s =
    if cmd.name == codes "FLUSHDB"
    then Commands.handle_flushdb c cmd.args s
    else if cmd.name == codes "EXPIRE"
    then Commands.handle_expire c cmd.args s
    else if cmd.name == codes "TTL"
    then Commands.handle_ttl c cmd.args s
    else if cmd.name == codes "PERSIST"
    then Commands.handle_persist c cmd.args s
    else if cmd.name == codes "SAVE"
    then Commands.handle_save c cmd.args s
    else execute_list client c cmd s

unfoldable pub execute_single : ℕ → Context → Command → Shared → Text × Shared
unfolding execute_key
execute_single client c cmd s =
    if cmd.name == codes "PING"
    then (Commands.handle_ping cmd.args, s)
    else if cmd.name == codes "SET"
    then Commands.handle_set c cmd.args s
    else if cmd.name == codes "GET"
    then Commands.handle_get c cmd.args s
    else if cmd.name == codes "DEL"
    then Commands.handle_del c cmd.args s
    else if cmd.name == codes "EXISTS"
    then Commands.handle_exists c cmd.args s
    else if cmd.name == codes "KEYS"
    then Commands.handle_keys c cmd.args s
    else if cmd.name == codes "DBSIZE"
    then Commands.handle_dbsize c cmd.args s
    else execute_key client c cmd s
