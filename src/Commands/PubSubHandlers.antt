-- ===== src/Commands/PubSubHandlers.antt =====
-- The handlers of SUBSCRIBE, UNSUBSCRIBE, PUBLISH, CONFIG and INFO in
-- src/commands/command_handler.cpp.
use my_redis.Prelude.{
  ℕ, ◌/◌, Option, none, some, List, [], ◌∷◌, ◌++◌, Bool, ◌||◌, ◌==◌, if◌then◌else◌,
}
use my_redis.Prelude.Int.{pos}
use my_redis.Prelude.Text.{Text, text_eq, codes}
use my_redis.Number.{upper, to_string}
use my_redis.Database.{dbsize}
use my_redis.PubSub.{subscribe, unsubscribe, publish}
use my_redis.Commands.{Context, Shared}
use my_redis.Commands.Reply.{integer_reply, wrong_number, confirmations}

unfoldable pub handle_subscribe : ℕ → List Text → Shared → Text × Shared
handle_subscribe client [] s = (wrong_number "SUBSCRIBE", s)
handle_subscribe client (channel ∷ channels) s =
    let (results, ps) = subscribe client (channel ∷ channels) s.pubsub in
    (confirmations (codes "subscribe") results, record s { pubsub = ps })

unfoldable pub handle_unsubscribe : ℕ → List Text → Shared → Text × Shared
handle_unsubscribe client channels s =
    let (results, ps) = unsubscribe client channels s.pubsub in
    (confirmations (codes "unsubscribe") results, record s { pubsub = ps })

unfoldable pub handle_publish : Context → List Text → Shared → Text × Shared
handle_publish c (channel ∷ message ∷ []) s =
    let (receivers, ps) = publish c.send_response channel message s.pubsub in
    (integer_reply (pos receivers), record s { pubsub = ps })
handle_publish c _ s = (wrong_number "PUBLISH", s)

unfoldable pub is_config_key : Text → Bool
is_config_key param =
    param == codes "save"
    || param == codes "port"
    || param == codes "bind"
    || param == codes "requirepass"
    || param == codes "loglevel"
    || param == codes "maxmemory"

unfoldable pub config_get : List Text → Text
unfolding is_config_key
config_get (param ∷ []) =
    if is_config_key param
    then codes "1) \"" ++ (param ++ (codes "\"\n2) \"\""))
    else codes "(empty list)"
config_get _ = wrong_number "CONFIG GET"

unfoldable pub config_set : List Text → Text
config_set (param ∷ value ∷ []) = codes "OK"
config_set _ = wrong_number "CONFIG SET"

unfoldable pub handle_config : List Text → Text
unfolding config_get config_set
handle_config [] = wrong_number "CONFIG"
handle_config (subcmd ∷ args) =
    if upper subcmd == codes "GET"
    then config_get args
    else if upper subcmd == codes "SET"
    then config_set args
    else codes "ERR Unknown subcommand '" ++ (upper subcmd ++ codes "'")

unfoldable pub server_section : Option (ℕ × ℕ) → Text
server_section none = []
server_section (some (uptime, client_count)) =
    codes "uptime_in_seconds:"
    ++ (to_string uptime
        ++ (codes "\nuptime_in_days:"
            ++ (to_string (uptime / 86400)
                ++ (codes "\n\n# Clients\nconnected_clients:"
                    ++ (to_string client_count ++ codes "\n")))))

unfoldable pub handle_info : Context → List Text → Shared → Text × Shared
unfolding server_section
handle_info c args s =
    let (count, db) = dbsize c.now s.db in
    (
      codes "# Server\nmyredis_version:1.0.0\ntcp_port:6399\n"
          ++ (server_section c.server
              ++ (codes "\n# Keyspace\ndb0:keys=" ++ (to_string count ++ codes "\n"))),
      record s { db = db },
    )
