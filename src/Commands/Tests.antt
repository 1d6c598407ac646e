-- ===== src/Commands/Tests.antt =====
-- A transaction of two commands, a watched key, and the theorems of this part at them.
use my_redis.Prelude.{◌≡◌, refl, none, List, [], ◌∷◌, true, false}
use my_redis.Prelude.Int.{to_int}
use my_redis.Prelude.Text.{Text, codes, text_beq}
use my_redis.Dict.{find}
use my_redis.Parser.{Command}
use my_redis.Database.{Database, empty_database}
use my_redis.Database.View.{view}
use my_redis.PubSub.{empty_pubsub, is_subscribed}
use my_redis.Persistence.File.{all_well}
use my_redis.Commands.{Context, Shared}
use my_redis.Commands.Transactions.{new_handler, execute}
use my_redis.Commands.Queue.{
  is_control, commands_of, Runs, response_text, after_multi, execute-exec_queue,
}
use my_redis.Commands.Watch.{differs}

abbrev context : Context
context = record {
  now = 1000000000;
  later = 1000000500;
  send_response = λ fd bytes. true;
  outcome = all_well;
  server = none;
}

abbrev shared : Shared
shared = record { db = empty_database; pubsub = empty_pubsub; files = [] }

abbrev set_k : Command
set_k = record { name = codes "SET"; args = codes "k" ∷ codes "v" ∷ [] }

abbrev get_k : Command
get_k = record { name = codes "GET"; args = codes "k" ∷ [] }

abbrev sent : List (Context × Command)
sent = (context, set_k) ∷ (context, get_k) ∷ []

execute-exec_queue_example :
    ((after_multi 3 context [] sent shared).1 ≡ shared)
    × ((results : List Text) × (final : Shared) × Runs 3 context
          (commands_of sent)
          shared
          results
          final
        × (execute 3 context
              (record { name = codes "EXEC"; args = [] })
              (after_multi 3 context [] sent shared)
            ≡ (response_text results, (new_handler, final))))
unfolding is_subscribed find is_control text_beq commands_of
execute-exec_queue_example =
    execute-exec_queue 3 context context sent [] [] shared refl (refl, (refl, tt))

abbrev db : Database
db = record { store = []; list_store = (codes "l", codes "x" ∷ []) ∷ []; expiry = [] }

abbrev changed : Database
changed = record { store = []; list_store = (codes "l", codes "y" ∷ []) ∷ []; expiry = [] }

-- Another list of the same length is not seen.
not_noticed : differs (view 0 (codes "l") db) (view 9 (codes "l") changed) ≡ false
unfolding view find text_beq to_int
not_noticed = refl
