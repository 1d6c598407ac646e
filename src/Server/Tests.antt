-- ===== src/Server/Tests.antt =====
-- A client of the event loop, and the theorems of this part at it.
use my_redis.Prelude.{arith, ◌+◌, ◌≡◌, ◌≢◌, refl, some, [], ◌∷◌, true, ◌++◌, ◌↔◌, nat_eq, length}
use my_redis.Prelude.Text.{Text, text_eq, text_beq, codes}
use my_redis.Dict.{find}
use my_redis.Parser.{Command}
use my_redis.Database.{empty_database}
use my_redis.PubSub.{empty_pubsub, is_subscribed}
use my_redis.Persistence.File.{all_well}
use my_redis.Commands.{Context, Shared}
use my_redis.Server.{ClientState, Surroundings, new_client, respond, process_loop}
use my_redis.Prelude.{ℕ, List, none, false, All, ◌≤◌}
use my_redis.Number.{upper}
use my_redis.Dict.{contains, assign}
use my_redis.Database.Invariant.{IsWellFormed-empty}
use my_redis.PubSub.Consistency.{empty-Agree, listens}
use my_redis.PubSub.Sets.{member, set_at}
use my_redis.Server.{Server, Incoming, received, closed, event_round, client_at, process_client}
use my_redis.Server.Invariant.{Reach, start, later, round, IsSound, Reach-IsSound}
use my_redis.Parser.Printer.{print_line, print_word, print_words, escape}
use my_redis.Resp.Frames.{no_cr, no_cr-OneLine}
use my_redis.Server.Wire.{as_array, as_line}
use my_redis.Server.Pipeline.{Words, Sendable, serve, bytes_of, idle, process_client-bytes_of}
use my_redis.Server.{max_buffer}
use my_redis.Resp.Serialize.{serialize_response, array, bulk_string}
use my_redis.Number.{to_string, decimal}
use my_redis.Server.Lifecycle
use my_redis.Server.Lifecycle.{Process, Opening, Event, stopped, timed_out, ready, destroy}
use my_redis.Server.Shutdown.{destroy-start}
use my_redis.Server.Session.{respond_unauthenticated}
use my_redis.Server.Guard.{process_client-unauthenticated}
use my_redis.Server.Exec.{exec_answer, process_client-exec}
use my_redis.Server.Fuel.{process_loop_enough}

abbrev context : Context
context = record {
  now = 1000000000;
  later = 1000000500;
  send_response = λ fd bytes. true;
  outcome = all_well;
  server = some (60, 1);
}

abbrev shared : Shared
shared = record { db = empty_database; pubsub = empty_pubsub; files = [] }

abbrev secret : Text
secret = codes "secret"

abbrev auth : Command
auth = record { name = codes "AUTH"; args = secret ∷ [] }

abbrev set_command : Command
set_command = record { name = codes "SET"; args = codes "k" ∷ codes "v" ∷ [] }

abbrev known_client : ClientState
known_client = record { read_buffer = []; authenticated = true }

abbrev two_commands : ClientState
two_commands = record { read_buffer = codes "PING\r\nDBSIZE\r\n"; authenticated = true }

abbrev surroundings : Surroundings
surroundings = record { context = λ i. context; sent_ok = λ i. true }

secret_given : secret ≢ []
secret_given = ground arith

respond_unauthenticated_example :
    ((respond secret 3 context auth new_client shared).2 ≡ shared)
    × (((respond secret 3 context auth new_client shared).1.authenticated ≡ true)
        ↔ ((auth.name ≡ codes "AUTH") × (auth.args ≡ secret ∷ [])))
respond_unauthenticated_example =
    respond_unauthenticated secret 3 context auth new_client shared secret_given refl

process_loop_enough_example :
    process_loop secret 3 surroundings
      (100 + length two_commands.read_buffer)
      0
      two_commands
      shared
      []
    ≡ process_loop secret 3 surroundings (length two_commands.read_buffer) 0 two_commands shared []
process_loop_enough_example = process_loop_enough secret 3 surroundings 100 0 two_commands shared []

-- A server with two clients, of which one has subscribed.
abbrev with_clients : Server
with_clients = record {
  clients = (3, known_client) ∷ (4, known_client) ∷ [];
  shared = shared;
  password = [];
}

abbrev subscriber : Incoming
subscriber = received (codes "SUBSCRIBE news\r\n")

abbrev busy : Server
busy =
    event_round (some 5) ((3, surroundings, subscriber) ∷ (4, surroundings, closed) ∷ [])
      with_clients

busy-Reach : Reach with_clients busy
busy-Reach =
    later start (round (some 5) ((3, surroundings, subscriber) ∷ (4, surroundings, closed) ∷ []))

no_listener :
    (fd : ℕ) (c : Text) → listens fd c empty_pubsub ≡ true → contains fd with_clients.clients ≡ true
unfolding set_at member find
no_listener fd c e = absurd (ground (arith, e))

with_clients-IsSound : IsSound with_clients
with_clients-IsSound = record {
  well_formed = IsWellFormed-empty;
  distinct = record { store = tt; list_store = tt; expiry = tt };
  agree = empty-Agree;
  connected = λ fd c e. no_listener fd c e;
}

Reach-IsSound_example : IsSound busy
Reach-IsSound_example = Reach-IsSound busy-Reach with_clients-IsSound

abbrev pings : List Words
pings =
    record { form = as_array; name = codes "set"; args = codes "k" ∷ codes "v" ∷ [] }
    ∷ record { form = as_line; name = codes "GET"; args = codes "k" ∷ [] }
    ∷ []

pings-Sendable : All Sendable pings
unfolding upper text_beq no_cr
pings-Sendable = (
  ((omega arith, (omega arith, (omega arith, (omega arith, tt)))), refl),
  (((no_cr-OneLine (codes "GET") refl, (no_cr-OneLine (codes "k") refl, tt)), refl), tt),
)

pings_small : length (bytes_of pings) ≤ max_buffer
unfolding array bulk_string to_string decimal print_line print_word print_words escape
pings_small = omega arith

process_client-bytes_of_example :
    let served = serve [] 3 surroundings 0 pings (client_at 3 with_clients).authenticated shared in
    process_client 3 surroundings (received (bytes_of pings)) with_clients ≡ (
      true,
      record with_clients {
        clients = assign 3 (idle served.1) with_clients.clients;
        shared = served.2;
      },
      served.0,
    )
unfolding client_at find
process_client-bytes_of_example =
    process_client-bytes_of 3 surroundings pings with_clients refl pings-Sendable pings_small
      (λ j. refl)

-- The socket 7 listens, a client connects on 8, and the process is interrupted.
abbrev opening : Opening
opening = record { socket = some 7; bound = true; listening = true }

abbrev events : List Event
events = ready (some 8) (λ fd. none) ∷ timed_out ∷ stopped ∷ []

abbrev not_started : Process
not_started = record {
  server = record { clients = []; shared = shared; password = [] };
  listen_fd = none;
  running = false;
  sockets = [];
}

destroy-start_example :
    member 8 (destroy (Lifecycle.start opening events not_started)).sockets ≡ false
destroy-start_example = destroy-start opening events not_started 8 refl refl

-- A server with a password, and a client that guesses it wrong.
abbrev guarded : Server
guarded = record { clients = (3, new_client) ∷ []; shared = shared; password = secret }

abbrev guesses : Incoming
guesses = received (codes "AUTH wrong\r\nSET k v\r\n")

still_outside :
    (client_at 3 (process_client 3 surroundings guesses guarded).1).authenticated ≡ false
unfolding process_client client_at find process_loop respond assign my_redis.Resp.parse_command
    my_redis.Parser.parse text_beq
still_outside = refl

process_client-unauthenticated_example :
    (process_client 3 surroundings guesses guarded).1.shared ≡ shared
unfolding client_at find
process_client-unauthenticated_example =
    process_client-unauthenticated 3 surroundings guesses guarded secret_given refl still_outside

-- A transaction in one read.
abbrev transaction : List Words
transaction =
    record { form = as_array; name = codes "MULTI"; args = [] }
    ∷ record { form = as_line; name = codes "set"; args = codes "k" ∷ codes "v" ∷ [] }
    ∷ []

abbrev exec : Words
exec = record { form = as_array; name = codes "exec"; args = [] }

transaction-Sendable : All Sendable (transaction ++ (exec ∷ []))
unfolding upper text_beq no_cr
transaction-Sendable = (
  ((omega arith, (omega arith, tt)), refl),
  (
    (
      (
        no_cr-OneLine (codes "set") refl,
        (no_cr-OneLine (codes "k") refl, (no_cr-OneLine (codes "v") refl, tt)),
      ),
      refl,
    ),
    (((omega arith, (omega arith, tt)), refl), tt),
  ),
)

transaction_small : length (bytes_of (transaction ++ (exec ∷ []))) ≤ max_buffer
unfolding array bulk_string to_string decimal print_line print_word print_words escape
transaction_small = omega arith

process_client-exec_example :
    let (stays, before, sent) =
      process_client 3 surroundings (received (bytes_of transaction)) with_clients in
    process_client 3 surroundings (received (bytes_of (transaction ++ (exec ∷ [])))) with_clients
    ≡ (
      stays,
      before,
      sent
          ++ (serialize_response (
                exec_answer []
                  (client_at 3 before).authenticated
                  (is_subscribed 3 before.shared.pubsub))
              ∷ []),
    )
unfolding client_at find upper
process_client-exec_example =
    process_client-exec 3 surroundings transaction exec with_clients refl refl transaction-Sendable
      transaction_small (λ j. refl)
